-- ===== src/Graph/Fuel.antt =====
-- The depth of the recursion of the cycle check (`visit` in workflow.py).
use bastet_agent_os.Prelude.{
  ℕ, zero, suc, ◌+◌, ◌<◌, String, ◌≡◌, ◌≢◌, true, inl, inr, List, [], ◌∷◌, Result, ok, err, ◌>>=◌,
  >>=-eq-err, contains, contains-head, Subset, IsNodup, length, length-le_of_Subset, Bool-cases,
  eq_iff, ◌==◌, arith,
}
use bastet_agent_os.Graph.{Graph, visit_all, visit, check_cycles, VisitError, exhausted}

-- Every node's needs are nodes.
abbrev pub IsClosed : Graph → List String → Type 0
IsClosed g names = (x : String) → contains x names ≡ true → Subset (g x) names

abbrev Fuelled : List String → (String → List String → Result VisitError (List String)) → Type 0
Fuelled names f =
    (name : String) (v : List String) → contains name names ≡ true → f name v ≢ err exhausted

visit_all-fuel :
    (names : List String) (f : String → List String → Result VisitError (List String))
    → Fuelled names f
    → (ds v : List String) → Subset ds names
    → visit_all f ds v ≢ err exhausted
unfolding visit_all
visit_all-fuel names f k [] v s h = cc
visit_all-fuel names f k (d ∷ ds) v s h = elim (>>=-eq-err (f d v) (visit_all f ds) h) [
  | inl now ↦ k d v (s d (contains-head d ds)) now
  | inr (u, _, later) ↦ visit_all-fuel names f k ds u (λ a m. s a (ground (arith, m))) later
]

Subset-cons :
    (x : String) (xs ys : List String) → contains x ys ≡ true → Subset xs ys → Subset (x ∷ xs) ys
Subset-cons x xs ys h s a m = elim (Bool-cases (a == x)) [
  | inl e ↦ ground (arith, eq_iff a x, h)
  | inr e ↦ s a (ground (arith, m))
]

visit-fuel :
    (g : Graph) (names : List String) (closed : IsClosed g names) (fuel : ℕ)
    (visiting : List String)
    → IsNodup visiting
    → Subset visiting names
    → length names < fuel + length visiting
    → Fuelled names (visit g fuel visiting)
unfolding visit
visit-fuel g names closed zero visiting nd s b name v m h =
    absurd (omega (arith, length-le_of_Subset visiting names nd s))
visit-fuel g names closed (suc fuel) visiting nd s b name v m h =
    elim (Bool-cases (contains name visiting)) [
      | inl on ↦ let bad : ⊥ = ground arith in absurd bad
      | inr off ↦ elim (Bool-cases (contains name v)) [
        | inl old ↦ let bad : ⊥ = ground arith in absurd bad
        | inr new ↦
            let opened : (visit_all (visit g fuel (name ∷ visiting)) (g name) v >>= λ u.
            ok (name ∷ u))
                ≡ err exhausted =
              rw (off, new) at h in
            elim (>>=-eq-err (visit_all (visit g fuel (name ∷ visiting)) (g name) v) _ opened) [
              | inl deep ↦
                  visit_all-fuel names (visit g fuel (name ∷ visiting))
                    (visit-fuel g names closed fuel (name ∷ visiting) (off, nd)
                      (Subset-cons name visiting names m s) (omega arith))
                    (g name) v (closed name m) deep
              | inr (u, _, e) ↦ let bad : ⊥ = cc in absurd bad
            ]
      ]
    ]

-- On a closed graph, with more fuel than there are names, the check never runs out of it.
pub check_cycles-fuel :
    (g : Graph) (fuel : ℕ) (names : List String)
    → IsClosed g names
    → length names < fuel
    → check_cycles g fuel names ≢ err exhausted
unfolding check_cycles
check_cycles-fuel g fuel names closed b =
    visit_all-fuel names (visit g fuel [])
      (visit-fuel g names closed fuel [] tt (λ a h. ground (arith, h)) (omega arith)) names []
      (λ a h. h)
