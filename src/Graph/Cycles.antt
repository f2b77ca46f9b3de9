-- ===== src/Graph/Cycles.antt =====
-- The cycle check of workflow.py where it raises: the node that it names.
use mathlib.Core.Path.{subst}
use bastet_agent_os.Prelude.{
  ℕ, zero, suc, String, ◌≡◌, true, inl, inr, List, [], ◌∷◌, Result, ok, err, ◌>>=◌, >>=-eq-err,
  contains, contains-head, Bool-cases, eq_iff, ◌==◌, arith,
}
use bastet_agent_os.Graph.{
  Graph, DependsOn, edge, path, visit_all, visit, check_cycles, VisitError, cycle_at,
}

-- The names on the recursion stack: each is needed by the one below it.
abbrev IsChain : Graph → String → List String → Type 0
IsChain g name [] = Unit
IsChain g name (p ∷ ps) = (contains name (g p) ≡ true) × IsChain g p ps

IsChain-DependsOn :
    (g : Graph) (name q : String) (ps : List String)
    → IsChain g name ps
    → contains q ps ≡ true
    → DependsOn g q name
IsChain-DependsOn g name q [] c h = let bad : ⊥ = ground (arith, h) in absurd bad
IsChain-DependsOn g name q (p ∷ ps) (e, c) h = elim (Bool-cases (q == p)) [
  | inl same ↦
      let s : p ≡ q = ground (arith, eq_iff q p) in subst (λ a. DependsOn g a name) s (edge e)
  | inr differ ↦ path (IsChain-DependsOn g p q ps c (ground (arith, h))) e
]

abbrev Honest :
    Graph → List String → (String → List String → Result VisitError (List String)) → Type 0
Honest g names f =
    (name : String) (v : List String) (c : String)
    → contains name names ≡ true
    → f name v ≡ err (cycle_at c)
    → DependsOn g c c

visit_all-cycle :
    (g : Graph) (names : List String) (f : String → List String → Result VisitError (List String))
    → Honest g names f
    → (ds v : List String) (c : String)
    → ((d : String) → contains d ds ≡ true → contains d names ≡ true)
    → visit_all f ds v ≡ err (cycle_at c)
    → DependsOn g c c
unfolding visit_all
visit_all-cycle g names f k [] v c s h = let bad : ⊥ = cc in absurd bad
visit_all-cycle g names f k (d ∷ ds) v c s h = elim (>>=-eq-err (f d v) (visit_all f ds) h) [
  | inl now ↦ k d v c (s d (contains-head d ds)) now
  | inr (u, _, later) ↦ visit_all-cycle g names f k ds u c (λ a m. s a (ground (arith, m))) later
]

visit-cycle :
    (g : Graph) (fuel : ℕ) (visiting : List String) (name : String) (v : List String) (c : String)
    → IsChain g name visiting
    → visit g fuel visiting name v ≡ err (cycle_at c)
    → DependsOn g c c
unfolding visit
visit-cycle g zero visiting name v c i h = let bad : ⊥ = ground arith in absurd bad
visit-cycle g (suc fuel) visiting name v c i h = elim (Bool-cases (contains name visiting)) [
  | inl on ↦
      let same : name ≡ c = ground arith in
      subst (λ a. DependsOn g a a) same (IsChain-DependsOn g name name visiting i on)
  | inr off ↦ elim (Bool-cases (contains name v)) [
    | inl old ↦ let bad : ⊥ = ground arith in absurd bad
    | inr new ↦
        let opened : (visit_all (visit g fuel (name ∷ visiting)) (g name) v >>= λ u. ok (name ∷ u))
            ≡ err (cycle_at c) =
          rw (off, new) at h in
        elim (>>=-eq-err (visit_all (visit g fuel (name ∷ visiting)) (g name) v) _ opened) [
          | inl deep ↦
              visit_all-cycle g (g name) (visit g fuel (name ∷ visiting))
                (λ n u a m e. visit-cycle g fuel (name ∷ visiting) n u a (m, i) e) (g name) v c
                (λ d m. m) deep
          | inr (u, _, e) ↦ let bad : ⊥ = cc in absurd bad
        ]
  ]
]

-- If the check raises for a cycle at `c`, then `c` does depend on itself.
pub check_cycles_complete :
    (g : Graph) (fuel : ℕ) (names : List String) (c : String)
    → check_cycles g fuel names ≡ err (cycle_at c)
    → DependsOn g c c
unfolding check_cycles
check_cycles_complete g fuel names c h =
    visit_all-cycle g names (visit g fuel [])
      (λ name v c' _ e. visit-cycle g fuel [] name v c' tt e) names [] c (λ d m. m) h
