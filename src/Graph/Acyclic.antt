-- ===== src/Graph/Acyclic.antt =====
-- The cycle check of workflow.py where it raises nothing: the order in which it finishes nodes.
use mathlib.Core.Path.{subst}
use bastet_agent_os.Prelude.{
  ℕ, zero, suc, String, ◌≡◌, refl, true, inl, inr, List, [], ◌∷◌, Result, ok, ◌>>=◌, >>=-eq-ok,
  contains, Subset, Bool-cases, eq_iff, ◌==◌, arith,
}
use bastet_agent_os.Graph.{Graph, DependsOn, edge, path, visit_all, visit, check_cycles, VisitError}

-- Every node stands before (in the list, after) all that it needs.
abbrev pub IsOrdered : Graph → List String → Type 0
IsOrdered g [] = Unit
IsOrdered g (x ∷ xs) = Subset (g x) xs × IsOrdered g xs

record Grows (g : Graph) (names before after : List String) : Type 0 where
  ordered : IsOrdered g after
  kept : Subset before after
  covers : Subset names after

Grows-nil : (g : Graph) (v : List String) → IsOrdered g v → Grows g [] v v
Grows-nil g v o = record { ordered = o; kept = λ a h. h; covers = λ a h. ground (arith, h) }

-- What is asked of one visit.
abbrev Sound : Graph → (String → List String → Result VisitError (List String)) → Type 0
Sound g f =
    (name : String) (v w : List String) → IsOrdered g v → f name v ≡ ok w → Grows g (name ∷ []) v w

covers-cons :
    (d : String) (ds w v : List String)
    → Subset (d ∷ []) w
    → Subset w v
    → Subset ds v
    → Subset (d ∷ ds) v
covers-cons d ds w v hd hw hds a h = elim (Bool-cases (a == d)) [
  | inl e ↦ hw a (hd a (rw e refl))
  | inr e ↦ hds a (ground (arith, h))
]

visit_all-Grows :
    (g : Graph) (f : String → List String → Result VisitError (List String))
    → Sound g f
    → (ds v w : List String) → IsOrdered g v
    → visit_all f ds v ≡ ok w
    → Grows g ds v w
unfolding visit_all
visit_all-Grows g f s [] v w o h =
    let e : v ≡ w = cc in subst (λ u. Grows g [] v u) e (Grows-nil g v o)
visit_all-Grows g f s (d ∷ ds) v w o h =
    let (u, first, others) = >>=-eq-ok (f d v) (visit_all f ds) h in
    let gd = s d v u o first in
    let gs = visit_all-Grows g f s ds u w gd.ordered others in
    record {
      ordered = gs.ordered;
      kept = λ a k. gs.kept a (gd.kept a k);
      covers = covers-cons d ds u w gd.covers gs.kept gs.covers;
    }

Grows-old :
    (g : Graph) (name : String) (v : List String)
    → IsOrdered g v
    → contains name v ≡ true
    → Grows g (name ∷ []) v v
Grows-old g name v o old = record {
  ordered = o;
  kept = λ a h. h;
  covers = λ a h. ground (arith, eq_iff a name);
}

Grows-new :
    (g : Graph) (name : String) (v u : List String)
    → Grows g (g name) v u
    → Grows g (name ∷ []) v (name ∷ u)
Grows-new g name v u all = record {
  ordered = (all.covers, all.ordered);
  kept = λ a h. ground (arith, all.kept a h);
  covers = λ a h. ground arith;
}

abbrev below : Graph → ℕ → List String → String → List String → Result VisitError (List String)
below g fuel visiting name v = visit_all (visit g fuel (name ∷ visiting)) (g name) v

visit-Sound : (g : Graph) (fuel : ℕ) (visiting : List String) → Sound g (visit g fuel visiting)
unfolding visit
visit-Sound g zero visiting name v w o h = cc
visit-Sound g (suc fuel) visiting name v w o h = elim (Bool-cases (contains name visiting)) [
  | inl c ↦ let bad : ⊥ = ground arith in absurd bad
  | inr c ↦ elim (Bool-cases (contains name v)) [
    | inl old ↦
        let e : v ≡ w = ground arith in
        subst (λ u. Grows g (name ∷ []) v u) e (Grows-old g name v o old)
    | inr new ↦
        let opened : (below g fuel visiting name v >>= λ u. ok (name ∷ u)) ≡ ok w =
          rw (c, new) at h in
        let (u, q, e) = >>=-eq-ok (below g fuel visiting name v) (λ u. ok (name ∷ u)) opened in
        let done : name ∷ u ≡ w = cc in
        let all =
          visit_all-Grows g (visit g fuel (name ∷ visiting)) (visit-Sound g fuel (name ∷ visiting))
            (g name) v u o q in
        subst (λ x. Grows g (name ∷ []) v x) done (Grows-new g name v u all)
  ]
]

needs-closed :
    (g : Graph) (x y : String) (v : List String)
    → IsOrdered g v
    → contains x v ≡ true
    → contains y (g x) ≡ true
    → contains y v ≡ true
needs-closed g x y [] o h e = ground (arith, h)
needs-closed g x y (z ∷ v) (s, o) h e = elim (Bool-cases (x == z)) [
  | inl p ↦
      let same : x ≡ z = (eq_iff x z).0 p in
      let k : contains y (g z) ≡ true = subst (λ a. contains y (g a) ≡ true) same e in
      ground (arith, s y k)
  | inr p ↦ ground (arith, needs-closed g x y v o (ground (arith, h)) e)
]

-- Whatever a node depends on stands below it in an ordered list.
DependsOn-below :
    {g : Graph} {x y : String} (v : List String)
    → IsOrdered g v
    → Subset (g x) v
    → DependsOn g x y
    → contains y v ≡ true
DependsOn-below {y = y} v o s (edge e) = s y e
DependsOn-below {g} v o s (path {y = m} {z = z} d e) =
    needs-closed g m z v o (DependsOn-below v o s d) e

-- In an ordered list no node depends on itself.
pub IsOrdered-acyclic :
    (g : Graph) (x : String) (v : List String)
    → IsOrdered g v
    → contains x v ≡ true
    → ¬ DependsOn g x x
IsOrdered-acyclic g x [] o h d = let bad : ⊥ = ground (arith, h) in absurd bad
IsOrdered-acyclic g x (z ∷ v) (s, o) h d = elim (Bool-cases (contains x v)) [
  | inl k ↦ IsOrdered-acyclic g x v o k d
  | inr k ↦
      let same : z ≡ x = ground (arith, eq_iff x z) in
      let again = DependsOn-below v o (subst (λ a. Subset (g a) v) same s) d in
      ground (arith, again)
]

-- If the check of `names` raises nothing, then no name among them depends on itself, through any
-- number of edges, and the list of the visited names holds all of `names` and has every node after
-- its dependencies were finished.
pub check_cycles_sound :
    (g : Graph) (fuel : ℕ) (names v : List String)
    → check_cycles g fuel names ≡ ok v
    → IsOrdered g v × Subset names v × ((x : String) → contains x names ≡ true → ¬ DependsOn g x x)
unfolding check_cycles
check_cycles_sound g fuel names v h =
    let all = visit_all-Grows g (visit g fuel []) (visit-Sound g fuel []) names [] v tt h in
    (all.ordered, all.covers, λ x k. IsOrdered-acyclic g x v all.ordered (all.covers x k))
