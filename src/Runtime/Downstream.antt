-- ===== src/Runtime/Downstream.antt =====
-- stage_runtime.py: the result of `reset_failed_subgraph`.
use mathlib.Core.Path.{subst}
use bastet_agent_os.Prelude.{
  ℕ, zero, suc, String, ◌≡◌, ◌↔◌, refl, eq_iff, eq_refl, true, false, ◌&&◌, ◌||◌, List, [], ◌∷◌,
  ◌==◌, map, contains, ◌⊎◌, some, contains-head, Option-cases, Bool-cases, inl, inr, ap, ◌∙◌, sym,
  arith, if◌then◌else◌,
}
use bastet_agent_os.Workflow.Stage.{StageDef, names}
use bastet_agent_os.Workflow.Ready.{NodeRow, is_node}
use bastet_agent_os.Runtime.{
  push_dependents, descendants_loop, set_node, set_all, reset_failed_subgraph,
}
use bastet_agent_os.Runtime.Reset.{
  is_dependent, Downstream, direct, through, push_dependents-found, push_dependents-pending,
}

-- What was found is downstream, and what is pending is the root or downstream.
abbrev Reached : List StageDef → String → List String → List String → Type 0
Reached stages root found pending =
    ((a : String) → contains a found ≡ true → Downstream stages root a)
    × ((a : String) → contains a pending ≡ true → (a ≡ root) ⊎ Downstream stages root a)

-- The dependents of the root, and of what was found, are found, but for what is pending.
abbrev Covered : List StageDef → String → List String → List String → Type 0
Covered stages root found pending =
    (x a : String)
    → (x == root || contains x found) ≡ true
    → contains x pending ≡ false
    → is_dependent stages x a ≡ true
    → contains a found ≡ true

is_dependent-Downstream :
    (stages : List StageDef) (root x a : String)
    → (x ≡ root) ⊎ Downstream stages root x
    → is_dependent stages x a ≡ true
    → Downstream stages root a
is_dependent-Downstream stages root x a (inl e) d =
    direct (subst (λ y. is_dependent stages y a ≡ true) e d)
is_dependent-Downstream stages root x a (inr r) d = through r d

Reached-push :
    (stages : List StageDef) (root x : String) (found pending : List String)
    → Reached stages root found (x ∷ pending)
    → Reached stages root
        (push_dependents x stages found pending).0
        (push_dependents x stages found pending).1
Reached-push stages root x found pending (f, p) =
    let new : (a : String) → is_dependent stages x a ≡ true → Downstream stages root a =
      λ a d. is_dependent-Downstream stages root x a (p x (contains-head x pending)) d in
    (
      λ a m. elim (Bool-cases (is_dependent stages x a)) [
        | inl d ↦ new a d
        | inr d ↦ f a (ground (arith, m, d, push_dependents-found x a stages found pending))
      ],
      λ a m. elim (Bool-cases (is_dependent stages x a)) [
        | inl d ↦ inr (new a d)
        | inr d ↦ p a (ground (arith, m, d, push_dependents-pending x a stages found pending))
      ],
    )

Covered-push :
    (stages : List StageDef) (root x : String) (found pending : List String)
    → Covered stages root found (x ∷ pending)
    → Covered stages root
        (push_dependents x stages found pending).0
        (push_dependents x stages found pending).1
Covered-push stages root x found pending c y a m p d =
    let same : (y == x) ≡ true → is_dependent stages y a ≡ is_dependent stages x a =
      λ e. ap (λ n. is_dependent stages n a) ((eq_iff y x).0 e) in
    ground (
      arith,
      m,
      p,
      d,
      c y a,
      same,
      push_dependents-found x a stages found pending,
      push_dependents-found x y stages found pending,
      push_dependents-pending x y stages found pending,
    )

descendants_loop_sound :
    (fuel : ℕ) (stages : List StageDef) (root : String) (found pending result : List String)
    → Reached stages root found pending
    → descendants_loop fuel stages found pending ≡ some result
    → (a : String) → contains a result ≡ true
    → Downstream stages root a
unfolding descendants_loop
descendants_loop_sound zero stages root found pending result r h a m =
    let bad : ⊥ = cc in absurd bad
descendants_loop_sound (suc fuel) stages root found [] result r h a m =
    let e : result ≡ found = cc in r.0 a (subst (λ xs. contains a xs ≡ true) e m)
descendants_loop_sound (suc fuel) stages root found (x ∷ pending) result r h a m =
    descendants_loop_sound fuel stages root (push_dependents x stages found pending).0
      (push_dependents x stages found pending).1 result (Reached-push stages root x found pending r)
      h a m

descendants_loop-covers :
    (fuel : ℕ) (stages : List StageDef) (root : String) (found pending result : List String)
    → Covered stages root found pending
    → descendants_loop fuel stages found pending ≡ some result
    → Covered stages root result []
unfolding descendants_loop
descendants_loop-covers zero stages root found pending result c h = let bad : ⊥ = cc in absurd bad
descendants_loop-covers (suc fuel) stages root found [] result c h =
    let e : found ≡ result = cc in subst (λ xs. Covered stages root xs []) e c
descendants_loop-covers (suc fuel) stages root found (x ∷ pending) result c h =
    descendants_loop-covers fuel stages root (push_dependents x stages found pending).0
      (push_dependents x stages found pending).1 result (Covered-push stages root x found pending c)
      h

Downstream-found :
    {stages : List StageDef} {root a : String} (found : List String)
    → Covered stages root found []
    → Downstream stages root a
    → contains a found ≡ true
Downstream-found {root = root} found c (direct {a = a} d) =
    c root a (ground (arith, eq_refl root)) refl d
Downstream-found found c (through {x = x} {a = a} r d) =
    c x a (ground (arith, Downstream-found found c r)) refl d

descendants_loop_iff :
    (fuel : ℕ) (stages : List StageDef) (root : String) (result : List String) (a : String)
    → descendants_loop fuel stages [] (root ∷ []) ≡ some result
    → (contains a result ≡ true) ↔ Downstream stages root a
descendants_loop_iff fuel stages root result a h = (
  descendants_loop_sound fuel stages root [] (root ∷ []) result
      (
        (λ b m. let bad : ⊥ = ground (arith, m) in absurd bad),
        λ b m. inl ((eq_iff b root).0 (ground (arith, m))),
      )
      h a,
  Downstream-found result (
      descendants_loop-covers fuel stages root [] (root ∷ []) result
        (λ x b m p d. let bad : ⊥ = ground (arith, m, p) in absurd bad) h),
)

-- A row after the retry.
abbrev pub reset_row : String → String → List String → NodeRow → NodeRow
reset_row job_id root found row =
    if row.job_id == job_id && contains row.stage found
    then record row { status = "pending" }
    else if is_node job_id root row
    then record row { status = "ready" }
    else row

-- A row after the nodes with one of the names were set.
abbrev set_row : String → String → List String → NodeRow → NodeRow
set_row to job_id names row =
    if row.job_id == job_id && contains row.stage names then record row { status = to } else row

set_node-map :
    (to job_id name : String) (table : List NodeRow)
    → set_node to job_id name table ≡ map (set_row to job_id (name ∷ [])) table
unfolding set_node
set_node-map to job_id name [] = refl
set_node-map to job_id name (row ∷ table) = ground (arith, set_node-map to job_id name table)

set_twice :
    (to job_id name : String) (names : List String) (table : List NodeRow)
    → map (set_row to job_id names) (map (set_row to job_id (name ∷ [])) table)
      ≡ map (set_row to job_id (name ∷ names)) table
set_twice to job_id name names [] = refl
set_twice to job_id name names (row ∷ table) = ground (arith, set_twice to job_id name names table)

set_none : (to job_id : String) (table : List NodeRow) → table ≡ map (set_row to job_id []) table
set_none to job_id [] = refl
set_none to job_id (row ∷ table) = ground (arith, set_none to job_id table)

set_all-map :
    (to job_id : String) (names : List String) (table : List NodeRow)
    → set_all to job_id names table ≡ map (set_row to job_id names) table
unfolding set_all
set_all-map to job_id [] table = set_none to job_id table
set_all-map to job_id (n ∷ names) table =
    set_all-map to job_id names (set_node to job_id n table)
    ∙ ap (map (set_row to job_id names)) (set_node-map to job_id n table)
    ∙ set_twice to job_id n names table

reset-map :
    (job_id root : String) (found : List String) (table : List NodeRow)
    → map (set_row "pending" job_id found) (map (set_row "ready" job_id (root ∷ [])) table)
      ≡ map (reset_row job_id root found) table
reset-map job_id root found [] = refl
reset-map job_id root found (row ∷ table) = ground (arith, reset-map job_id root found table)

-- The retry that ends returns exactly the stages downstream of the retried one; it makes their
-- nodes pending, makes the node of the retried stage ready where it is not downstream of itself,
-- and changes no other row.
pub reset_failed_subgraph-Downstream :
    (fuel : ℕ) (job_id : String) (stages : List StageDef) (root : String)
    (table table' : List NodeRow) (found : List String)
    → reset_failed_subgraph fuel job_id stages root table ≡ some (table', found)
    → ((a : String) → (contains a found ≡ true) ↔ Downstream stages root a)
      × (table' ≡ map (reset_row job_id root found) table)
unfolding reset_failed_subgraph
reset_failed_subgraph-Downstream fuel job_id stages root table table' found h =
    elim (Option-cases (descendants_loop fuel stages [] (root ∷ []))) [
      | inl e ↦ let bad : ⊥ = ground (arith, e, h) in absurd bad
      | inr (names, e) ↦
          let h' : some (set_all "pending" job_id names (set_node "ready" job_id root table), names)
              ≡ some (table', found) =
            rw (reset_failed_subgraph, e) at h in
          let same : names ≡ found = ground (arith, h') in
          let rows : set_all "pending" job_id names (set_node "ready" job_id root table) ≡ table' =
            ground (arith, h') in
          (
            λ a. descendants_loop_iff fuel stages root found a (e ∙ ap some same),
            sym rows
                ∙ set_all-map "pending" job_id names (set_node "ready" job_id root table)
                ∙ ap (map (set_row "pending" job_id names)) (set_node-map "ready" job_id root table)
                ∙ reset-map job_id root names table
                ∙ ap (λ xs. map (reset_row job_id root xs) table) same,
          )
    ]
