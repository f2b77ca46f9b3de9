-- ===== src/Runtime/Reset.antt =====
-- stage_runtime.py: the search of `reset_failed_subgraph`, round by round, and its fuel.
use bastet_agent_os.Prelude.{
  ℕ, zero, suc, ◌+◌, ◌≤◌, String, ◌≡◌, refl, eq_iff, eq_refl, Bool, true, false, not, ◌&&◌, ◌||◌,
  List, [], ◌∷◌, ◌==◌, contains, any, length, Option, some, none, length-keep_if, Bool-cases, inl,
  inr, ap, arith, is_some, keep_if,
}
use bastet_agent_os.Workflow.Stage.{StageDef, names}
use bastet_agent_os.Workflow.Ready.{NodeRow}
use bastet_agent_os.Runtime.{push_dependents, descendants_loop, reset_failed_subgraph}

-- Some stage named `a` has `x` among its needs.
abbrev pub is_dependent : List StageDef → String → String → Bool
is_dependent stages x a = any (λ s. s.name == a && contains x s.needs) stages

-- `a` is downstream of `root`, through one need or several.
pub data Downstream (stages : List StageDef) (root : String) : String → Type 0 where
  direct : {a : String} → is_dependent stages root a ≡ true → Downstream stages root a
  through :
      {x a : String}
      → Downstream stages root x
      → is_dependent stages x a ≡ true
      → Downstream stages root a

-- Equal names are in the same lists.
name_swap : (a b : String) (xs : List String) → (a == b) ≡ true → contains a xs ≡ contains b xs
name_swap a b xs e = ap (λ n. contains n xs) ((eq_iff a b).0 e)

eq_sym : (a b : String) → (a == b) ≡ (b == a)
eq_sym a b = ground (arith, eq_iff a b, eq_iff b a)

pub push_dependents-found :
    (x a : String) (stages : List StageDef) (found pending : List String)
    → contains a (push_dependents x stages found pending).0
      ≡ (contains a found || is_dependent stages x a)
unfolding push_dependents
push_dependents-found x a [] found pending = ground (arith)
push_dependents-found x a (s ∷ stages) found pending =
    let rest = push_dependents-found x a stages in
    let swap = name_swap s.name a found in
    elim (Bool-cases (contains x s.needs && not (contains s.name found))) [
      | inl e ↦
          rw (e, push_dependents)
            (ground (arith, rest (s.name ∷ found) (s.name ∷ pending), e, eq_sym a s.name, swap))
      | inr e ↦ rw (e, push_dependents) (ground (arith, rest found pending, e, swap))
    ]

pub push_dependents-pending :
    (x a : String) (stages : List StageDef) (found pending : List String)
    → contains a (push_dependents x stages found pending).1
      ≡ (contains a pending || (is_dependent stages x a && not (contains a found)))
unfolding push_dependents
push_dependents-pending x a [] found pending = ground (arith)
push_dependents-pending x a (s ∷ stages) found pending =
    let rest = push_dependents-pending x a stages in
    let swap = name_swap s.name a found in
    elim (Bool-cases (contains x s.needs && not (contains s.name found))) [
      | inl e ↦
          rw (e, push_dependents)
            (ground (arith, rest (s.name ∷ found) (s.name ∷ pending), e, eq_sym a s.name, swap))
      | inr e ↦ rw (e, push_dependents) (ground (arith, rest found pending, e, swap))
    ]

-- How many stages are not among the found ones.
missing : List String → List StageDef → ℕ
missing found stages = length (keep_if (λ s. not (contains s.name found)) stages)

missing-le :
    (n : String) (found : List String) (stages : List StageDef)
    → missing (n ∷ found) stages ≤ missing found stages
unfolding missing
missing-le n found [] = omega arith
missing-le n found (s ∷ stages) = ground (arith, missing-le n found stages)

missing-lt :
    (n : String) (found : List String) (stages : List StageDef)
    → contains n (names stages) ≡ true
    → contains n found ≡ false
    → suc (missing (n ∷ found) stages) ≤ missing found stages
unfolding missing
missing-lt n found [] m h = let bad : ⊥ = ground (arith, m) in absurd bad
missing-lt n found (s ∷ stages) m h = ground (
  arith,
  m,
  h,
  missing-le n found stages,
  missing-lt n found stages,
  eq_sym n s.name,
  name_swap n s.name found,
)

push_dependents-measure :
    (x : String) (all stages : List StageDef) (found pending : List String)
    → ((n : String) → contains n (names stages) ≡ true → contains n (names all) ≡ true)
    → (length (push_dependents x stages found pending).1
        + missing (push_dependents x stages found pending).0 all)
      ≤ (length pending + missing found all)
unfolding push_dependents
push_dependents-measure x all [] found pending sub = omega arith
push_dependents-measure x all (s ∷ stages) found pending sub =
    let rest = push_dependents-measure x all stages in
    let sub' : (n : String) → contains n (names stages) ≡ true → contains n (names all) ≡ true =
      λ n m. sub n (ground (arith, m)) in
    elim (Bool-cases (contains x s.needs && not (contains s.name found))) [
      | inl e ↦
          rw (e, push_dependents)
            (omega (
              arith,
              rest (s.name ∷ found) (s.name ∷ pending) sub',
              missing-lt s.name found all (sub s.name (ground (arith, eq_refl s.name)))
                  (ground (arith, e)),
            ))
      | inr e ↦ rw (e, push_dependents) (rest found pending sub')
    ]

descendants_loop-total :
    (fuel : ℕ) (stages : List StageDef) (found pending : List String)
    → suc (length pending + missing found stages) ≤ fuel
    → is_some (descendants_loop fuel stages found pending) ≡ true
unfolding descendants_loop
descendants_loop-total zero stages found pending h = let bad : ⊥ = omega (arith, h) in absurd bad
descendants_loop-total (suc fuel) stages found [] h = refl
descendants_loop-total (suc fuel) stages found (x ∷ pending) h =
    descendants_loop-total fuel stages (push_dependents x stages found pending).0
      (push_dependents x stages found pending).1
      (omega (arith, h, push_dependents-measure x stages stages found pending (λ n m. m)))

is_some-eq {ℓ} : {A : Type ℓ} (o : Option A) → is_some o ≡ true → (a : A) × (o ≡ some a)
is_some-eq none h = let bad : ⊥ = cc in absurd bad
is_some-eq (some a) h = (a, refl)

-- With fuel for one round more than the stages and the root, the retry of a stage ends.
pub reset_failed_subgraph-total :
    (fuel : ℕ) (job_id : String) (stages : List StageDef) (root : String) (table : List NodeRow)
    → suc (suc (length stages)) ≤ fuel
    → is_some (reset_failed_subgraph fuel job_id stages root table) ≡ true
unfolding reset_failed_subgraph missing
reset_failed_subgraph-total fuel job_id stages root table h =
    let total = is_some-eq (descendants_loop fuel stages [] (root ∷ [])) (
      descendants_loop-total fuel stages [] (root ∷ [])
        (omega (arith, h, length-keep_if (λ s. not (contains s.name [])) stages))) in
    rw (reset_failed_subgraph, total.1) refl
