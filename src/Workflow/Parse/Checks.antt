-- ===== src/Workflow/Parse/Checks.antt =====
-- workflow.py: each check of the whole graph in `parse_stages`, where it raises nothing.
use mathlib.Core.Path.{subst}
use bastet_agent_os.Prelude.{
  suc, ◌+◌, String, ◌≡◌, ◌⊎◌, ◌↔◌, inl, inr, sym, true, false, not, ◌&&◌, List, [], ◌∷◌, ok,
  for_each-All, Result-cases, contains, contains-head, Subset, Bool-cases, All, any, length, eq_iff,
  ◌==◌, arith,
}
use bastet_agent_os.Graph.{DependsOn, check_cycles}
use bastet_agent_os.Graph.Acyclic.{IsOrdered, check_cycles_sound}
use bastet_agent_os.Graph.Fuel.{IsClosed}
use bastet_agent_os.Graph.Ancestry.{ancestors_iff}
use bastet_agent_os.Graph.Rounds.{edges, ancestors-total}
use bastet_agent_os.Workflow.Stage.{StageDef, names, needs_of, ancestry}
use bastet_agent_os.Workflow.Parse.{
  check_references, check_sink, check_graph, check_artifact, check_artifacts, check_pair, producers,
}

-- The stage's rework target and its dependencies are stages, and it does not need itself.
pub record Refers (known : List String) (s : StageDef) : Type 0 where
  pub target : ((s.rework_target == "") ≡ true) ⊎ (contains s.rework_target known ≡ true)
  pub needs_known : Subset s.needs known
  pub not_itself : contains s.name s.needs ≡ false

-- `any(d not in known for d in ds)` is false only if all are known.
all_known :
    (known ds : List String) → any (λ d. not (contains d known)) ds ≡ false → Subset ds known
all_known known [] h a m = let bad : ⊥ = ground (arith, m) in absurd bad
all_known known (d ∷ ds) h a m = elim (Bool-cases (a == d)) [
  | inl e ↦ ground (arith, eq_iff a d, h)
  | inr e ↦ all_known known ds (ground (arith, h)) a (ground (arith, m))
]

pub check_references-Refers :
    (known : List String) (s : StageDef) → check_references known s ≡ ok tt → Refers known s
unfolding check_references
check_references-Refers known s h =
    let e : any (λ d. not (contains d known)) s.needs ≡ false = ground arith in
    record {
      target = ground arith;
      needs_known = all_known known s.needs e;
      not_itself = ground arith;
    }

-- In the graph of the stages every need is a stage.
pub needs_of-IsClosed :
    (known : List String) (stages : List StageDef)
    → All (Refers known) stages
    → IsClosed (needs_of stages) known
needs_of-IsClosed known [] a x h y m = let bad : ⊥ = ground (arith, m) in absurd bad
needs_of-IsClosed known (s ∷ stages) (r, a) x h y m = elim (Bool-cases (s.name == x)) [
  | inl e ↦ r.needs_known y (ground (arith, m))
  | inr e ↦ needs_of-IsClosed known stages a x h y (ground (arith, m))
]

-- On a closed graph `ancestry` lists what the stage depends on, directly or through others.
pub ancestry_iff :
    (stages : List StageDef) (x y : String)
    → IsClosed (needs_of stages) (names stages)
    → contains x (names stages) ≡ true
    → (contains y (ancestry stages x) ≡ true) ↔ DependsOn (needs_of stages) x y
unfolding ancestry
ancestry_iff stages x y c h =
    let g = needs_of stages in
    let fuel = suc (length (g x) + edges g (names stages)) in
    let (found, e) = ancestors-total g (names stages) x fuel c (c x h) (omega arith) in
    let same : ancestry stages x ≡ found = ground (arith, e) in
    subst (λ v. (contains y v ≡ true) ↔ DependsOn g x y) (sym same)
      (ancestors_iff g fuel x found y e)

pub check_graph-acyclic :
    (stages : List StageDef)
    → check_graph stages ≡ ok tt
    → (order : List String) × IsOrdered (needs_of stages) order × Subset (names stages) order
unfolding check_graph
check_graph-acyclic stages h =
    elim (Result-cases
      (check_cycles (needs_of stages) (suc (length (names stages))) (names stages))) [
        | inl (order, e) ↦
            let all =
              check_cycles_sound (needs_of stages) (suc (length (names stages))) (names stages)
                order e in
            (order, all.0, all.1)
        | inr (e, p) ↦ let bad : ⊥ = ground (arith, p) in absurd bad
      ]

-- A stage that consumes an artifact depends on one that produces it.
abbrev pub Supplied : List StageDef → StageDef → Type 0
Supplied stages s =
    (a : String)
    → contains a s.consumes ≡ true
    → (p : String) × (contains p (producers a stages) ≡ true) × DependsOn (needs_of stages) s.name p

common :
    (before candidates : List String)
    → any (λ c. contains c before) candidates ≡ true
    → (p : String) × (contains p candidates ≡ true) × (contains p before ≡ true)
common before [] h = let bad : ⊥ = ground arith in absurd bad
common before (c ∷ cs) h = elim (Bool-cases (contains c before)) [
  | inl e ↦ (c, contains-head c cs, e)
  | inr e ↦ let (p, m, k) = common before cs (ground (arith, h)) in (p, ground (arith, m), k)
]

check_artifact-common :
    (stages : List StageDef) (s : StageDef) (a : String)
    → check_artifact stages s a ≡ ok tt
    → any (λ c. contains c (ancestry stages s.name)) (producers a stages) ≡ true
unfolding check_artifact
check_artifact-common stages s a h = ground arith

All-contains :
    (P : String → Type 0) (xs : List String) (a : String) → All P xs → contains a xs ≡ true → P a
All-contains P [] a h m = let bad : ⊥ = ground (arith, m) in absurd bad
All-contains P (x ∷ xs) a (p, h) m = elim (Bool-cases (a == x)) [
  | inl e ↦ subst P (sym ((eq_iff a x).0 e)) p
  | inr e ↦ All-contains P xs a h (ground (arith, m))
]

pub check_artifacts-Supplied :
    (stages : List StageDef) (s : StageDef)
    → IsClosed (needs_of stages) (names stages)
    → contains s.name (names stages) ≡ true
    → check_artifacts stages s ≡ ok tt
    → Supplied stages s
unfolding check_artifacts
check_artifacts-Supplied stages s c m h a consumed =
    let e =
      All-contains (λ x. check_artifact stages s x ≡ ok tt) s.consumes a
        (for_each-All (check_artifact stages s) s.consumes h) consumed in
    let (p, made, before) =
      common (ancestry stages s.name) (producers a stages) (check_artifact-common stages s a e) in
    (p, made, (ancestry_iff stages s.name p c m).0 before)

-- Two stages that may run at once do not write to one checkout.
pub data Apart (stages : List StageDef) (s t : StageDef) : Type 0 where
  before : DependsOn (needs_of stages) t.name s.name → Apart stages s t
  after : DependsOn (needs_of stages) s.name t.name → Apart stages s t
  readers : s.read_only ≡ true → t.read_only ≡ true → Apart stages s t
  isolated : s.workspace ≡ "isolated" → t.workspace ≡ "isolated" → Apart stages s t

pub check_pair-Apart :
    (stages : List StageDef) (s t : StageDef)
    → IsClosed (needs_of stages) (names stages)
    → contains s.name (names stages) ≡ true
    → contains t.name (names stages) ≡ true
    → check_pair stages s t ≡ ok tt
    → Apart stages s t
unfolding check_pair
check_pair-Apart stages s t c ms mt h =
    elim (Bool-cases (contains s.name (ancestry stages t.name))) [
      | inl e ↦ before ((ancestry_iff stages t.name s.name c mt).0 e)
      | inr e ↦ elim (Bool-cases (contains t.name (ancestry stages s.name))) [
        | inl f ↦ after ((ancestry_iff stages s.name t.name c ms).0 f)
        | inr f ↦ elim (Bool-cases (s.read_only && t.read_only)) [
          | inl r ↦ readers (ground (arith, r)) (ground (arith, r))
          | inr r ↦
              isolated (ground (arith, eq_iff s.workspace "isolated"))
                (ground (arith, eq_iff t.workspace "isolated"))
        ]
      ]
    ]

-- A stage that declares delivery modes is needed by no stage.
abbrev pub IsSinkOrPlain : List StageDef → StageDef → Type 0
IsSinkOrPlain stages s =
    (s.delivery_modes ≡ []) ⊎ (any (λ t. contains s.name t.needs) stages ≡ false)

pub check_sink-IsSinkOrPlain :
    (stages : List StageDef) (s : StageDef) → check_sink stages s ≡ ok tt → IsSinkOrPlain stages s
unfolding check_sink
check_sink-IsSinkOrPlain stages s h = ground arith
