-- ===== src/Workflow/Ready/Progress.antt =====
-- workflow.py: `ready_stages` on a template that was accepted.
use mathlib.Core.Path.{subst}
use mathlib.Core.List.{Memᴰ}
use bastet_agent_os.Prelude.{
  String, ◌≡◌, ◌≢◌, ◌⊎◌, inl, inr, sym, refl, eq_refl, Bool, true, false, List, [], ◌∷◌, contains,
  contains-head, Subset, IsNodup, Bool-cases, all, keep_if, ◌==◌, eq_iff, arith, if◌then◌else◌,
}
use bastet_agent_os.Graph.{DependsOn, edge, path, Graph}
use bastet_agent_os.Graph.Acyclic.{IsOrdered}
use bastet_agent_os.Workflow.Stage.{StageDef, names, needs_of}
use bastet_agent_os.Workflow.Parse.Checks.{before, after, readers, isolated}
use bastet_agent_os.Workflow.Parse.WellFormed.{IsWellFormed, contains-names}
use bastet_agent_os.Workflow.Ready.{is_ready, ready_stages}

abbrev Kept : {A : Type 0} → (A → Bool) → A → List A → Type 0
Kept p x xs = Memᴰ x xs × (p x ≡ true)

mem-cons-Kept :
    {A : Type 0} (p : A → Bool) {x y : A} (ys xs : List A)
    → p y ≡ true
    → (Memᴰ x ys → Kept p x xs)
    → Memᴰ x (y ∷ ys)
    → Kept p x (y ∷ xs)
mem-cons-Kept p ys xs e ih (Memᴰ.head q) = (Memᴰ.head q, subst (λ z. p z ≡ true) (sym q) e)
mem-cons-Kept p ys xs e ih (Memᴰ.tail i) = let (j, q) = ih i in (Memᴰ.tail j, q)

pub mem-keep_if :
    {A : Type 0} (p : A → Bool) {x : A} (xs : List A) → Memᴰ x (keep_if p xs) → Kept p x xs
mem-keep_if p [] m = elim m [ ]
mem-keep_if p {x = x} (y ∷ xs) m = elim (Bool-cases (p y)) [
  | inl e ↦
      mem-cons-Kept p (keep_if p xs) xs e (mem-keep_if p xs)
        (subst (λ (b : Bool). Memᴰ x (if b then y ∷ keep_if p xs else keep_if p xs)) e m)
  | inr e ↦
      let (i, q) =
        mem-keep_if p xs
          (subst (λ (b : Bool). Memᴰ x (if b then y ∷ keep_if p xs else keep_if p xs)) e m) in
      (Memᴰ.tail i, q)
]

pub mem-keep_if_of :
    {A : Type 0} (p : A → Bool) {x : A} (xs : List A)
    → Memᴰ x xs
    → p x ≡ true
    → Memᴰ x (keep_if p xs)
mem-keep_if_of p [] m h = elim m [ ]
mem-keep_if_of p {x = x} (y ∷ xs) (Memᴰ.head q) h =
    let e : p y ≡ true = subst (λ z. p z ≡ true) q h in
    subst (λ (b : Bool). Memᴰ x (if b then y ∷ keep_if p xs else keep_if p xs)) (sym e)
      (Memᴰ.head q)
mem-keep_if_of p {x = x} (y ∷ xs) (Memᴰ.tail m) h = elim (Bool-cases (p y)) [
  | inl e ↦
      subst (λ (b : Bool). Memᴰ x (if b then y ∷ keep_if p xs else keep_if p xs)) (sym e)
        (Memᴰ.tail (mem-keep_if_of p xs m h))
  | inr e ↦
      subst (λ (b : Bool). Memᴰ x (if b then y ∷ keep_if p xs else keep_if p xs)) (sym e)
        (mem-keep_if_of p xs m h)
]

-- The graph gives a stage its own needs.
needs_of-mem :
    (s : StageDef) (stages : List StageDef)
    → IsNodup (names stages)
    → Memᴰ s stages
    → needs_of stages s.name ≡ s.needs
needs_of-mem s [] nd m = elim m [ ]
needs_of-mem s (t ∷ stages) nd (Memᴰ.head q) =
    subst (λ (z : StageDef). needs_of (t ∷ stages) z.name ≡ z.needs) (sym q) (rw eq_refl refl)
needs_of-mem s (t ∷ stages) (new, nd) (Memᴰ.tail m) = elim (Bool-cases (t.name == s.name)) [
  | inl e ↦
      let same = (eq_iff t.name s.name).0 e in
      let bad : ⊥ =
        cc (subst (λ n. contains n (names stages) ≡ false) same new, contains-names s stages m) in
      absurd bad
  | inr e ↦ rw e (needs_of-mem s stages nd m)
]

stage_named :
    (n : String) (stages : List StageDef)
    → contains n (names stages) ≡ true
    → (s : StageDef) × Memᴰ s stages × (s.name ≡ n)
stage_named n [] h = let bad : ⊥ = ground (arith, h) in absurd bad
stage_named n (t ∷ stages) h = elim (Bool-cases (n == t.name)) [
  | inl e ↦ (t, Memᴰ.head refl, sym ((eq_iff n t.name).0 e))
  | inr e ↦ let (s, m, q) = stage_named n stages (ground (arith, h)) in (s, Memᴰ.tail m, q)
]

-- All of a list is in a set, or some element is not.
all-or :
    (passed ds : List String)
    → (all (λ d. contains d passed) ds ≡ true)
      ⊎ ((d : String) × (contains d ds ≡ true) × (contains d passed ≡ false))
all-or passed [] = inl refl
all-or passed (d ∷ ds) = elim (Bool-cases (contains d passed)) [
  | inr e ↦ inr (d, contains-head d ds, e)
  | inl e ↦ elim (all-or passed ds) [
    | inl h ↦ inl (ground (arith, e, h))
    | inr (x, m, f) ↦ inr (x, ground (arith, m), f)
  ]
]

-- Following needs down the order, from a stage that has not passed, ends at one that is ready.
ready_below :
    (stages : List StageDef) (passed order : List String) (w : IsWellFormed stages)
    → IsOrdered (needs_of stages) order
    → (s : StageDef) → Memᴰ s stages
    → contains s.name order ≡ true
    → contains s.name passed ≡ false
    → (r : StageDef) × Memᴰ r stages × (is_ready passed [] r ≡ true)
ready_below stages passed [] w o s m h f = let bad : ⊥ = ground (arith, h) in absurd bad
ready_below stages passed (x ∷ order) w (sub, o) s m h f =
    elim (Bool-cases (contains s.name order)) [
      | inl lower ↦ ready_below stages passed order w o s m lower f
      | inr here ↦ elim (all-or passed s.needs) [
        | inl done ↦ (s, m, ground (arith, f, done))
        | inr (d, needed, waits) ↦
            let same : x ≡ s.name = ground (arith, eq_iff s.name x, h) in
            let own = needs_of-mem s stages w.distinct m in
            let edge_d : contains d (needs_of stages s.name) ≡ true = rw own needed in
            let (t, mt, named) =
              stage_named d stages (w.closed s.name (contains-names s stages m) d edge_d) in
            let below : contains t.name order ≡ true =
              rw named
                (sub d (subst (λ n. contains d (needs_of stages n) ≡ true) (sym same) edge_d)) in
            ready_below stages passed order w o t mt below (rw named waits)
      ]
    ]

-- No deadlock: while some stage of an accepted template has not passed and none is active,
-- `ready_stages` returns at least one stage.
pub ready_stages-progress :
    (stages : List StageDef) (passed : List String) (s : StageDef)
    → IsWellFormed stages
    → Memᴰ s stages
    → contains s.name passed ≡ false
    → (r : StageDef) × Memᴰ r (ready_stages stages passed [])
unfolding ready_stages
ready_stages-progress stages passed s w m f =
    let (r, mr, h) =
      ready_below stages passed w.order w w.ordered s m
        (w.covered s.name (contains-names s stages m)) f in
    (r, mem-keep_if_of (is_ready passed []) stages mr h)

-- The sets of passed stages that a run can have: a stage passes only after it was ready.
pub data Reached (stages : List StageDef) : List String → Type 0 where
  start : Reached stages []
  pass :
      {passed : List String} (active : List String) (s : StageDef)
      → Reached stages passed
      → Memᴰ s (ready_stages stages passed active)
      → Reached stages (s.name ∷ passed)

-- With a stage, all that it needs has passed.
abbrev IsDownClosed : Graph → List String → Type 0
IsDownClosed g passed = (x : String) → contains x passed ≡ true → Subset (g x) passed

all-Subset : (passed ds : List String) → all (λ d. contains d passed) ds ≡ true → Subset ds passed
all-Subset passed [] h a m = let bad : ⊥ = ground (arith, m) in absurd bad
all-Subset passed (d ∷ ds) h a m = elim (Bool-cases (a == d)) [
  | inl e ↦ rw ((eq_iff a d).0 e) (ground (arith, h))
  | inr e ↦ all-Subset passed ds (ground (arith, h)) a (ground (arith, m))
]

ready-needs :
    (stages : List StageDef) (passed active : List String) (s : StageDef)
    → IsNodup (names stages)
    → Memᴰ s (ready_stages stages passed active)
    → Memᴰ s stages × (contains s.name passed ≡ false) × Subset (needs_of stages s.name) passed
unfolding ready_stages
ready-needs stages passed active s nd m =
    let (ms, h) = mem-keep_if (is_ready passed active) stages m in
    let own = needs_of-mem s stages nd ms in
    (
      ms,
      ground (arith, h),
      subst (λ ds. Subset ds passed) (sym own) (all-Subset passed s.needs (ground (arith, h))),
    )

Reached-IsDownClosed :
    {stages : List StageDef} {passed : List String}
    → IsWellFormed stages
    → Reached stages passed
    → IsDownClosed (needs_of stages) passed
Reached-IsDownClosed w start x h a k = let bad : ⊥ = ground (arith, h) in absurd bad
Reached-IsDownClosed {stages} w (pass {passed = before_it} active s r m) x h a k =
    elim (Bool-cases (x == s.name)) [
      | inl e ↦
          let (ms, f, sub) = ready-needs stages before_it active s w.distinct m in
          let same = (eq_iff x s.name).0 e in
          ground (arith, sub a (subst (λ n. contains a (needs_of stages n) ≡ true) same k))
      | inr e ↦ ground (arith, Reached-IsDownClosed w r x (ground (arith, h)) a k)
    ]

DependsOn-passed :
    {g : Graph} {x y : String} (passed : List String)
    → IsDownClosed g passed
    → Subset (g x) passed
    → DependsOn g x y
    → contains y passed ≡ true
DependsOn-passed {y = y} passed c s (edge e) = s y e
DependsOn-passed passed c s (path {y = m} {z = z} d e) = c m (DependsOn-passed passed c s d) z e

-- Whatever stages of an accepted template have passed, each after it was ready, two different
-- stages that are ready together are both read only or both work in an isolated workspace.
pub ready_stages-apart :
    (stages : List StageDef) (passed active : List String) (s t : StageDef)
    → IsWellFormed stages
    → Reached stages passed
    → Memᴰ s (ready_stages stages passed active)
    → Memᴰ t (ready_stages stages passed active)
    → s.name ≢ t.name
    → ((s.read_only ≡ true) × (t.read_only ≡ true))
      ⊎ ((s.workspace ≡ "isolated") × (t.workspace ≡ "isolated"))
ready_stages-apart stages passed active s t w r ms mt ne =
    let (is, fs, ss) = ready-needs stages passed active s w.distinct ms in
    let (it, ft, st) = ready-needs stages passed active t w.distinct mt in
    let c = Reached-IsDownClosed w r in
    elim (w.apart s t is it ne) [
      | before d ↦ let bad : ⊥ = cc (fs, DependsOn-passed passed c st d) in absurd bad
      | after d ↦ let bad : ⊥ = cc (ft, DependsOn-passed passed c ss d) in absurd bad
      | readers p q ↦ inl (p, q)
      | isolated p q ↦ inr (p, q)
    ]
