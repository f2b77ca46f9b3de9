-- ===== src/TaskPlan/WellFormed.antt =====
-- project_lifecycle.py: the task graphs that `normalize_task_graph` accepts.
use mathlib.Core.Path.{subst}
use bastet_agent_os.Prelude.{
  ℕ, zero, suc, ◌+◌, String, ◌≡◌, refl, sym, inl, inr, eq_iff, Bool, true, false, not, List, [],
  ◌∷◌, Option, none, some, Result, Result-cases, ok, err, >>=-eq-ok, >>-eq-ok, raise_if,
  raise_if-eq-ok, for_each, for_each-All, ◌==◌, any, contains, contains-head, IsNodup, All,
  Bool-cases, Option-cases, arith, length,
}
use bastet_agent_os.Prelude.Text.{strip}
use bastet_agent_os.Graph.{DependsOn, VisitError, cycle_at, exhausted, check_cycles}
use bastet_agent_os.Graph.Acyclic.{check_cycles_sound}
use bastet_agent_os.TaskPlan.Ids.{pick, task_id, base_of, suffixed, is_task_id}
use bastet_agent_os.TaskPlan.Normalize.{
  RawTask, Task, Item, unknown_dependencies, self_dependency, cycle, recursion_limit, object,
  other_item, PlanError, id_of, needs_for, with_needs, has_needs, normalize_items, ids,
  check_references, needs_in, check_graph, normalize_task_graph,
}

pick-fresh :
    (fuel : ℕ) (base : String) (suffix : ℕ) (candidate : String) (used : List String) (id : String)
    → pick fuel base suffix candidate used ≡ some id
    → contains id used ≡ false
unfolding pick
pick-fresh zero base suffix candidate used id h = let bad : ⊥ = cc in absurd bad
pick-fresh (suc fuel) base suffix candidate used id h =
    elim (Bool-cases (contains candidate used)) [
      | inl e ↦ pick-fresh fuel base (suffix + 1) (suffixed base suffix) used id (simp e at h)
      | inr e ↦
          let same : candidate ≡ id = cc (simp e at h) in
          subst (λ x. contains x used ≡ false) same e
    ]

id_of-fresh :
    (index : ℕ) (used : List String) (t : RawTask) (id : String)
    → id_of index used t ≡ ok id
    → contains id used ≡ false
unfolding id_of task_id
id_of-fresh index used t id h = elim (Bool-cases (strip t.id == "")) [
  | inl e ↦ elim (Option-cases (task_id t.title index used)) [
    | inl n ↦ let bad : ⊥ = cc (simp (id_of, e, n) at h) in absurd bad
    | inr (x, n) ↦
        let same : x ≡ id = cc (simp (id_of, e, n) at h) in
        subst (λ y. contains y used ≡ false) same
          (pick-fresh (suc (suc (length used))) (base_of t.title index) 2 (base_of t.title index)
            used x n)
  ]
  | inr e ↦ elim (Bool-cases (is_task_id (strip t.id))) [
    | inr i ↦ let bad : ⊥ = cc (simp (id_of, e, i) at h) in absurd bad
    | inl i ↦ elim (Bool-cases (contains (strip t.id) used)) [
      | inl c ↦ let bad : ⊥ = cc (simp (id_of, e, i, c) at h) in absurd bad
      | inr c ↦
          let same : strip t.id ≡ id = cc (simp (id_of, e, i, c) at h) in
          subst (λ y. contains y used ≡ false) same c
    ]
  ]
]

-- The ids are distinct, and none of those in use.
pub record AreFresh (used : List String) (tasks : List Task) : Type 0 where
  pub distinct : IsNodup (ids tasks)
  pub unused : (id : String) → contains id used ≡ true → contains id (ids tasks) ≡ false

add_fresh :
    (used : List String) (id : String) (ds : List String) (t : RawTask) (rest : List Task)
    → contains id used ≡ false
    → AreFresh (id ∷ used) rest
    → AreFresh used (with_needs id ds t ∷ rest)
add_fresh used id ds t rest n fresh = record {
  distinct = (fresh.unused id (contains-head id used), fresh.distinct);
  unused = λ x c. elim (Bool-cases (x == id)) [
    | inl e ↦
        let same : x ≡ id = (eq_iff x id).0 e in
        let here : contains id used ≡ true = subst (λ y. contains y used ≡ true) same c in
        let bad : ⊥ = cc (here, n) in absurd bad
    | inr e ↦ ground (arith, e, fresh.unused x (ground (arith, c)))
  ];
}

pub normalize_items-AreFresh :
    (native : Bool) (index : ℕ) (previous : Option String) (used : List String) (items : List Item)
    (tasks : List Task)
    → normalize_items native index previous used items ≡ ok tasks
    → AreFresh used tasks
unfolding normalize_items
normalize_items-AreFresh native index previous used [] tasks h =
    let same : ◌≡◌ {A = List Task} [] tasks = cc in
    subst (AreFresh used) same (record { distinct = tt; unused = λ id c. refl })
normalize_items-AreFresh native index previous used (other_item ∷ items) tasks h =
    let bad : ⊥ = cc in absurd bad
normalize_items-AreFresh native index previous used (object t ∷ items) tasks h =
    let (id, e, h1) = >>=-eq-ok (id_of index used t) _ h in
    let (ds, d, h2) = >>=-eq-ok (needs_for native previous id t.needs) _ h1 in
    let (rest, r, h3) =
      >>=-eq-ok (normalize_items native (index + 1) (some id) (id ∷ used) items) _ h2 in
    let fresh = normalize_items-AreFresh native (index + 1) (some id) (id ∷ used) items rest r in
    let same : with_needs id ds t ∷ rest ≡ tasks = cc in
    subst (AreFresh used) same (add_fresh used id ds t rest (id_of-fresh index used t id e) fresh)

abbrev pub AreKnown : List Task → Task → Type 0
AreKnown tasks t = (d : String) → contains d t.needs ≡ true → contains d (ids tasks) ≡ true

-- What a task graph is: the ids are distinct, the dependencies are ids, and no task depends on itself.
pub record IsTaskGraph (tasks : List Task) : Type 0 where
  pub distinct : IsNodup (ids tasks)
  pub known : All (AreKnown tasks) tasks
  pub no_self : All (λ t. contains t.id t.needs ≡ false) tasks
  pub acyclic : (id : String) → contains id (ids tasks) ≡ true → ¬ DependsOn (needs_in tasks) id id

pub all_known :
    (known ds : List String)
    → any (λ d. not (contains d known)) ds ≡ false
    → (d : String) → contains d ds ≡ true
    → contains d known ≡ true
all_known known [] h d c = let bad : ⊥ = ground arith in absurd bad
all_known known (x ∷ ds) h d c = elim (Bool-cases (d == x)) [
  | inl e ↦ subst (λ y. contains y known ≡ true) (sym ((eq_iff d x).0 e)) (ground (arith, h))
  | inr e ↦ all_known known ds (ground (arith, h)) d (ground (arith, e, c))
]

pub references_known :
    (tasks some_tasks : List Task)
    → All (λ t. check_references (ids tasks) t ≡ ok tt) some_tasks
    → All (AreKnown tasks) some_tasks
unfolding check_references
references_known tasks [] h = tt
references_known tasks (t ∷ ts) (c, h) =
    let ((_, e), _) =
      >>-eq-ok
        (raise_if (any (λ d. not (contains d (ids tasks))) t.needs) (unknown_dependencies t.id)) _
        c in
    (
      all_known (ids tasks) t.needs (raise_if-eq-ok _ (unknown_dependencies t.id) e),
      references_known tasks ts h,
    )

references-no_self :
    (tasks some_tasks : List Task)
    → All (λ t. check_references (ids tasks) t ≡ ok tt) some_tasks
    → All (λ t. contains t.id t.needs ≡ false) some_tasks
unfolding check_references
references-no_self tasks [] h = tt
references-no_self tasks (t ∷ ts) (c, h) =
    let (_, e) =
      >>-eq-ok
        (raise_if (any (λ d. not (contains d (ids tasks))) t.needs) (unknown_dependencies t.id)) _
        c in
    (raise_if-eq-ok _ (self_dependency t.id) e, references-no_self tasks ts h)

check_graph-acyclic :
    (tasks : List Task)
    → check_graph tasks ≡ ok tt
    → (id : String) → contains id (ids tasks) ≡ true
    → ¬ DependsOn (needs_in tasks) id id
unfolding check_graph
check_graph-acyclic tasks h =
    elim (Result-cases (check_cycles (needs_in tasks) (suc (length (ids tasks))) (ids tasks))) [
      | inl (v, e) ↦
          (check_cycles_sound (needs_in tasks) (suc (length (ids tasks))) (ids tasks) v e).2
      | inr (x, e) ↦ absurd (failed x (simp (check_graph, e) at h))
    ]
  where
    failed :
        (x : VisitError)
        → ◌≡◌ {A = Result PlanError (Unit {0})}
            (elim x [ cycle_at id ↦ err (cycle id) | exhausted ↦ err recursion_limit ])
            (ok tt)
        → ⊥
    failed (cycle_at id) q = cc
    failed exhausted q = cc

-- Every list that `normalize_task_graph` returns is a task graph.
pub normalize_task_graph-IsTaskGraph :
    (items : List Item) (tasks : List Task)
    → normalize_task_graph items ≡ ok tasks
    → IsTaskGraph tasks
unfolding normalize_task_graph
normalize_task_graph-IsTaskGraph items tasks h =
    let (ts, n, h1) = >>=-eq-ok (normalize_items (any has_needs items) 0 none [] items) _ h in
    let ((_, r), h2) = >>-eq-ok (for_each (check_references (ids ts)) ts) _ h1 in
    let ((_, g), h3) = >>-eq-ok (check_graph ts) _ h2 in
    let same : ts ≡ tasks = cc in
    subst IsTaskGraph same (record {
      distinct = (normalize_items-AreFresh (any has_needs items) 0 none [] items ts n).distinct;
      no_self = references-no_self ts ts (for_each-All (check_references (ids ts)) ts r);
      known = references_known ts ts (for_each-All (check_references (ids ts)) ts r);
      acyclic = check_graph-acyclic ts g;
    })
