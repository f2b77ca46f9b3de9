-- ===== src/TaskPlan/Total.antt =====
-- project_lifecycle.py: the loops of `normalize_task_graph` end.
use mathlib.Core.Path.{subst}
use bastet_agent_os.Prelude.{
  ℕ, suc, ◌+◌, String, ◌≡◌, refl, inl, inr, Bool, true, false, not, List, [], ◌∷◌, Option, none,
  some, Result, Result-cases, ok, err, ◌>>=◌, ◌>>◌, raise_if, for_each, for_each-All, All, dedup,
  ◌==◌, any, contains, Subset, length, Bool-cases, Option-cases, arith,
}
use bastet_agent_os.TaskPlan.FreeId.{task_id-some}
use bastet_agent_os.Prelude.Text.{strip}
use bastet_agent_os.TaskPlan.Normalize.{
  RawTask, Task, Item, object, other_item, PlanError, no_free_id, recursion_limit, invalid_id,
  duplicate_id, bad_needs, not_an_object, unknown_dependencies, self_dependency, cycle, RawNeeds,
  missing, null, not_list, needs, names_of, id_of, needs_for, with_needs, normalize_items, ids,
  check_references, check_graph, needs_in, normalize_task_graph, has_needs,
}
use bastet_agent_os.Graph.{cycle_at, exhausted, check_cycles}
use bastet_agent_os.Graph.Fuel.{check_cycles-fuel}
use bastet_agent_os.TaskPlan.WellFormed.{AreKnown, references_known}
use bastet_agent_os.TaskPlan.Ids.{task_id, is_task_id}

-- The errors that are the model's own.
abbrev pub is_exhausted : PlanError → Bool
is_exhausted no_free_id = true
is_exhausted recursion_limit = true
is_exhausted _ = false

-- A call raises only what the code raises.
record Ends {A : Type 0} (m : Result PlanError A) : Type 0 where
  pub at : (e : PlanError) → m ≡ err e → is_exhausted e ≡ false

Ends-ok : {A : Type 0} (a : A) → Ends (ok a)
Ends-ok a = record { at = λ e h. let bad : ⊥ = cc in absurd bad }

Ends-err : {A : Type 0} (x : PlanError) → is_exhausted x ≡ false → Ends {A = A} (err x)
Ends-err x p = record {
  at = λ e h. let same : x ≡ e = cc in subst (λ y. is_exhausted y ≡ false) same p;
}

Ends-bind :
    {A B : Type 0} (m : Result PlanError A) (f : A → Result PlanError B)
    → Ends m
    → ((a : A) → m ≡ ok a → Ends (f a))
    → Ends (m >>= f)
Ends-bind (ok a) f p q = q a refl
Ends-bind (err x) f p q = Ends-err x (p.at x refl)

Ends-raise_if : (b : Bool) (x : PlanError) → is_exhausted x ≡ false → Ends (raise_if b x)
Ends-raise_if true x p = Ends-err x p
Ends-raise_if false x p = Ends-ok tt

Ends-after :
    {A B : Type 0} (m : Result PlanError A) (k : Result PlanError B)
    → Ends m
    → ((a : A) → m ≡ ok a → Ends k)
    → Ends (m >> k)
Ends-after (ok a) k p q = q a refl
Ends-after (err x) k p q = Ends-err x (p.at x refl)

Ends-for_each :
    (f : Task → Result PlanError (Unit {0})) (ts : List Task)
    → ((t : Task) → Ends (f t))
    → Ends (for_each f ts)
Ends-for_each f [] p = Ends-ok tt
Ends-for_each f (t ∷ ts) p = Ends-after (f t) _ (p t) (λ _ _. Ends-for_each f ts p)

id_of-Ends : (index : ℕ) (used : List String) (t : RawTask) → Ends (id_of index used t)
unfolding id_of
id_of-Ends index used t = elim (Bool-cases (strip t.id == "")) [
  | inl b ↦ elim (Option-cases (task_id t.title index used)) [
    | inl n ↦ absurd (task_id-some t.title index used n)
    | inr (x, n) ↦ simp (id_of, b, n) (Ends-ok x)
  ]
  | inr b ↦ elim (Bool-cases (is_task_id (strip t.id))) [
    | inr i ↦ simp (id_of, b, i) (Ends-err (invalid_id (index + 1) (strip t.id)) refl)
    | inl i ↦ elim (Bool-cases (contains (strip t.id) used)) [
      | inl c ↦ simp (id_of, b, i, c) (Ends-err (duplicate_id (strip t.id)) refl)
      | inr c ↦ simp (id_of, b, i, c) (Ends-ok (strip t.id))
    ]
  ]
]

names-Ends :
    (id : String) (names : Option (List String))
    → Ends {A = List String} (elim names [ none ↦ err (bad_needs id) | some ns ↦ ok (dedup ns) ])
names-Ends id none = Ends-err (bad_needs id) refl
names-Ends id (some ns) = Ends-ok (dedup ns)

needs_for-Ends :
    (native : Bool) (previous : Option String) (id : String) (raw : RawNeeds)
    → Ends (needs_for native previous id raw)
unfolding needs_for
needs_for-Ends native previous id missing = names-Ends id _
needs_for-Ends native previous id null = names-Ends id _
needs_for-Ends native previous id not_list = Ends-err (bad_needs id) refl
needs_for-Ends native previous id (needs ds) = names-Ends id (names_of ds)

normalize_items-Ends :
    (native : Bool) (index : ℕ) (previous : Option String) (used : List String) (items : List Item)
    → Ends (normalize_items native index previous used items)
unfolding normalize_items
normalize_items-Ends native index previous used [] = Ends-ok []
normalize_items-Ends native index previous used (other_item ∷ items) =
    Ends-err (not_an_object (index + 1)) refl
normalize_items-Ends native index previous used (object t ∷ items) =
    Ends-bind (id_of index used t) _ (id_of-Ends index used t) (λ id _.
      Ends-bind (needs_for native previous id t.needs) _ (needs_for-Ends native previous id t.needs)
        (λ ds _.
          Ends-bind _ _ (normalize_items-Ends native (index + 1) (some id) (id ∷ used) items)
            (λ rest _. Ends-ok (with_needs id ds t ∷ rest))))

needs_in-known :
    (tasks some_tasks : List Task)
    → All (AreKnown tasks) some_tasks
    → (x : String) → Subset (needs_in some_tasks x) (ids tasks)
unfolding needs_in
needs_in-known tasks [] k x d c = let bad : ⊥ = ground arith in absurd bad
needs_in-known tasks (t ∷ ts) (k, ks) x d c = elim (Bool-cases (t.id == x)) [
  | inl e ↦ k d (simp e at c)
  | inr e ↦ needs_in-known tasks ts ks x d (simp e at c)
]

check_graph-Ends : (tasks : List Task) → All (AreKnown tasks) tasks → Ends (check_graph tasks)
unfolding check_graph
check_graph-Ends tasks k =
    elim (Result-cases (check_cycles (needs_in tasks) (suc (length (ids tasks))) (ids tasks))) [
      | inl (v, e) ↦ simp (check_graph, e) (Ends-ok tt)
      | inr (cycle_at id, e) ↦ simp (check_graph, e) (Ends-err (cycle id) refl)
      | inr (exhausted, e) ↦ absurd (
          check_cycles-fuel (needs_in tasks) (suc (length (ids tasks))) (ids tasks)
            (λ x _. needs_in-known tasks tasks k x) (omega arith) e)
    ]

references-Ends : (known : List String) (t : Task) → Ends (check_references known t)
unfolding check_references
references-Ends known t =
    let unknown = any (λ d. not (contains d known)) t.needs in
    let self = contains t.id t.needs in
    Ends-after (raise_if unknown (unknown_dependencies t.id)) (raise_if self (self_dependency t.id))
      (Ends-raise_if unknown (unknown_dependencies t.id) refl)
      (λ _ _. Ends-raise_if self (self_dependency t.id) refl)

-- `normalize_task_graph` returns a list or raises one of the errors that the code raises: the search
-- for a free id always finds one, and the visit of the graph never goes deeper than it has tasks.
pub normalize_task_graph-ends :
    (items : List Item) (e : PlanError)
    → normalize_task_graph items ≡ err e
    → is_exhausted e ≡ false
unfolding normalize_task_graph
normalize_task_graph-ends items =
    (Ends-bind (normalize_items (any has_needs items) 0 none [] items) _
      (normalize_items-Ends (any has_needs items) 0 none [] items)
      (λ tasks _.
        Ends-after (for_each (check_references (ids tasks)) tasks) _
          (Ends-for_each (check_references (ids tasks)) tasks (references-Ends (ids tasks)))
          (λ _ r.
            Ends-after (check_graph tasks) _
              (check_graph-Ends tasks (
                references_known tasks tasks (for_each-All (check_references (ids tasks)) tasks r)))
              (λ _ _. Ends-ok tasks)))).at
