-- ===== src/TaskPlan/Normalize.antt =====
-- project_lifecycle.py: `normalize_task_graph`. A task keeps the keys that the plan's own functions
-- read. A key that is missing, null or empty is the empty text, except for `needs`.
use bastet_agent_os.Prelude.{
  ℕ, suc, ◌+◌, String, Bool, true, false, not, List, [], ◌∷◌, map, Option, none, some, Result, ok,
  err, ◌>>=◌, ◌>>◌, raise_if, for_each, ◌==◌, any, contains, dedup, length, if◌then◌else◌,
}
use bastet_agent_os.Prelude.Text.{strip}
use bastet_agent_os.Graph.{Graph, cycle_at, exhausted, check_cycles}
use bastet_agent_os.TaskPlan.Ids.{task_id, is_task_id}

-- An element of `needs`: a text, or something else.
pub data Dependency : Type 0 where
  name : String → Dependency
  other : Dependency

pub data RawNeeds : Type 0 where
  missing null not_list : RawNeeds
  needs : List Dependency → RawNeeds

-- A task, with its dependencies as they are stored, or as they are normalized.
pub record TaskOf (N : Type 0) : Type 0 where
  pub id : String
  pub title : String
  pub spec : String
  pub role : String
  pub needs : N
  pub job_id : String
  pub origin : String

abbrev pub RawTask : Type 0
RawTask = TaskOf RawNeeds

abbrev pub Task : Type 0
Task = TaskOf (List String)

abbrev pub with_needs : {M N : Type 0} → String → N → TaskOf M → TaskOf N
with_needs id ds t = record {
  id = id;
  title = t.title;
  spec = t.spec;
  role = t.role;
  needs = ds;
  job_id = t.job_id;
  origin = t.origin;
}

-- An element of the list of tasks.
pub data Item : Type 0 where
  object : RawTask → Item
  other_item : Item

pub data PlanError : Type 0 where
  not_an_object : ℕ → PlanError
  invalid_id : ℕ → String → PlanError
  duplicate_id bad_needs unknown_dependencies self_dependency cycle : String → PlanError
  recursion_limit no_free_id project_not_found no_row : PlanError

abbrev pub declares : RawNeeds → Bool
declares missing = false
declares _ = true

abbrev pub has_needs : Item → Bool
has_needs other_item = false
has_needs (object t) = declares t.needs

-- The id of a task, given those that are used.
unfoldable pub id_of : ℕ → List String → RawTask → Result PlanError String
unfolding strip is_task_id task_id
id_of index used t =
    let given = strip t.id in
    if given == ""
    then elim (task_id t.title index used) [ none ↦ err no_free_id | some id ↦ ok id ]
    else if not (is_task_id given)
    then err (invalid_id (index + 1) given)
    else if contains given used
    then err (duplicate_id given)
    else ok given

abbrev pub after_previous : Bool → Option String → List String
after_previous native none = []
after_previous native (some previous) = if native then [] else previous ∷ []

-- `[dep.strip() for dep in needs if dep.strip()]`, or `none` where one is not a text.
unfoldable pub names_of : List Dependency → Option (List String)
unfolding strip
names_of [] = some []
names_of (other ∷ ds) = none
names_of (name d ∷ ds) = elim (names_of ds) [
  | none ↦ none
  | some rest ↦ if strip d == "" then some rest else some (strip d ∷ rest)
]

unfoldable pub needs_for : Bool → Option String → String → RawNeeds → Result PlanError (List String)
unfolding names_of strip
needs_for native previous id missing = elim (names_of (map name (after_previous native previous))) [
  | none ↦ err (bad_needs id)
  | some ds ↦ ok (dedup ds)
]
needs_for native previous id null = elim (names_of (map name (after_previous native previous))) [
  | none ↦ err (bad_needs id)
  | some ds ↦ ok (dedup ds)
]
needs_for native previous id not_list = err (bad_needs id)
needs_for native previous id (needs ds) = elim (names_of ds) [
  | none ↦ err (bad_needs id)
  | some names ↦ ok (dedup names)
]

-- The first loop: the index, the id of the task before, and the ids in use.
unfoldable pub normalize_items :
    Bool → ℕ → Option String → List String → List Item → Result PlanError (List Task)
unfolding id_of needs_for
normalize_items native index previous used [] = ok []
normalize_items native index previous used (other_item ∷ items) = err (not_an_object (index + 1))
normalize_items native index previous used (object t ∷ items) = id_of index used t >>= (λ id.
    needs_for native previous id t.needs >>= (λ ds.
      normalize_items native (index + 1) (some id) (id ∷ used) items
      >>= (λ rest. ok (with_needs id ds t ∷ rest))))

abbrev pub ids : List Task → List String
ids tasks = map (λ t. t.id) tasks

-- The second loop.
unfoldable pub check_references : List String → Task → Result PlanError (Unit {0})
check_references known t =
    raise_if (any (λ d. not (contains d known)) t.needs) (unknown_dependencies t.id)
    >> raise_if (contains t.id t.needs) (self_dependency t.id)

-- `by_id[node_id]["needs"]`
unfoldable pub needs_in : List Task → Graph
needs_in [] id = []
needs_in (t ∷ tasks) id = let rest = needs_in tasks id in if t.id == id then t.needs else rest

unfoldable pub check_graph : List Task → Result PlanError (Unit {0})
unfolding check_cycles needs_in
check_graph tasks = elim (check_cycles (needs_in tasks) (suc (length (ids tasks))) (ids tasks)) [
  | ok visited ↦ ok tt
  | err (cycle_at id) ↦ err (cycle id)
  | err exhausted ↦ err recursion_limit
]

unfoldable pub normalize_task_graph : List Item → Result PlanError (List Task)
unfolding normalize_items check_references check_graph
normalize_task_graph items =
    normalize_items (any has_needs items) 0 none [] items
    >>= (λ tasks. for_each (check_references (ids tasks)) tasks >> (check_graph tasks >> ok tasks))
