-- ===== src/TaskPlan.antt =====
-- project_lifecycle.py: the task plan that is stored on a project, its jobs and its receipts.
pub mod Ids
pub mod Normalize
pub mod WellFormed
pub mod Again
pub mod RoundTrip
pub mod FreeId
pub mod Total
pub mod Removal
mod Tests
use bastet_agent_os.Prelude.{
  ℕ, zero, suc, ◌+◌, String, Bool, true, false, not, ◌&&◌, ◌||◌, List, [], ◌∷◌, ◌++◌, map, Option,
  none, some, Result, ok, err, ◌>>=◌, ◌==◌, any, contains, find_first, keep_if, length, is_some,
  if◌then◌else◌,
}
use bastet_agent_os.Prelude.Text.{strip, nonempty}
use bastet_agent_os.TaskPlan.Ids.{first_chars}
use bastet_agent_os.TaskPlan.Normalize.{
  TaskOf, RawNeeds, missing, needs, name, RawTask, Task, with_needs, Item, object, PlanError,
  project_not_found, no_row, normalize_task_graph,
}

-- `config["task_plan"]`; the source has the two keys that make the plan's key.
pub record Source : Type 0 where
  pub planning_round_id : String
  pub round_id : String

pub record Plan : Type 0 where
  pub tasks : List RawTask
  pub at : String
  pub by : String
  pub confirmed : Bool
  pub source : Source

pub record Project : Type 0 where
  pub id : String
  pub plan : Plan

-- A row of `project_task_dispatches`.
pub record Receipt : Type 0 where
  pub project_id : String
  pub plan_key : String
  pub task_id : String
  pub job_id : String

-- A row of `jobs`, in the order in which they were created.
pub record Job : Type 0 where
  pub id : String
  pub project_id : String
  pub title : String
  pub spec : String

pub record Db : Type 0 where
  pub projects : List Project
  pub receipts : List Receipt
  pub jobs : List Job
  pub cleared : List (String × ℕ × ℕ)

abbrev or_else : String → String → String
or_else a b = if a == "" then b else a

-- `_plan_key`
unfoldable pub plan_key : Plan → String
plan_key plan = or_else plan.source.planning_round_id (or_else plan.source.round_id plan.at)

-- `receipts[task_id]`, of which the last row counts.
unfoldable pub receipt_for : String → String → String → List Receipt → Option String
receipt_for project_id key task_id [] = none
receipt_for project_id key task_id (r ∷ receipts) =
    let rest = receipt_for project_id key task_id receipts in
    elim rest [
      | some job ↦ some job
      | none ↦
          if r.project_id == project_id && r.plan_key == key && r.task_id == task_id
          then some r.job_id
          else none
    ]

abbrev pub with_job : {N : Type 0} → String → String → TaskOf N → TaskOf N
with_job job_id origin t = record t { job_id = job_id; origin = or_else t.origin origin }

abbrev received : String → String → List Receipt → RawTask → RawTask
received project_id key receipts t = elim (receipt_for project_id key t.id receipts) [
  | none ↦ t
  | some job ↦ with_job job "runner" t
]

unfoldable pub find_plan : String → List Project → Option Plan
find_plan project_id [] = none
find_plan project_id (p ∷ projects) =
    let rest = find_plan project_id projects in if p.id == project_id then some p.plan else rest

-- `task_plan`: the stored plan, with the jobs of its receipts.
unfoldable pub task_plan : String → Db → Result PlanError Plan
unfolding find_plan plan_key receipt_for
task_plan project_id db = elim (find_plan project_id db.projects) [
  | none ↦ err project_not_found
  | some plan ↦
      if plan_key plan == ""
      then ok plan
      else ok
          (record plan { tasks = map (received project_id (plan_key plan) db.receipts) plan.tasks })
]

-- A normalized task, as it is stored.
abbrev pub stored : Task → RawTask
stored t = with_needs t.id (needs (map name t.needs)) t

abbrev set_plan : String → Plan → Project → Project
set_plan project_id plan p = if p.id == project_id then record p { plan = plan } else p

-- `save_task_plan`, at the clock's reading.
unfoldable pub save_task_plan :
    String → String → List RawTask → String → Bool → Option Source → Db → Result PlanError Db
unfolding find_plan normalize_task_graph
save_task_plan now project_id tasks by confirmed source db =
    elim (find_plan project_id db.projects) [
      | none ↦ err no_row
      | some previous ↦ normalize_task_graph (map object tasks) >>= (λ normalized. ok (record db {
        projects =
            map
              (set_plan project_id (record {
                tasks = map stored normalized;
                at = now;
                by = by;
                confirmed = confirmed;
                source = elim source [ none ↦ previous.source | some s ↦ s ];
              }))
              db.projects;
      }))
    ]

abbrev pub no_source : Source
no_source = record { planning_round_id = ""; round_id = "" }

abbrev pub has_job : {N : Type 0} → TaskOf N → Bool
has_job t = nonempty t.job_id

-- What `clear_undispatched` does with the tasks that stay and the number of those that go.
unfoldable pub clear_rows :
    String → String → Plan → List RawTask → ℕ → Db → Result PlanError (ℕ × Db)
unfolding save_task_plan
clear_rows now project_id plan kept zero db = ok (0, db)
clear_rows now project_id plan kept (suc n) db =
    save_task_plan now project_id kept plan.by plan.confirmed (some no_source) db >>= (λ after.
      ok (suc n, record after { cleared = (project_id, suc n, length kept) ∷ after.cleared }))

-- `clear_undispatched`: the number of tasks that are dropped.
unfoldable pub clear_undispatched : String → String → Db → Result PlanError (ℕ × Db)
unfolding task_plan clear_rows
clear_undispatched now project_id db = task_plan project_id db >>= (λ plan.
    clear_rows now project_id plan (keep_if has_job plan.tasks)
      (length (keep_if (λ t. not (has_job t)) plan.tasks)) db)

-- The loop of `link_job`: the row of the title gets the job, if there is one without a job.
unfoldable pub give_job : String → String → String → List RawTask → Option (List RawTask)
unfolding strip
give_job job_id wanted origin [] = none
give_job job_id wanted origin (t ∷ tasks) =
    let rest = give_job job_id wanted origin tasks in
    if not (has_job t) && nonempty wanted && strip t.title == wanted
    then some (with_job job_id origin t ∷ tasks)
    else elim rest [ none ↦ none | some ts ↦ some (t ∷ ts) ]

unfoldable new_task : String → String → String → String → RawTask
unfolding first_chars
new_task title spec job_id origin = record {
  id = "";
  title = or_else title job_id;
  spec = first_chars 4000 spec;
  role = "";
  needs = missing;
  job_id = job_id;
  origin = origin;
}

-- `link_job`. The ids of jobs are not empty.
unfoldable pub link_job :
    String → String → String → String → String → String → Db → Result PlanError (ℕ × Db)
unfolding task_plan save_task_plan give_job strip new_task
link_job now project_id job_id title spec origin db = task_plan project_id db >>= (λ plan.
    if any (λ t. t.job_id == job_id) plan.tasks
    then ok (length plan.tasks, db)
    else (let tasks : List RawTask = elim (give_job job_id (strip title) origin plan.tasks) [
      | some linked ↦ linked
      | none ↦ plan.tasks ++ new_task (strip title) spec job_id origin ∷ []
    ] in
        save_task_plan now project_id tasks plan.by plan.confirmed none db
        >>= (λ after. ok (length tasks, after))))

pub data Outcome : Type 0 where
  absent row_removed unlinked : Outcome

abbrev own_row : RawTask → Bool
own_row t = contains t.origin ("chat" ∷ "dispatch" ∷ "runner" ∷ [])

-- The loop of `unlink_job`: the rows that stay, and the outcome of the last row that the job has.
unfoldable pub without_job : String → Outcome → List RawTask → List RawTask × Outcome
without_job job_id outcome [] = ([], outcome)
without_job job_id outcome (t ∷ tasks) =
    let (kept, same) = without_job job_id outcome tasks in
    let (removed, gone) = without_job job_id row_removed tasks in
    let (rest, last) = without_job job_id unlinked tasks in
    if not (t.job_id == job_id)
    then (t ∷ kept, same)
    else if own_row t
    then (removed, gone)
    else (record t { job_id = ""; origin = "" } ∷ rest, last)

unfoldable pub unlink_job : String → String → String → Db → Result PlanError (Outcome × Db)
unfolding task_plan save_task_plan without_job
unlink_job now project_id job_id db = task_plan project_id db >>= (λ plan.
    elim (without_job job_id absent plan.tasks).1 [
      | absent ↦ ok (absent, db)
      | row_removed ↦
          save_task_plan now project_id (without_job job_id absent plan.tasks).0 plan.by
            plan.confirmed none db
          >>= (λ after. ok (row_removed, after))
      | unlinked ↦
          save_task_plan now project_id (without_job job_id absent plan.tasks).0 plan.by
            plan.confirmed none db
          >>= (λ after. ok (unlinked, after))
    ])

-- The loop of `reconcile`: the jobs of the project that are not on its plan are put on it; the number
-- of those, and the tables.
unfoldable pub link_missing : String → String → List Job → Db → Result PlanError (ℕ × Db)
unfolding task_plan link_job
link_missing now project_id [] db = ok (0, db)
link_missing now project_id (j ∷ jobs) db =
    if j.project_id == project_id
    then task_plan project_id db >>= (λ plan.
      if any (λ t. t.job_id == j.id) plan.tasks
      then link_missing now project_id jobs db
      else (link_job now project_id j.id j.title j.spec "dispatch" db >>= (λ (rows, linked).
          link_missing now project_id jobs linked >>= (λ (n, after). ok (suc n, after)))))
    else link_missing now project_id jobs db
