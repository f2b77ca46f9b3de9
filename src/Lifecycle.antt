-- ===== src/Lifecycle.antt =====
-- project_lifecycle.py: the status of a project, the table of its transitions, and the status kept in
-- step with the project's jobs. The tables are `projects`, `planning_rounds`, `jobs` and the audit log.
pub mod Moves
pub mod Progress
mod Tests
use bastet_agent_os.Prelude.{
  ℕ, zero, suc, ◌+◌, String, ◌==◌, Bool, true, false, not, ◌&&◌, ◌||◌, Option, none, some, List, [],
  ◌∷◌, ◌++◌, map, Result, ok, err, ◌>>=◌, contains, keep_if, any, all, eqb, ltb, leb, max,
  find_first, length, if◌then◌else◌,
}

-- `TRANSITIONS`: the name, the statuses it may start from, and the one it ends in.
pub record Transition : Type 0 where
  pub name : String
  pub froms : List String
  pub target : String

abbrev transition : String → List String → String → Transition
transition name froms target = record { name = name; froms = froms; target = target }

abbrev pub transitions : List Transition
transitions =
    transition "confirm_plan" ("planning" ∷ []) "ready"
    ∷ transition "activate" ("planning" ∷ "ready" ∷ "paused" ∷ "maintenance" ∷ []) "running"
    ∷ transition "start" ("ready" ∷ "paused" ∷ "maintenance" ∷ []) "running"
    ∷ transition "pause" ("running" ∷ []) "paused"
    ∷ transition "resume" ("paused" ∷ []) "running"
    ∷ transition "stop" ("running" ∷ "paused" ∷ []) "ready"
    ∷ transition "complete" ("running" ∷ []) "maintenance"
    ∷ transition "close" ("maintenance" ∷ "ready" ∷ "paused" ∷ []) "closed"
    ∷ transition "reopen" ("closed" ∷ []) "planning"
    ∷ transition "replan" ("ready" ∷ "maintenance" ∷ "paused" ∷ []) "planning"
    ∷ []

abbrev pub internal_transitions : List String
internal_transitions = "activate" ∷ "complete" ∷ []

abbrev pub statuses : List String
statuses = "planning" ∷ "ready" ∷ "running" ∷ "paused" ∷ "maintenance" ∷ "closed" ∷ []

unfoldable pub allowed_transitions : String → Bool → List String
allowed_transitions status include_internal =
    map (λ t. t.name)
      (keep_if
        (λ t.
          contains status t.froms
          && (include_internal || not (contains t.name internal_transitions)))
        transitions)

-- A project; of its stored plan the status reads only whether each task has a job.
pub record ProjectRow : Type 0 where
  pub id : String
  pub status : String
  pub dispatched : List Bool

pub record Round : Type 0 where
  pub id : String
  pub project_id : String
  pub ordinal : ℕ
  pub state : String

pub record Job : Type 0 where
  pub project_id : String
  pub status : String

-- `project.<transition>`, with the project and the two statuses.
pub record Move : Type 0 where
  pub actor : String
  pub action : String
  pub project_id : String
  pub from : String
  pub to : String

pub record Db : Type 0 where
  pub projects : List ProjectRow
  pub rounds : List Round
  pub jobs : List Job
  pub log : List Move

pub data LifecycleError : Type 0 where
  project_not_found : LifecycleError
  unknown_transition : String → LifecycleError
  wrong_status : String → List String → String → LifecycleError

unfoldable pub status_in : String → List ProjectRow → Result LifecycleError String
status_in project_id [] = err project_not_found
status_in project_id (row ∷ rows) =
    let rest = status_in project_id rows in
    if row.id == project_id then ok (if row.status == "" then "planning" else row.status) else rest

unfoldable pub status_of : Db → String → Result LifecycleError String
unfolding status_in
status_of db project_id = status_in project_id db.projects

-- `UPDATE projects SET status=? WHERE id=?`
abbrev pub with_status : String → String → ProjectRow → ProjectRow
with_status project_id status row =
    if row.id == project_id then record row { status = status } else row

-- Freeze and acceptance of the planning rounds. The newest round is the one with the greatest ordinal
-- (the ordinals of a project are distinct), found from the first row on.
abbrev pub started_round : String → Round → Round
started_round project_id r =
    if r.project_id == project_id && r.state == "frozen"
    then record r { state = "executing" }
    else r

unfoldable pub newest : String → List Round → Option Round
newest project_id [] = none
newest project_id (r ∷ rounds) =
    let rest = newest project_id rounds in
    if r.project_id == project_id
    then elim rest [
      | none ↦ some r
      | some best ↦ if leb best.ordinal r.ordinal then some r else some best
    ]
    else rest

abbrev pub accepted_round : Option Round → Round → Round
accepted_round none r = r
accepted_round (some best) r =
    if r.id == best.id && contains r.state ("frozen" ∷ "executing" ∷ [])
    then record r { state = "accepted" }
    else r

unfoldable pub follow_rounds : String → String → List Round → List Round
unfolding newest
follow_rounds name project_id rounds =
    if name == "start"
    then map (started_round project_id) rounds
    else if name == "close"
    then map (accepted_round (newest project_id rounds)) rounds
    else rounds

unfoldable pub find_transition : String → List Transition → Option Transition
find_transition name [] = none
find_transition name (t ∷ ts) =
    let rest = find_transition name ts in if t.name == name then some t else rest

-- What `apply` writes once its guards hold.
unfoldable pub moved : String → String → String → String → String → Db → Db
unfolding follow_rounds
moved project_id name actor from to db = record db {
  projects = map (with_status project_id to) db.projects;
  rounds = follow_rounds name project_id db.rounds;
  log =
      db.log
      ++ (record {
        actor = if actor == "" then "system" else actor;
        action = name;
        project_id = project_id;
        from = from;
        to = to;
      })
        ∷ [];
}

-- `apply`: the new database and the status it returns.
unfoldable pub apply : Db → String → String → String → Result LifecycleError (Db × String)
apply db project_id name actor = elim (find_transition name transitions) [
  | none ↦ err (unknown_transition name)
  | some t ↦ do
    current ← status_of db project_id
    if contains current t.froms
        then ok (moved project_id name actor current t.target db, t.target)
        else err (wrong_status name t.froms current)
]

pub record Counts : Type 0 where
  pub total : ℕ
  pub done : ℕ
  pub active : ℕ
  pub blocked : ℕ
  pub still_open : ℕ
  pub cancelled : ℕ

abbrev no_jobs : Counts
no_jobs = record { total = 0; done = 0; active = 0; blocked = 0; still_open = 0; cancelled = 0 }

abbrev pub count_job : String → Counts → Counts
count_job status c =
    if status == "done"
    then record c { total = c.total + 1; done = c.done + 1 }
    else if status == "in_progress"
    then record c { total = c.total + 1; active = c.active + 1 }
    else if status == "blocked"
    then record c { total = c.total + 1; blocked = c.blocked + 1 }
    else if status == "cancelled"
    then record c { total = c.total + 1; cancelled = c.cancelled + 1 }
    else record c { total = c.total + 1; still_open = c.still_open + 1 }

-- The source adds up groups of equal status; one by one the sums are the same.
unfoldable pub job_progress : String → List Job → Counts
job_progress project_id [] = no_jobs
job_progress project_id (j ∷ jobs) =
    let rest = job_progress project_id jobs in
    if j.project_id == project_id then count_job j.status rest else rest

-- The new database, and the status if the project moved.
unfoldable pub maybe_complete : Db → String → String → Result LifecycleError (Db × Option String)
maybe_complete db project_id actor = do
  status ← status_of db project_id
  let progress = job_progress project_id db.jobs
  if not (status == "running")
      then ok (db, none)
      else if eqb progress.total 0
      then ok (db, none)
      else if eqb (progress.done + progress.cancelled) progress.total
      then (apply db project_id "complete" actor >>= λ r. ok (r.0, some r.1))
      else ok (db, none)

abbrev pub in_flight : Counts → ℕ
in_flight c = c.active + c.blocked + c.still_open

-- The tasks of the project's plan, each with whether it has a job.
unfoldable pub plan_of : String → List ProjectRow → List Bool
plan_of project_id [] = []
plan_of project_id (row ∷ rows) =
    let rest = plan_of project_id rows in if row.id == project_id then row.dispatched else rest

-- What `status_of` raises is caught, and the project is left alone.
unfoldable pub sync_from_jobs : Db → String → String → Result LifecycleError (Db × Option String)
sync_from_jobs db project_id actor = elim (status_of db project_id) [
  | err e ↦ ok (db, none)
  | ok status ↦
      let progress = job_progress project_id db.jobs in
      if status == "closed"
      then ok (db, none)
      else if not (eqb (in_flight progress) 0)
          && contains status ("planning" ∷ "ready" ∷ "paused" ∷ "maintenance" ∷ [])
      then (apply db project_id "activate" actor >>= λ r. ok (r.0, some r.1))
      else if eqb (in_flight progress) 0 && status == "running" && not (eqb progress.total 0)
      then (if any (λ d. not d) (plan_of project_id db.projects)
          then ok (db, none)
          else apply db project_id "complete" actor >>= λ r. ok (r.0, some r.1))
      else ok (db, none)
]
