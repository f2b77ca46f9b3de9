-- ===== src/Schedules/Ticker/Dispatch.antt =====
-- schedules.py: `_dispatch`, `_agent` and `_finish`. The orchestrator is an argument, and so is the
-- clock's reading.
use Prim.Native.String.{◌++◌}
use bastet_agent_os.Prelude.{
  ℕ, String, Bool, true, false, not, ◌&&◌, ◌||◌, List, [], ◌∷◌, Option, none, some, ◌==◌, any,
  find_first, contains, eqb, if◌then◌else◌,
}
use bastet_agent_os.Prelude.Int.{ℤ, ltz}
use bastet_agent_os.Schedules.Store.{
  Object, Schedule, Occurrence, AgentRow, RoleRow, JobRow, Db, audit, set_schedule,
}

-- The primary key of an occurrence.
abbrev pub Key : Type 0
Key = String × ℕ

abbrev pub same_key : Key → Key → Bool
same_key a b = a.0 == b.0 && eqb a.1 b.1

abbrev pub key_of : Occurrence → Key
key_of o = (o.schedule_id, o.scheduled_for)

abbrev pub has_key : Key → List Key → Bool
has_key k = any (same_key k)

-- The status of the row with the key.
unfoldable pub status_at : Key → List Occurrence → Option String
status_at k [] = none
status_at k (o ∷ runs) =
    let rest = status_at k runs in if same_key k (key_of o) then some o.status else rest

-- `INSERT OR IGNORE INTO workflow_schedule_runs`, and whether a row went in.
unfoldable pub insert_claim : ℕ → Key → List Occurrence → List Occurrence × Bool
unfolding status_at
insert_claim stamp k runs = elim (status_at k runs) [
  | some _ ↦ (runs, false)
  | none ↦ (
    record {
      schedule_id = k.0;
      scheduled_for = k.1;
      status = "claimed";
      job_id = none;
      claimed_at = stamp;
      finished_at = none;
      error = "";
    }
        ∷ runs,
    true,
  )
]

-- `UPDATE workflow_schedule_runs SET ... WHERE schedule_id=? AND scheduled_for=?`
unfoldable pub set_run : Key → (Occurrence → Occurrence) → List Occurrence → List Occurrence
set_run k f [] = []
set_run k f (o ∷ runs) = (if same_key k (key_of o) then f o else o) ∷ set_run k f runs

-- The two ends of an occurrence that is not dispatched.
pub data Ending : Type 0 where
  skipped failed : Ending

abbrev pub status_word : Ending → String
status_word skipped = "skipped"
status_word failed = "failed"

abbrev pub action_word : Ending → String
action_word skipped = "schedule.skipped"
action_word failed = "schedule.failed"

abbrev pub ended : ℕ → Ending → String → Occurrence → Occurrence
ended clock e error o = record o { status = status_word e; error = error; finished_at = some clock }

-- `_finish`
unfoldable pub finish : ℕ → Key → Ending → String → Db → Db
unfolding set_run
finish clock k e error db =
    audit "scheduler" (action_word e) k.0 (some k.1)
      (record db { runs = set_run k (ended clock e error) db.runs })

-- `_agent`: the id of an eligible agent, or "".
abbrev is_fit : AgentRow → Bool
is_fit a = a.enabled && not a.depleted

unfoldable pub fit_agent : String → List AgentRow → Bool
fit_agent id agents = any (λ a. a.id == id && is_fit a) agents

-- `ORDER BY par.preference DESC LIMIT 1`: of equal preferences the first row.
unfoldable pub preferred : (RoleRow → Bool) → List RoleRow → Option RoleRow
preferred p [] = none
preferred p (r ∷ roles) =
    let rest = preferred p roles in
    if p r
    then elim rest [
      | none ↦ some r
      | some best ↦ if ltz r.preference best.preference then some best else some r
    ]
    else rest

abbrev id_or_empty : Option RoleRow → String
id_or_empty none = ""
id_or_empty (some r) = r.agent_id

unfoldable pub agent_for : Db → Schedule → String
unfolding fit_agent preferred
agent_for db s = elim s.value.agent_id [
  | some id ↦ if fit_agent id db.agents then id else ""
  | none ↦ id_or_empty (
      preferred
        (λ r.
          r.project_id == s.project_id
          && (s.value.role == "" || r.role == s.value.role)
          && fit_agent r.agent_id db.agents)
        db.roles)
]

-- The part of `DispatchRequest` that the scheduler fills; the deterministic key is the schedule with
-- the time of the occurrence.
pub record Request : Type 0 where
  pub project_id : String
  pub prompt : String
  pub agent_id : String
  pub template_id : Option String
  pub timeout_s : ℤ
  pub delivery : Object
  pub key : Key

-- What `orchestrator.dispatch` does: it returns the id of a job, or raises a MaintenanceModeError, or
-- another exception, of which the text is kept.
pub data Answer : Type 0 where
  dispatched : String → Answer
  fenced : Answer
  raised : String → Answer

-- The orchestrator, which may change the table of jobs.
abbrev pub Orchestrator : Type 0
Orchestrator = Request → List JobRow → Answer × List JobRow

abbrev pub request : Schedule → Key → String → Request
request s k agent_id = record {
  project_id = s.project_id;
  prompt = s.value.prompt;
  agent_id = agent_id;
  template_id = s.value.template_id;
  timeout_s = s.value.timeout_s;
  delivery = s.value.delivery;
  key = k;
}

abbrev pub is_closed : String → Db → Bool
is_closed project_id db = elim (find_first (λ p. p.id == project_id) db.projects) [
  | none ↦ true
  | some p ↦ p.status == "closed"
]

-- The schedule's last job is there and is neither done nor cancelled.
abbrev pub is_active : Option String → List JobRow → Bool
is_active none jobs = false
is_active (some id) jobs = elim (find_first (λ j. j.id == id) jobs) [
  | none ↦ false
  | some j ↦ not (contains j.status ("done" ∷ "cancelled" ∷ []))
]

abbrev still_active : Option String → String
still_active none = ""
still_active (some id) = "previous job " ++ (id ++ " is still active")

abbrev pub sent : ℕ → String → Occurrence → Occurrence
sent clock job_id o = record o {
  status = "dispatched";
  job_id = some job_id;
  finished_at = some clock;
}

-- What follows the orchestrator's answer.
unfoldable pub settle : ℕ → Key → Answer → Db → Option String × Db
unfolding finish set_run set_schedule
settle clock k fenced db = (none, db)
settle clock k (raised text) db = (none, finish clock k failed text db)
settle clock k (dispatched job_id) db = (
  some job_id,
  audit "scheduler" "schedule.dispatched" k.0 (some k.1) (record db {
    runs = set_run k (sent clock job_id) db.runs;
    schedules =
        set_schedule k.0
          (λ s. record s { last_run_at = some k.1; last_job_id = some job_id; updated_at = clock })
          db.schedules;
  }),
)

-- `_dispatch`; `none` is the empty text.
unfoldable pub dispatch : Orchestrator → ℕ → Key → Db → Option String × Db
unfolding finish agent_for settle
dispatch orchestrator clock k db =
    elim (find_first (λ s. s.id == k.0 && s.value.enabled) db.schedules) [
      | none ↦ (none, finish clock k skipped "schedule disabled" db)
      | some s ↦
          if is_closed s.project_id db
          then (none, finish clock k skipped "project is closed" db)
          else if is_active s.last_job_id db.jobs
          then (none, finish clock k skipped (still_active s.last_job_id) db)
          else if agent_for db s == ""
          then (none, finish clock k failed "no eligible agent" db)
          else (let (answer, jobs) = orchestrator (request s k (agent_for db s)) db.jobs in
              settle clock k answer (record db { jobs = jobs }))
    ]
