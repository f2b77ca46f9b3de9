-- ===== src/Schedules/Store.antt =====
-- schedules.py: `_validate_targets` and the operations on the table `workflow_schedules`,
-- with the tables that they read.
pub mod Validate
pub mod Valid
pub mod Update
unfoldable pub use Validate.*
use bastet_agent_os.Prelude.{
  ℕ, zero, suc, String, Bool, true, false, not, ◌&&◌, ◌||◌, List, [], ◌∷◌, ◌++◌, map, Option, none,
  some, Result, ok, err, ◌>>=◌, ◌>>◌, raise_if, ◌==◌, any, keep_if, find_first, leb, ltb,
  if◌then◌else◌,
}
use bastet_agent_os.Prelude.Int.{ℤ, pos, negsuc, ltz}
use bastet_agent_os.Prelude.Text.{strip, nonempty}
use bastet_agent_os.Workflow.Json.{Scalar, text, Field, missing, null, given}
use bastet_agent_os.Schedules.Cron.{
  ScheduleError, name_required, prompt_required, timeout_outside, agent_not_found,
  template_not_found, project_not_found, schedule_not_found, parse_cron,
}
use bastet_agent_os.Schedules.Next.{Calendar, timezone, next_run}

-- A row of `workflow_schedules`.
pub record Schedule : Type 0 where
  pub id : String
  pub project_id : String
  pub value : Value
  pub next_run_at : ℕ
  pub last_run_at : Option ℕ
  pub last_job_id : Option String
  pub created_at : ℕ
  pub updated_at : ℕ

-- A row of `workflow_schedule_runs`, whose primary key is the schedule with the time.
pub record Occurrence : Type 0 where
  pub schedule_id : String
  pub scheduled_for : ℕ
  pub status : String
  pub job_id : Option String
  pub claimed_at : ℕ
  pub finished_at : Option ℕ
  pub error : String

pub record ProjectRow : Type 0 where
  pub id : String
  pub status : String

pub record AgentRow : Type 0 where
  pub id : String
  pub enabled : Bool
  pub depleted : Bool

-- A row of `project_agent_roles`.
pub record RoleRow : Type 0 where
  pub project_id : String
  pub agent_id : String
  pub role : String
  pub preference : ℤ

pub record JobRow : Type 0 where
  pub id : String
  pub status : String

-- An entry of the audit log: actor, action, schedule, and the time of the occurrence it is about.
pub record Entry : Type 0 where
  pub actor : String
  pub action : String
  pub schedule_id : String
  pub scheduled_for : Option ℕ

pub record Db : Type 0 where
  pub projects : List ProjectRow
  pub agents : List AgentRow
  pub roles : List RoleRow
  pub templates : List String
  pub jobs : List JobRow
  pub schedules : List Schedule
  pub runs : List Occurrence
  pub log : List Entry

abbrev pub audit : String → String → String → Option ℕ → Db → Db
audit actor action id at db = record db {
  log = record { actor = actor; action = action; schedule_id = id; scheduled_for = at } ∷ db.log;
}

-- `_validate_targets`
unfoldable pub validate_targets : Db → Value → Result ScheduleError (Unit {0})
validate_targets db v =
    raise_if (elim v.agent_id [ none ↦ false | some id ↦ not (any (λ a. a.id == id) db.agents) ])
      agent_not_found
    >> raise_if
        (elim v.template_id [ none ↦ false | some id ↦ not (any (λ t. t == id) db.templates) ])
        template_not_found

unfoldable pub find_schedule : String → List Schedule → Option Schedule
find_schedule id schedules = find_first (λ s. s.id == id) schedules

-- `get`: the row, with the schedule's latest occurrence.
unfoldable pub latest : String → List Occurrence → Option Occurrence
latest id [] = none
latest id (o ∷ runs) =
    let rest = latest id runs in
    if o.schedule_id == id
    then elim rest [
      | none ↦ some o
      | some l ↦ if ltb l.scheduled_for o.scheduled_for then some o else some l
    ]
    else rest

unfoldable pub get : Db → String → Result ScheduleError (Schedule × Option Occurrence)
unfolding find_schedule latest
get db id = elim (find_schedule id db.schedules) [
  | none ↦ err schedule_not_found
  | some s ↦ ok (s, latest id db.runs)
]

-- `create`, with the id that `new_id` makes and the clock's reading.
unfoldable pub create :
    Calendar → String → ℕ → String → Payload → String → Db → Result ScheduleError Db
unfolding validate validate_targets
create cal new_id stamp project_id payload actor db =
    raise_if (not (any (λ p. p.id == project_id) db.projects)) project_not_found
    >> (validate cal payload >>= (λ value.
        validate_targets db value
        >> (next_run cal value.cron value.timezone (some stamp) >>= (λ due. ok (
            audit actor "schedule.create" new_id none (record db {
              schedules =
                  db.schedules
                  ++ (record {
                    id = new_id;
                    project_id = project_id;
                    value = value;
                    next_run_at = due;
                    last_run_at = none;
                    last_job_id = none;
                    created_at = stamp;
                    updated_at = stamp;
                  })
                    ∷ [];
            }))))))

-- `payload.get(key, current[key])`
abbrev pub or_current : {A : Type 0} → Field A → A → Field A
or_current missing a = given a
or_current f a = f

abbrev pub or_current_id : Field String → Option String → Field String
or_current_id missing none = null
or_current_id missing (some s) = given s
or_current_id f o = f

unfoldable pub merged : Payload → Value → Payload
merged p v = record {
  name = or_current p.name v.name;
  cron = or_current p.cron v.cron;
  timezone = or_current p.timezone v.timezone;
  prompt = or_current p.prompt v.prompt;
  role = or_current p.role v.role;
  agent_id = or_current_id p.agent_id v.agent_id;
  template_id = or_current_id p.template_id v.template_id;
  delivery = or_current p.delivery v.delivery;
  timeout_s = or_current p.timeout_s v.timeout_s;
  enabled = or_current p.enabled v.enabled;
}

unfoldable pub timing_changed : Value → Value → Bool
timing_changed v current =
    not (v.cron == current.cron)
    || not (v.timezone == current.timezone)
    || (v.enabled && not current.enabled)

-- `UPDATE workflow_schedules SET ... WHERE id=?`
unfoldable pub set_schedule : String → (Schedule → Schedule) → List Schedule → List Schedule
set_schedule id f schedules = map (λ s. if s.id == id then f s else s) schedules

-- When the changed row is due next.
unfoldable pub due_of : Calendar → ℕ → Value → Schedule → Result ScheduleError ℕ
unfolding timing_changed
due_of cal stamp value current =
    if timing_changed value current.value
    then next_run cal value.cron value.timezone (some stamp)
    else ok current.next_run_at

abbrev pub rewritten : Value → ℕ → ℕ → Schedule → Schedule
rewritten value due stamp s = record s { value = value; next_run_at = due; updated_at = stamp }

unfoldable pub update : Calendar → ℕ → String → Payload → String → Db → Result ScheduleError Db
unfolding get validate merged validate_targets due_of set_schedule
update cal stamp id payload actor db = get db id >>= (λ (current, _).
    validate cal (merged payload current.value) >>= (λ value.
      validate_targets db value
      >> (due_of cal stamp value current >>= (λ due. ok (
          audit actor "schedule.update" id none (record db {
            schedules = set_schedule id (rewritten value due stamp) db.schedules;
          }))))))

-- `delete`: the occurrences of the row go with it.
unfoldable pub delete : String → String → Db → Result ScheduleError Db
unfolding get
delete id actor db = get db id >>= (λ _. ok (
    audit actor "schedule.delete" id none (record db {
      schedules = keep_if (λ s. not (s.id == id)) db.schedules;
      runs = keep_if (λ o. not (o.schedule_id == id)) db.runs;
    })))
