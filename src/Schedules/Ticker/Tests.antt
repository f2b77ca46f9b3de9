-- ===== src/Schedules/Ticker/Tests.antt =====
-- A schedule that is due, with an agent, and an orchestrator that returns one job.
use bastet_agent_os.Prelude.{
  String, ◌≡◌, ◌≢◌, refl, eq_iff, true, false, List, [], ◌∷◌, none, some, ok, All, arith,
}
use bastet_agent_os.Prelude.Int.{pos}
use bastet_agent_os.Workflow.Json.{text, given}
use bastet_agent_os.Schedules.Cron.{parse_cron}
use bastet_agent_os.Schedules.Next.{timezone, next_run, max_search_minutes}
use bastet_agent_os.Schedules.Tests.{calendar}
use bastet_agent_os.Schedules.Store.{
  Value, Schedule, Occurrence, Db, check_value, find_schedule, get, latest, update,
  validate_targets, normalized, merged,
}
use bastet_agent_os.Schedules.Store.Valid.{IsValue, unchanged}
use bastet_agent_os.Schedules.Store.Update.{
  AreValid, creating, change_all, change_all-AreValid, update-unchanged,
}
use bastet_agent_os.Schedules.Ticker.{tick}
use bastet_agent_os.Schedules.Ticker.Dispatch.{Orchestrator, dispatched, fenced, status_at, settle}
use bastet_agent_os.Schedules.Ticker.Once.{IsSound, times_sent}
use bastet_agent_os.Schedules.Ticker.Runs.{
  Call, ticking, running, call_all, call_all-IsSound, call_all-Keeps,
}
use bastet_agent_os.Schedules.Ticker.Advance.{IsLater, tick-IsLater}

abbrev value : Value
value = record {
  name = "daily";
  cron = "30 9 1 * 1-5";
  timezone = "UTC";
  prompt = "report";
  role = "";
  agent_id = none;
  template_id = none;
  delivery = ("mode", text "none") ∷ [];
  timeout_s = pos 3600;
  enabled = true;
}

abbrev schedule : Schedule
schedule = record {
  id = "s";
  project_id = "p";
  value = value;
  next_run_at = 34200;
  last_run_at = none;
  last_job_id = none;
  created_at = 0;
  updated_at = 0;
}

abbrev old_run : Occurrence
old_run = record {
  schedule_id = "s";
  scheduled_for = 7;
  status = "failed";
  job_id = none;
  claimed_at = 7;
  finished_at = some 8;
  error = "no eligible agent";
}

abbrev db : Db
db = record {
  projects = record { id = "p"; status = "running" } ∷ [];
  agents = record { id = "a"; enabled = true; depleted = false } ∷ [];
  roles = record { project_id = "p"; agent_id = "a"; role = "dev"; preference = pos 0 } ∷ [];
  templates = [];
  jobs = [];
  schedules = schedule ∷ [];
  runs = old_run ∷ [];
  log = [];
}

abbrev orchestrator : Orchestrator
orchestrator r jobs = (dispatched "j", record { id = "j"; status = "done" } ∷ jobs)

abbrev fence : Orchestrator
fence r jobs = (fenced, jobs)

ticked : (tick calendar orchestrator 34200 34201 db).0 ≡ ok ("j" ∷ [])
unfolding tick next_run max_search_minutes status_at settle
ticked = refl

ticked_row :
    status_at ("s", 34200) (tick calendar orchestrator 34200 34201 db).1.runs ≡ some "dispatched"
unfolding tick next_run max_search_minutes status_at settle
ticked_row = refl

fenced_row : status_at ("s", 34200) (tick calendar fence 34200 34201 db).1.runs ≡ some "claimed"
unfolding tick next_run max_search_minutes status_at settle
fenced_row = refl

abbrev calls : List Call
calls =
    ticking calendar fence 34200 34201
    ∷ ticking calendar orchestrator 34230 34231
    ∷ running orchestrator 34240 "s"
    ∷ []

db-IsSound : IsSound db
unfolding status_at times_sent
db-IsSound = record { keys = (refl, tt); once = λ k. ground arith; marked = λ k n. absurd (n refl) }

call_all-IsSound_example : IsSound (call_all calls db)
call_all-IsSound_example = call_all-IsSound calls db db-IsSound

abbrev failed_word : String
failed_word = "failed"

not_a_claim : failed_word ≢ "claimed"
not_a_claim h = ground (arith, eq_iff "failed" "claimed", h)

old_row : status_at ("s", 7) db.runs ≡ some failed_word
unfolding status_at
old_row = refl

call_all-Keeps_example : status_at ("s", 7) (call_all calls db).runs ≡ some failed_word
call_all-Keeps_example = call_all-Keeps calls db db-IsSound ("s", 7) failed_word old_row not_a_claim

tick-IsLater_example : All (IsLater 34200) (tick calendar orchestrator 34200 34201 db).1.schedules
tick-IsLater_example = tick-IsLater calendar orchestrator 34200 34201 db ("j" ∷ []) ticked

value-IsValue : IsValue calendar value
unfolding check_value normalized merged parse_cron timezone
value-IsValue = record { checked = refl; canonical = refl }

change_all-AreValid_example : AreValid calendar (
    change_all calendar
      (creating "t" 50 "p" (record unchanged { name = given "new" }) "ann" ∷ [])
      db)
change_all-AreValid_example =
    change_all-AreValid calendar
      (creating "t" 50 "p" (record unchanged { name = given "new" }) "ann" ∷ []) db refl
      (value-IsValue, tt)

found : find_schedule "s" db.schedules ≡ some schedule
unfolding find_schedule
found = refl

targets : validate_targets db value ≡ ok tt
unfolding validate_targets
targets = refl

update-unchanged_example :
    (after : Db) × (update calendar 50 "s" unchanged "ann" db ≡ ok after)
    × (get after "s" ≡ ok (record schedule { updated_at = 50 }, latest "s" db.runs))
update-unchanged_example =
    update-unchanged calendar 50 "s" "ann" db schedule found value-IsValue targets
