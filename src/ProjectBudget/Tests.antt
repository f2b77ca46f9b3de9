-- ===== src/ProjectBudget/Tests.antt =====
-- A project with a ceiling of 100 that has spent 120 since the start of its day.
use bastet_agent_os.Prelude.{
  ℕ, ◌+◌, ◌*◌, ◌/◌, ◌<◌, String, ◌≡◌, ◌↔◌, refl, true, [], ◌∷◌, none, some, ok, ◌==◌, if◌then◌else◌,
}
use bastet_agent_os.Prelude.Int.{pos}
use bastet_agent_os.ProjectBudget.{
  amount, ZoneLookup, found, missing, Db, Status, budget_exceeded, budget_paused, status,
  sync_pause, require_available, spent_since,
}
use bastet_agent_os.ProjectBudget.Laws.{require_available_iff}

abbrev zones : String → ZoneLookup
zones name = if name == "UTC" then found else missing

-- The day from 1000 to 2000.
abbrev window : String → ℕ × ℕ
window name = (1000, 2000)

abbrev db : Db
db = record {
  projects =
      record {
        id = "p";
        config =
            some (record {
              daily_cost_limit_usd = some (amount (pos 100));
              daily_cost_timezone = " ";
            });
      }
      ∷ [];
  jobs = record { id = "j"; project_id = "p" } ∷ [];
  runs =
      record {
        id = "r";
        job_id = "j";
        accounting_precision = some "gateway";
        started_at = some 900;
        finished_at = some 1100;
        cost_usd = 120;
      }
      ∷ record {
        id = "q";
        job_id = "j";
        accounting_precision = none;
        started_at = some 900;
        finished_at = none;
        cost_usd = 30;
      }
      ∷ [];
  usage_ledger =
      record { run_id = "r"; at = 1050; cost_usd = 120 }
      ∷ record { run_id = "r"; at = 950; cost_usd = 7 }
      ∷ [];
  pauses = [];
  log = [];
}

abbrev value : Status
value = record {
  limit_usd = some 100;
  spent_usd = 100;
  remaining_usd = some 0;
  exceeded = true;
  timezone = "UTC";
  period_start = 1000;
  resets_at = 2000;
}

-- To hundreds.
abbrev round : ℕ → ℕ
round n = (n + 50) / 100 * 100

read_status : status round zones window "p" db ≡ ok value
unfolding status
read_status = refl

abbrev paused : Db
paused = record db {
  pauses =
      record { project_id = "p"; period_start = 1000; paused_at = 1200; resumed_at = none } ∷ [];
  log = budget_paused "runner" "p" ∷ [];
}

first_call :
    sync_pause round zones window "runner" 1200 "p" db ≡ ok (value, budget_exceeded, paused)
unfolding sync_pause
first_call = refl

require_available_iff_example :
    ((require_available round zones window 1200 "p" db).0 ≡ ok tt) ↔ (spent_since db "p" 1000 < 100)
require_available_iff_example =
    require_available_iff round zones window 1200 "p" db value read_status
