-- ===== src/ProjectBudget.antt =====
-- project_budget.py: the daily cost ceiling of a project. Money is a whole number of some small unit;
-- `round` is what `round(x, 6)` makes of an amount, which only the report shows. The time zones and the
-- local day are arguments too; time stamps are seconds.
pub mod Laws
mod Tests
use bastet_agent_os.Prelude.{
  ℕ, zero, suc, ◌+◌, ◌-◌, String, Bool, true, false, not, ◌&&◌, ◌||◌, List, [], ◌∷◌, map, Option,
  none, some, Result, ok, err, ◌>>=◌, ◌==◌, any, keep_if, leb, eqb, find_first, is_some,
  if◌then◌else◌,
}
use bastet_agent_os.Prelude.Int.{ℤ, pos, negsuc, lez}
use bastet_agent_os.Prelude.Text.{strip}
use bastet_agent_os.Governance.{sum_of}

pub data ProjectBudgetError : Type 0 where
  not_a_number not_positive unknown_zone malformed_zone : ProjectBudgetError
  project_not_found config_not_json : ProjectBudgetError
  exceeded : String → ℕ → ℕ → ProjectBudgetError

-- What `float(limit)` reads: an amount, an infinity or a NaN, or it raises.
pub data Limit : Type 0 where
  amount : ℤ → Limit
  not_finite unreadable : Limit

-- What `ZoneInfo(name)` does: it returns, raises a ZoneInfoNotFoundError, or a ValueError.
pub data ZoneLookup : Type 0 where
  found missing malformed : ZoneLookup

unfoldable pub check_limit : Option Limit → Result ProjectBudgetError (Option ℕ)
check_limit none = ok none
check_limit (some unreadable) = err not_a_number
check_limit (some not_finite) = err not_positive
check_limit (some (amount (pos zero))) = err not_positive
check_limit (some (amount (pos (suc n)))) = ok (some (suc n))
check_limit (some (amount (negsuc n))) = err not_positive

abbrev or_utc : String → String
or_utc s = if s == "" then "UTC" else s

-- `validate`, whose zone may be missing.
unfoldable pub validate :
    (String → ZoneLookup) → Option Limit → String → Result ProjectBudgetError (Option ℕ × String)
unfolding check_limit strip
validate zones limit timezone = check_limit limit >>= (λ checked.
    let name = or_utc (strip (or_utc timezone)) in
    elim (zones name) [
      | found ↦ ok (checked, name)
      | missing ↦ err unknown_zone
      | malformed ↦ err malformed_zone
    ])

-- `config_json`, where it is JSON: the two keys that are read.
pub record Config : Type 0 where
  pub daily_cost_limit_usd : Option Limit
  pub daily_cost_timezone : String

pub record Project : Type 0 where
  pub id : String
  pub config : Option Config

pub record Job : Type 0 where
  pub id : String
  pub project_id : String

pub record Run : Type 0 where
  pub id : String
  pub job_id : String
  pub accounting_precision : Option String
  pub started_at : Option ℕ
  pub finished_at : Option ℕ
  pub cost_usd : ℕ

pub record LedgerEntry : Type 0 where
  pub run_id : String
  pub at : ℕ
  pub cost_usd : ℕ

-- A row of `project_cost_pauses`, whose primary key is the project with the start of its day.
pub record Pause : Type 0 where
  pub project_id : String
  pub period_start : ℕ
  pub paused_at : ℕ
  pub resumed_at : Option ℕ

-- `project.budget_paused` and `project.budget_resumed` of the audit log.
pub data Entry : Type 0 where
  budget_paused budget_resumed : String → String → Entry

pub record Db : Type 0 where
  pub projects : List Project
  pub jobs : List Job
  pub runs : List Run
  pub usage_ledger : List LedgerEntry
  pub pauses : List Pause
  pub log : List Entry

-- The runs of the project's jobs; the ids of jobs and runs are keys, so a join adds no rows.
abbrev pub is_of : Db → String → Run → Bool
is_of db project_id r = any (λ j. j.id == r.job_id && j.project_id == project_id) db.jobs

abbrev pub counts_ledger : Db → String → ℕ → LedgerEntry → Bool
counts_ledger db project_id start l =
    any (λ r. r.id == l.run_id && is_of db project_id r) db.runs && leb start l.at

-- `COALESCE(r.finished_at, r.started_at) >= start`, which is not true of two nulls.
abbrev pub ended_since : ℕ → Run → Bool
ended_since start r = elim r.finished_at [
  | some t ↦ leb start t
  | none ↦ elim r.started_at [ some t ↦ leb start t | none ↦ false ]
]

abbrev is_gateway : Option String → Bool
is_gateway none = false
is_gateway (some p) = p == "gateway"

abbrev pub counts_run : Db → String → ℕ → Run → Bool
counts_run db project_id start r =
    is_of db project_id r && not (is_gateway r.accounting_precision) && ended_since start r

unfoldable pub spent_since : Db → String → ℕ → ℕ
unfolding sum_of
spent_since db project_id start =
    sum_of (λ l. l.cost_usd) (keep_if (counts_ledger db project_id start) db.usage_ledger)
    + sum_of (λ r. r.cost_usd) (keep_if (counts_run db project_id start) db.runs)

-- What `status` returns.
pub record Status : Type 0 where
  pub limit_usd : Option ℕ
  pub spent_usd : ℕ
  pub remaining_usd : Option ℕ
  pub exceeded : Bool
  pub timezone : String
  pub period_start : ℕ
  pub resets_at : ℕ

abbrev is_exceeded : Option ℕ → ℕ → Bool
is_exceeded none spent = false
is_exceeded (some limit) spent = leb limit spent

abbrev remaining : (ℕ → ℕ) → Option ℕ → ℕ → Option ℕ
remaining round none spent = none
remaining round (some limit) spent = some (round (limit - spent))

unfoldable pub status_of :
    (ℕ → ℕ)
    → (String → ZoneLookup)
    → (String → ℕ × ℕ)
    → Config
    → String
    → Db
    → Result ProjectBudgetError Status
unfolding validate spent_since
status_of round zones window config project_id db =
    validate zones config.daily_cost_limit_usd config.daily_cost_timezone >>= (λ (limit, timezone).
      let (start, reset) = window timezone in
      let spent = spent_since db project_id start in
      ok (record {
        limit_usd = limit;
        spent_usd = round spent;
        remaining_usd = remaining round limit spent;
        exceeded = is_exceeded limit spent;
        timezone = timezone;
        period_start = start;
        resets_at = reset;
      }))

-- `status`; `_window` at the clock's reading is an argument.
unfoldable pub status :
    (ℕ → ℕ)
    → (String → ZoneLookup)
    → (String → ℕ × ℕ)
    → String
    → Db
    → Result ProjectBudgetError Status
unfolding status_of
status round zones window project_id db = elim (find_first (λ p. p.id == project_id) db.projects) [
  | none ↦ err project_not_found
  | some p ↦ elim p.config [
    | none ↦ err config_not_json
    | some config ↦ status_of round zones window config project_id db
  ]
]

abbrev pub is_pause : String → ℕ → Pause → Bool
is_pause project_id start p = p.project_id == project_id && eqb p.period_start start

abbrev pub is_open : String → Pause → Bool
is_open project_id p = p.project_id == project_id && not (is_some p.resumed_at)

abbrev resumed : String → ℕ → Pause → Pause
resumed project_id now p = if is_open project_id p then record p { resumed_at = some now } else p

pub data Event : Type 0 where
  no_event budget_exceeded resumed_event : Event

-- What `sync_pause` writes, given the status.
unfoldable pub record_pause : String → ℕ → String → Status → Db → Event × Db
record_pause actor now project_id value db =
    if value.exceeded
    then (if any (is_pause project_id value.period_start) db.pauses then (no_event, db) else (
      budget_exceeded,
      record db {
        pauses =
            record {
              project_id = project_id;
              period_start = value.period_start;
              paused_at = now;
              resumed_at = none;
            }
            ∷ db.pauses;
        log = budget_paused actor project_id ∷ db.log;
      },
    ))
    else (if any (is_open project_id) db.pauses
        then (
          resumed_event,
          record db {
            pauses = map (resumed project_id now) db.pauses;
            log = budget_resumed actor project_id ∷ db.log;
          },
        )
        else (no_event, db))

unfoldable pub sync_pause :
    (ℕ → ℕ)
    → (String → ZoneLookup)
    → (String → ℕ × ℕ)
    → String
    → ℕ
    → String
    → Db
    → Result ProjectBudgetError (Status × Event × Db)
unfolding status record_pause
sync_pause round zones window actor now project_id db =
    status round zones window project_id db >>= (λ value.
      let (event, after) = record_pause actor now project_id value db in ok (value, event, after))

-- `require_available`: the tables that it leaves, or what it raises with those that it leaves then.
unfoldable pub require_available :
    (ℕ → ℕ)
    → (String → ZoneLookup)
    → (String → ℕ × ℕ)
    → ℕ
    → String
    → Db
    → Result ProjectBudgetError (Unit {0}) × Db
unfolding sync_pause
require_available round zones window now project_id db =
    elim (sync_pause round zones window "orchestrator" now project_id db) [
      | err e ↦ (err e, db)
      | ok (value, event, after) ↦
          if value.exceeded
          then (err (exceeded project_id value.spent_usd value.resets_at), after)
          else (ok tt, after)
    ]
