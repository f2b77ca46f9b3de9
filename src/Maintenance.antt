-- ===== src/Maintenance.antt =====
-- maintenance_mode.py: the dispatch fence, one row of `maintenance_lock`, with the jobs and runs that
-- it waits for.
pub mod Laws
mod Tests
use bastet_agent_os.Prelude.{
  ℕ, suc, ◌+◌, String, Bool, true, false, not, ◌&&◌, ◌||◌, List, [], ◌∷◌, ◌++◌, Option, none, some,
  ◌==◌, eqb, contains, Result, ok, err, keep_if, length, if◌then◌else◌,
}
use bastet_agent_os.Prelude.Text.{strip}

pub record Lock : Type 0 where
  pub enabled : Bool
  pub generation : ℕ
  pub owner : String
  pub reason : String
  pub entered_at : Option ℕ
  pub released_at : Option ℕ

-- An entry of the audit log: the actor and the action.
pub data Entry : Type 0 where
  entered : String → String → Entry
  left : String → ℕ → Entry

-- The part of the database that the fence reads: the lock, and the statuses of all jobs and runs.
pub record Fence : Type 0 where
  pub lock : Lock
  pub jobs : List String
  pub runs : List String
  pub log : List Entry

pub data MaintenanceModeError : Type 0 where
  draining not_entered : MaintenanceModeError
  not_drained : ℕ → ℕ → MaintenanceModeError

abbrev pub count_in : List String → List String → ℕ
count_in words statuses = length (keep_if (λ s. contains s words) statuses)

abbrev pub active_jobs : Fence → ℕ
active_jobs f = count_in ("in_progress" ∷ []) f.jobs

abbrev pub active_runs : Fence → ℕ
active_runs f = count_in ("queued" ∷ "running" ∷ "waiting_input" ∷ []) f.runs

-- `state(db)["drained"]`
unfoldable pub is_drained : Fence → Bool
is_drained f = f.lock.enabled && eqb (active_jobs f) 0 && eqb (active_runs f) 0

unfoldable pub enter : ℕ → String → String → Fence → Fence
unfolding strip
enter now actor reason f =
    if not f.lock.enabled
    then record f {
      lock = record {
        enabled = true;
        generation = f.lock.generation + 1;
        owner = actor;
        reason = strip reason;
        entered_at = some now;
        released_at = none;
      };
      log = f.log ++ entered actor (strip reason) ∷ [];
    }
    else f

unfoldable pub leave : ℕ → String → Fence → Fence
leave now actor f =
    if f.lock.enabled
    then record f {
      lock = record f.lock { enabled = false; released_at = some now };
      log = f.log ++ left actor f.lock.generation ∷ [];
    }
    else f

unfoldable pub require_dispatch_allowed : Fence → Result MaintenanceModeError (Unit {0})
require_dispatch_allowed f = if f.lock.enabled then err draining else ok tt

unfoldable pub require_drained : Fence → Result MaintenanceModeError (Unit {0})
unfolding is_drained
require_drained f =
    if not f.lock.enabled
    then err not_entered
    else if not (is_drained f)
    then err (not_drained (active_jobs f) (active_runs f))
    else ok tt
