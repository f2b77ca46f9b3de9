-- ===== src/Maintenance/Tests.antt =====
-- One update behind the fence.
use bastet_agent_os.Prelude.{◌≡◌, ◌↔◌, true, false, contains, [], ◌∷◌, none, ok, err}
use bastet_agent_os.Maintenance.{Fence, draining, enter, require_dispatch_allowed, require_drained}
use bastet_agent_os.Maintenance.Laws.{require_drained_iff}

-- The fence is down, and one job is at work.
abbrev open_fence : Fence
open_fence = record {
  lock = record {
    enabled = false;
    generation = 4;
    owner = "";
    reason = "";
    entered_at = none;
    released_at = none;
  };
  jobs = "in_progress" ∷ "done" ∷ [];
  runs = "succeeded" ∷ [];
  log = [];
}

require_drained_iff_example :
    let f = enter 7 "ops" "update" open_fence in
    ((require_drained f ≡ ok tt) ↔ (
      (f.lock.enabled ≡ true)
      × (contains "in_progress" f.jobs ≡ false)
      × (contains "queued" f.runs ≡ false)
      × (contains "running" f.runs ≡ false)
      × (contains "waiting_input" f.runs ≡ false)))
    × (require_drained f ≡ ok tt → require_dispatch_allowed f ≡ err draining)
require_drained_iff_example = require_drained_iff (enter 7 "ops" "update" open_fence)
