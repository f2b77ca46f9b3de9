-- ===== src/Lifecycle/Tests.antt =====
-- One project whose only job is at work.
use bastet_agent_os.Prelude.{
  String, ◌≡◌, ◌≢◌, ◌⊎◌, refl, true, false, Option, none, some, err, [], ◌∷◌, ok, contains,
}
use bastet_agent_os.Lifecycle.{
  LifecycleError, Transition, transitions, statuses, Db, allowed_transitions, find_transition,
  status_in, status_of, moved, follow_rounds, newest, apply, job_progress, in_flight,
  sync_from_jobs,
}
use bastet_agent_os.Lifecycle.Moves.{apply_lem}
use bastet_agent_os.Lifecycle.Progress.{sync_from_jobs-settles}

abbrev planning : String
planning = "planning"

abbrev planned : Db
planned = record {
  projects = record { id = "p"; status = "planning"; dispatched = true ∷ [] } ∷ [];
  rounds = [];
  jobs = record { project_id = "p"; status = "in_progress" } ∷ [];
  log = [];
}

in_planning : status_of planned "p" ≡ ok "planning"
unfolding status_of status_in
in_planning = refl

abbrev ready : Db
ready = record planned {
  projects = record { id = "p"; status = "ready"; dispatched = true ∷ [] } ∷ [];
  log =
      record {
        actor = "ann";
        action = "confirm_plan";
        project_id = "p";
        from = "planning";
        to = "ready";
      }
      ∷ [];
}

confirmed : apply planned "p" "confirm_plan" "ann" ≡ ok (ready, "ready")
unfolding apply find_transition status_of status_in moved follow_rounds newest
confirmed = refl

apply_lem_example :
    ((e : LifecycleError) × (apply planned "p" "confirm_plan" "ann" ≡ err e)
      × (contains "confirm_plan" (allowed_transitions "planning" true) ≡ false))
    ⊎ ((db' : Db) × (t : Transition) × (apply planned "p" "confirm_plan" "ann" ≡ ok (db', t.target))
        × (contains "confirm_plan" (allowed_transitions "planning" true) ≡ true)
        × (find_transition "confirm_plan" transitions ≡ some t)
        × (contains t.target statuses ≡ true)
        × (status_of db' "p" ≡ ok t.target)
        × ((other : String) → other ≢ "p" → status_of db' other ≡ status_of planned other)
        × (db'.jobs ≡ planned.jobs))
apply_lem_example = apply_lem planned "p" "confirm_plan" "ann" "planning" in_planning

sync_from_jobs-settles_example :
    (db' : Db) × (r : Option String) × (sync_from_jobs planned "p" "system" ≡ ok (db', r))
    × (sync_from_jobs db' "p" "system" ≡ ok (db', none))
    × (in_flight (job_progress "p" planned.jobs) ≢ 0
        → planning ≢ "closed"
        → status_of db' "p" ≡ ok "running")
sync_from_jobs-settles_example =
    sync_from_jobs-settles planned "p" "system" "planning" in_planning refl
