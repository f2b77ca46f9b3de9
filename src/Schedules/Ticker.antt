-- ===== src/Schedules/Ticker.antt =====
-- schedules.py: `WorkflowScheduler.tick` and `run_now`. The dispatches of one tick share a reading of
-- the clock.
pub mod Dispatch
pub mod Rows
pub mod Once
pub mod Claims
pub mod Ticks
pub mod Runs
pub mod Advance
mod Tests
use bastet_agent_os.Prelude.{
  ℕ, String, Bool, true, false, ◌&&◌, ◌||◌, List, [], ◌∷◌, ◌++◌, map, Option, none, some, Result,
  ok, err, ◌==◌, keep_if, leb, ltb, eqb, if◌then◌else◌,
}
use bastet_agent_os.Prelude.Text.{codes}
use bastet_agent_os.Schedules.Cron.{ScheduleError, occurrence_exists}
use bastet_agent_os.Schedules.Next.{Calendar, next_run}
use bastet_agent_os.Schedules.Store.{Schedule, Occurrence, Db, get, set_schedule}
use bastet_agent_os.Schedules.Ticker.Dispatch.{
  Key, key_of, has_key, insert_claim, Orchestrator, dispatch,
}

-- `SELECT ... WHERE enabled=1 AND next_run_at<=? ORDER BY next_run_at,id`
abbrev text_before : List ℕ → List ℕ → Bool
text_before [] _ = true
text_before (x ∷ xs) [] = false
text_before (x ∷ xs) (y ∷ ys) = let rest = text_before xs ys in ltb x y || (eqb x y && rest)

abbrev due_before : Schedule → Schedule → Bool
due_before a b =
    ltb a.next_run_at b.next_run_at
    || (eqb a.next_run_at b.next_run_at && text_before (codes a.id) (codes b.id))

unfoldable pub insert_by {ℓ} : {A : Type ℓ} → (A → A → Bool) → A → List A → List A
insert_by before x [] = x ∷ []
insert_by before x (y ∷ ys) =
    let rest = insert_by before x ys in if before x y then x ∷ y ∷ ys else y ∷ rest

unfoldable pub sort_by {ℓ} : {A : Type ℓ} → (A → A → Bool) → List A → List A
unfolding insert_by
sort_by before [] = []
sort_by before (x ∷ xs) = insert_by before x (sort_by before xs)

unfoldable pub due_schedules : ℕ → Db → List Schedule
unfolding sort_by
due_schedules stamp db =
    sort_by due_before (keep_if (λ s. s.value.enabled && leb s.next_run_at stamp) db.schedules)

-- The first loop of `tick`. A `next_run` that raises ends it, after the row was claimed.
abbrev pub advance : ℕ → Schedule → ℕ → Schedule → Schedule
advance stamp row following s =
    if eqb s.next_run_at row.next_run_at
    then record s { next_run_at = following; updated_at = stamp }
    else s

unfoldable pub claim_all :
    Calendar → ℕ → List Schedule → List Key → Db → Result ScheduleError (List Key) × Db
unfolding insert_claim set_schedule
claim_all cal stamp [] claimed db = (ok claimed, db)
claim_all cal stamp (row ∷ rows) claimed db =
    let (runs, inserted) = insert_claim stamp (row.id, row.next_run_at) db.runs in
    elim (next_run cal row.value.cron row.value.timezone (some stamp)) [
      | err e ↦ (err e, record db { runs = runs })
      | ok following ↦
          claim_all cal stamp rows
            (if inserted then claimed ++ (row.id, row.next_run_at) ∷ [] else claimed)
            (record db {
              runs = runs;
              schedules = set_schedule row.id (advance stamp row following) db.schedules;
            })
    ]

-- The second loop: claims left by an earlier process.
abbrev claimed_before : Occurrence → Occurrence → Bool
claimed_before a b = leb a.claimed_at b.claimed_at

unfoldable pub left_claims : Db → List Key
unfolding sort_by
left_claims db = map key_of (sort_by claimed_before (keep_if (λ o. o.status == "claimed") db.runs))

unfoldable pub add_keys : List Key → List Key → List Key
add_keys claimed [] = claimed
add_keys claimed (k ∷ keys) =
    add_keys (if has_key k claimed then claimed else claimed ++ k ∷ []) keys

-- The third loop: the jobs that were dispatched.
unfoldable pub dispatch_all : Orchestrator → ℕ → List Key → Db → List String × Db
unfolding dispatch
dispatch_all orchestrator clock [] db = ([], db)
dispatch_all orchestrator clock (k ∷ keys) db =
    let (job, after) = dispatch orchestrator clock k db in
    let (jobs, last) = dispatch_all orchestrator clock keys after in
    (elim job [ none ↦ jobs | some id ↦ id ∷ jobs ], last)

unfoldable pub tick : Calendar → Orchestrator → ℕ → ℕ → Db → Result ScheduleError (List String) × Db
unfolding due_schedules claim_all left_claims add_keys dispatch_all
tick cal orchestrator stamp clock db =
    let (claims, claimed) = claim_all cal stamp (due_schedules stamp db) [] db in
    elim claims [
      | err e ↦ (err e, claimed)
      | ok keys ↦
          let (jobs, after) =
            dispatch_all orchestrator clock (add_keys keys (left_claims claimed)) claimed in
          (ok jobs, after)
    ]

-- `run_now`, at the clock's reading.
unfoldable pub run_now : Orchestrator → ℕ → String → Db → Result ScheduleError (Option String) × Db
unfolding get insert_claim dispatch
run_now orchestrator clock id db = elim (get db id) [
  | err e ↦ (err e, db)
  | ok _ ↦
      let (runs, inserted) = insert_claim clock (id, clock) db.runs in
      if inserted
      then (let (job, after) =
            dispatch orchestrator clock (id, clock) (record db { runs = runs }) in
          (ok job, after))
      else (err occurrence_exists, record db { runs = runs })
]
