-- ===== src/Schedules/Ticker/Advance.antt =====
-- schedules.py: the due times that a tick leaves.
use bastet_agent_os.Prelude.{
  ℕ, ◌<◌, String, ◌≡◌, refl, ◌∙◌, inl, inr, eq_refl, Bool, true, not, ◌&&◌, ◌||◌, List, [], ◌∷◌,
  some, any, Result-cases, ok, ◌==◌, eqb, leb, ltb, Bool-cases, Option-cases, All, keep_if,
  find_first, arith, if◌then◌else◌,
}
use bastet_agent_os.Schedules.Next.{Calendar, next_run, next_run_later}
use bastet_agent_os.Schedules.Store.{Schedule, Db, set_schedule}
use bastet_agent_os.Schedules.Ticker.{
  insert_by, sort_by, advance, due_before, claim_all, left_claims, add_keys, dispatch_all,
  due_schedules, tick,
}
use bastet_agent_os.Schedules.Ticker.Dispatch.{
  Key, Answer, dispatched, fenced, raised, Orchestrator, finish, settle, dispatch, is_closed,
  is_active, agent_for,
}

abbrev is_row : Schedule → Schedule → Bool
is_row s row = s.id == row.id && eqb s.next_run_at row.next_run_at

-- The schedule is disabled, due later than the stamp, or one of the rows still to be claimed.
abbrev pub is_settled : ℕ → List Schedule → Schedule → Bool
is_settled stamp rows s = not s.value.enabled || ltb stamp s.next_run_at || any (is_row s) rows

abbrev AreSettled : ℕ → List Schedule → List Schedule → Type 0
AreSettled stamp rows = All (λ s. is_settled stamp rows s ≡ true)

advance_one :
    (stamp following : ℕ) (row : Schedule) (rows : List Schedule) (s : Schedule)
    → stamp < following
    → is_settled stamp (row ∷ rows) s ≡ true
    → is_settled stamp rows (if s.id == row.id then advance stamp row following s else s) ≡ true
advance_one stamp following row rows s l p = elim (Bool-cases (s.id == row.id)) [
  | inr e ↦ simp e (ground (arith, e, p))
  | inl e ↦ elim (Bool-cases (eqb s.next_run_at row.next_run_at)) [
    | inr ne ↦ simp (e, ne) (ground (arith, e, ne, p))
    | inl same ↦ simp (e, same) (ground (arith, l))
  ]
]

advance-settles :
    (stamp following : ℕ) (row : Schedule) (rows schedules : List Schedule)
    → stamp < following
    → AreSettled stamp (row ∷ rows) schedules
    → AreSettled stamp rows (set_schedule row.id (advance stamp row following) schedules)
unfolding set_schedule
advance-settles stamp following row rows [] l h = tt
advance-settles stamp following row rows (s ∷ schedules) l (p, h) = (
  advance_one stamp following row rows s l p,
  advance-settles stamp following row rows schedules l h,
)

any-insert_by :
    (p : Schedule → Bool) (x : Schedule) (xs : List Schedule)
    → any p (insert_by due_before x xs) ≡ (p x || any p xs)
unfolding insert_by
any-insert_by p x [] = refl
any-insert_by p x (y ∷ ys) = elim (Bool-cases (due_before x y)) [
  | inl e ↦ rw e refl
  | inr e ↦ rw e (ground (arith, any-insert_by p x ys))
]

any-sort_by : (p : Schedule → Bool) (xs : List Schedule) → any p (sort_by due_before xs) ≡ any p xs
unfolding sort_by
any-sort_by p [] = refl
any-sort_by p (x ∷ xs) = ground (arith, any-insert_by p x (sort_by due_before xs), any-sort_by p xs)

-- The rows of the query settle every schedule.
module _ (stamp : ℕ) where
  abbrev is_due : Schedule → Bool
  is_due s = s.value.enabled && leb s.next_run_at stamp

  one_more :
      (x : Schedule) (xs : List Schedule) (s : Schedule)
      → is_settled stamp (keep_if is_due xs) s ≡ true
      → is_settled stamp (keep_if is_due (x ∷ xs)) s ≡ true
  one_more x xs s p = elim (Bool-cases (is_due x)) [
    | inl e ↦ rw e (ground (arith, p))
    | inr e ↦ rw e p
  ]

  more_rows :
      (x : Schedule) (xs others : List Schedule)
      → AreSettled stamp (keep_if is_due xs) others
      → AreSettled stamp (keep_if is_due (x ∷ xs)) others
  more_rows x xs [] h = tt
  more_rows x xs (s ∷ ss) (p, h) = (one_more x xs s p, more_rows x xs ss h)

  one_row :
      (s : Schedule) (xs : List Schedule) → is_settled stamp (keep_if is_due (s ∷ xs)) s ≡ true
  one_row s xs = elim (Bool-cases (is_due s)) [
    | inl e ↦ rw e (ground (arith, eq_refl s.id))
    | inr e ↦ rw e (ground (arith, e))
  ]

  kept-settles : (xs : List Schedule) → AreSettled stamp (keep_if is_due xs) xs
  kept-settles [] = tt
  kept-settles (s ∷ xs) = (one_row s xs, more_rows s xs xs (kept-settles xs))

  sorted-settles :
      (rows xs : List Schedule)
      → AreSettled stamp rows xs
      → AreSettled stamp (sort_by due_before rows) xs
  sorted-settles rows [] h = tt
  sorted-settles rows (s ∷ xs) (p, h) =
      (rw (any-sort_by (is_row s) rows) p, sorted-settles rows xs h)

  due_schedules-settles : (db : Db) → AreSettled stamp (due_schedules stamp db) db.schedules
  unfolding due_schedules
  due_schedules-settles db =
      sorted-settles (keep_if is_due db.schedules) db.schedules (kept-settles db.schedules)

  claim_all-settles :
      (cal : Calendar) (rows : List Schedule) (claimed keys : List Key) (db : Db)
      → AreSettled stamp rows db.schedules
      → (claim_all cal stamp rows claimed db).0 ≡ ok keys
      → AreSettled stamp [] (claim_all cal stamp rows claimed db).1.schedules
  unfolding claim_all
  claim_all-settles cal [] claimed keys db h e = h
  claim_all-settles cal (row ∷ rows) claimed keys db h e =
      elim (Result-cases (next_run cal row.value.cron row.value.timezone (some stamp))) [
        | inr (x, r) ↦ let bad : ⊥ = cc (simp (claim_all, r) at e) in absurd bad
        | inl (following, r) ↦
            let later = next_run_later cal row.value.cron row.value.timezone stamp following r in
            simp (claim_all, r)
              (claim_all-settles cal rows _ keys _
                (advance-settles stamp following row rows db.schedules later h)
                (simp (claim_all, r) at e))
      ]

  -- A dispatch changes neither what is due nor what is enabled.
  sent-settled :
      (id : String) (f : Schedule → Schedule) (schedules : List Schedule)
      → ((s : Schedule) → is_settled stamp [] (f s) ≡ is_settled stamp [] s)
      → AreSettled stamp [] schedules
      → AreSettled stamp [] (set_schedule id f schedules)
  unfolding set_schedule
  sent-settled id f [] k h = tt
  sent-settled id f (s ∷ schedules) k (p, h) = elim (Bool-cases (s.id == id)) [
    | inl e ↦ simp e (k s ∙ p, sent-settled id f schedules k h)
    | inr e ↦ simp e (p, sent-settled id f schedules k h)
  ]

  settle-settled :
      (clock : ℕ) (k : Key) (a : Answer) (db : Db)
      → AreSettled stamp [] db.schedules
      → AreSettled stamp [] (settle clock k a db).1.schedules
  unfolding settle finish
  settle-settled clock k fenced db h = h
  settle-settled clock k (raised text) db h = h
  settle-settled clock k (dispatched job_id) db h = sent-settled k.0 _ db.schedules (λ s. refl) h

  dispatch-settled :
      (orchestrator : Orchestrator) (clock : ℕ) (k : Key) (db : Db)
      → AreSettled stamp [] db.schedules
      → AreSettled stamp [] (dispatch orchestrator clock k db).1.schedules
  unfolding dispatch finish
  dispatch-settled orchestrator clock k db h =
      elim (Option-cases (find_first (λ s. s.id == k.0 && s.value.enabled) db.schedules)) [
        | inl e ↦ simp (dispatch, e) h
        | inr (s, e) ↦ elim (Bool-cases (is_closed s.project_id db)) [
          | inl closed ↦ simp (dispatch, e, closed) h
          | inr going ↦ elim (Bool-cases (is_active s.last_job_id db.jobs)) [
            | inl active ↦ simp (dispatch, e, going, active) h
            | inr idle ↦ elim (Bool-cases (agent_for db s == "")) [
              | inl nobody ↦ simp (dispatch, e, going, idle, nobody) h
              | inr agent ↦
                  simp (dispatch, e, going, idle, agent)
                    (settle-settled clock k _ (record db { jobs = _ }) h)
            ]
          ]
        ]
      ]

  dispatch_all-settled :
      (orchestrator : Orchestrator) (clock : ℕ) (keys : List Key) (db : Db)
      → AreSettled stamp [] db.schedules
      → AreSettled stamp [] (dispatch_all orchestrator clock keys db).1.schedules
  unfolding dispatch_all
  dispatch_all-settled orchestrator clock [] db h = h
  dispatch_all-settled orchestrator clock (k ∷ keys) db h =
      dispatch_all-settled orchestrator clock keys _ (dispatch-settled orchestrator clock k db h)

  tick-settles :
      (cal : Calendar) (orchestrator : Orchestrator) (clock : ℕ) (db : Db) (jobs : List String)
      → (tick cal orchestrator stamp clock db).0 ≡ ok jobs
      → AreSettled stamp [] (tick cal orchestrator stamp clock db).1.schedules
  unfolding tick
  tick-settles cal orchestrator clock db jobs e =
      let out = claim_all cal stamp (due_schedules stamp db) [] db in
      elim (Result-cases out.0) [
        | inr (x, h) ↦ let bad : ⊥ = cc (simp (tick, h) at e) in absurd bad
        | inl (keys, h) ↦
            simp (tick, h)
              (dispatch_all-settled orchestrator clock (add_keys keys (left_claims out.1)) out.1 (
                claim_all-settles cal (due_schedules stamp db) [] keys db (due_schedules-settles db)
                  h))
      ]

-- A schedule is not due at the stamp any more.
abbrev pub IsLater : ℕ → Schedule → Type 0
IsLater stamp s = s.value.enabled ≡ true → stamp < s.next_run_at

AreSettled-IsLater :
    (stamp : ℕ) (schedules : List Schedule)
    → AreSettled stamp [] schedules
    → All (IsLater stamp) schedules
AreSettled-IsLater stamp [] h = tt
AreSettled-IsLater stamp (s ∷ schedules) (p, h) =
    (λ e. ground (arith, e, p), AreSettled-IsLater stamp schedules h)

-- After a tick that returns, every enabled schedule is due later than the tick's stamp, however many
-- occurrences were missed before: a tick never leaves a schedule due again at once.
pub tick-IsLater :
    (cal : Calendar) (orchestrator : Orchestrator) (stamp clock : ℕ) (db : Db) (jobs : List String)
    → (tick cal orchestrator stamp clock db).0 ≡ ok jobs
    → All (IsLater stamp) (tick cal orchestrator stamp clock db).1.schedules
tick-IsLater cal orchestrator stamp clock db jobs e =
    AreSettled-IsLater stamp _ (tick-settles stamp cal orchestrator clock db jobs e)
