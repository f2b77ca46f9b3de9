-- ===== src/Schedules/Ticker/Runs.antt =====
-- schedules.py: sequences of ticks and runs on demand.
use bastet_agent_os.Prelude.{
  ℕ, String, ◌≡◌, refl, ap, inl, inr, eq_iff, Bool, List, [], ◌∷◌, map, none, some, Result-cases,
  ◌==◌, Bool-cases, All, keep_if,
}
use bastet_agent_os.Schedules.Next.{Calendar}
use bastet_agent_os.Schedules.Store.{Occurrence, Db, get}
use bastet_agent_os.Schedules.Ticker.{
  insert_by, sort_by, claim_all, left_claims, add_keys, due_schedules, tick, run_now,
  claimed_before,
}
use bastet_agent_os.Schedules.Ticker.Dispatch.{Key, key_of, status_at, insert_claim, Orchestrator}
use bastet_agent_os.Schedules.Ticker.Rows.{same_key_refl, HasKeys, insert_claim_lem}
use bastet_agent_os.Schedules.Ticker.Once.{IsSound, IsClaimed, dispatch-Step}
use bastet_agent_os.Schedules.Ticker.Claims.{
  Keeps, AreClaimed, add_keys-AreReady, dispatch_all-IsSound, Step-Keeps,
}
use bastet_agent_os.Schedules.Ticker.Ticks.{
  keeps_other, Insertion, insert-Insertion, Claiming, claim_all-Claiming,
}

pub insert_by-All {ℓ} :
    {A : Type ℓ} (P : A → Type 0) (before : A → A → Bool) (x : A) (xs : List A)
    → P x
    → All P xs
    → All P (insert_by before x xs)
unfolding insert_by
insert_by-All P before x [] p h = (p, tt)
insert_by-All P before x (y ∷ ys) p (q, h) = elim (Bool-cases (before x y)) [
  | inl e ↦ rw e (p, (q, h))
  | inr e ↦ rw e (q, insert_by-All P before x ys p h)
]

pub sort_by-All {ℓ} :
    {A : Type ℓ} (P : A → Type 0) (before : A → A → Bool) (xs : List A)
    → All P xs
    → All P (sort_by before xs)
unfolding sort_by
sort_by-All P before [] h = tt
sort_by-All P before (x ∷ xs) (p, h) =
    insert_by-All P before x (sort_by before xs) p (sort_by-All P before xs h)

lift_rows :
    (o : Occurrence) (runs some_rows : List Occurrence)
    → status_at (key_of o) runs ≡ none
    → All (λ q. status_at (key_of q) runs ≡ some "claimed") some_rows
    → All (λ q. status_at (key_of q) (o ∷ runs) ≡ some "claimed") some_rows
lift_rows o runs [] n h = tt
lift_rows o runs (q ∷ qs) n (c, h) =
    (keeps_other (key_of o) (key_of q) o runs "claimed" n refl c, lift_rows o runs qs n h)

-- Each row whose status is a claim is found by its key.
claimed_rows :
    (runs : List Occurrence)
    → HasKeys runs
    → All
        (λ o. status_at (key_of o) runs ≡ some "claimed")
        (keep_if (λ o. o.status == "claimed") runs)
unfolding status_at
claimed_rows [] h = tt
claimed_rows (o ∷ runs) (n, h) = elim (Bool-cases (o.status == "claimed")) [
  | inl e ↦ rw e (
    simp (same_key_refl (key_of o)) (ap some ((eq_iff o.status "claimed").0 e)),
    lift_rows o runs _ n (claimed_rows runs h),
  )
  | inr e ↦ rw e (lift_rows o runs _ n (claimed_rows runs h))
]

map-All :
    (db : Db) (os : List Occurrence)
    → All (λ o. IsClaimed db (key_of o)) os
    → AreClaimed db (map key_of os)
map-All db [] h = tt
map-All db (o ∷ os) (c, h) = (c, map-All db os h)

left_claims-AreClaimed : (db : Db) → IsSound db → AreClaimed db (left_claims db)
unfolding left_claims
left_claims-AreClaimed db i =
    map-All db _ (sort_by-All _ claimed_before _ (claimed_rows db.runs i.keys))

tick-IsSound :
    (cal : Calendar) (orchestrator : Orchestrator) (stamp clock : ℕ) (db : Db)
    → IsSound db
    → IsSound (tick cal orchestrator stamp clock db).1
      × Keeps db (tick cal orchestrator stamp clock db).1
unfolding tick
tick-IsSound cal orchestrator stamp clock db i =
    let out = claim_all cal stamp (due_schedules stamp db) [] db in
    let c : Claiming db out =
      claim_all-Claiming cal stamp (due_schedules stamp db) [] db i
        (record { distinct = tt; claims = tt }) in
    elim (Result-cases out.0) [
      | inr (e, h) ↦ simp (tick, h) (c.sound, c.keeps)
      | inl (keys, h) ↦
          let ready =
            add_keys-AreReady out.1 keys (left_claims out.1) (c.ready keys h)
              (left_claims-AreClaimed out.1 c.sound) in
          let (s, k) =
            dispatch_all-IsSound orchestrator clock (add_keys keys (left_claims out.1)) out.1
              c.sound ready.distinct ready.claims in
          simp (tick, h) (s, λ l w r ne. k l w (c.keeps l w r ne) ne)
    ]

run_now-IsSound :
    (orchestrator : Orchestrator) (clock : ℕ) (id : String) (db : Db)
    → IsSound db
    → IsSound (run_now orchestrator clock id db).1 × Keeps db (run_now orchestrator clock id db).1
unfolding run_now
run_now-IsSound orchestrator clock id db i =
    let k : Key = (id, clock) in
    let p = insert_claim clock k db.runs in
    let ins : Insertion k db p =
      insert-Insertion k db clock p i (insert_claim_lem clock k db.runs) in
    let next : Db = record db { runs = p.0 } in
    elim (Result-cases (get db id)) [
      | inr (e, h) ↦ simp (run_now, h) (i, λ l w r ne. r)
      | inl (found, h) ↦ elim (Bool-cases p.1) [
        | inr e ↦ simp (run_now, h, e) (ins.sound db.schedules, λ l w r ne. ins.keeps l w r)
        | inl e ↦
            let claim = (ins.new e).0 in
            let step = dispatch-Step orchestrator clock k next (ins.sound db.schedules) claim in
            simp (run_now, h, e)
              (step.sound, λ l w r ne. Step-Keeps k next _ step claim l w (ins.keeps l w r) ne)
      ]
    ]

-- A call of the scheduler, with what the calendar and the orchestrator are at the time.
pub data Call : Type 0 where
  ticking : Calendar → Orchestrator → ℕ → ℕ → Call
  running : Orchestrator → ℕ → String → Call

abbrev pub call : Call → Db → Db
call (ticking cal orchestrator stamp clock) db = (tick cal orchestrator stamp clock db).1
call (running orchestrator clock id) db = (run_now orchestrator clock id db).1

abbrev pub call_all : List Call → Db → Db
call_all [] db = db
call_all (c ∷ calls) db = call_all calls (call c db)

call-IsSound : (c : Call) (db : Db) → IsSound db → IsSound (call c db) × Keeps db (call c db)
call-IsSound (ticking cal orchestrator stamp clock) db i =
    tick-IsSound cal orchestrator stamp clock db i
call-IsSound (running orchestrator clock id) db i = run_now-IsSound orchestrator clock id db i

-- Whatever the orchestrator answers, in any sequence of ticks and runs on demand, each occurrence is
-- dispatched at most once, and one that was dispatched keeps a row that says so. The tables are
-- supposed to be of that kind before.
pub call_all-IsSound : (calls : List Call) (db : Db) → IsSound db → IsSound (call_all calls db)
call_all-IsSound [] db i = i
call_all-IsSound (c ∷ calls) db i = call_all-IsSound calls (call c db) (call-IsSound c db i).0

-- In any such sequence the row of an occurrence that is dispatched, skipped or failed, or has any
-- status but that of a claim, keeps its status: only claims are tried again.
pub call_all-Keeps : (calls : List Call) (db : Db) → IsSound db → Keeps db (call_all calls db)
call_all-Keeps [] db i l w r ne = r
call_all-Keeps (c ∷ calls) db i l w r ne =
    let (j, kept) = call-IsSound c db i in call_all-Keeps calls (call c db) j l w (kept l w r ne) ne
