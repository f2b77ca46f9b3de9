-- ===== src/Schedules/Store/Update.antt =====
-- schedules.py: `create`, `update` and `delete` over the table of schedules.
use bastet_agent_os.Prelude.{
  ℕ, String, ◌≡◌, refl, ap, inl, inr, eq_refl, Bool, false, not, List, [], ◌∷◌, ◌++◌, none, some,
  Result, ok, err, ◌==◌, Bool-cases, Ensures, Ensures-bind, Ensures-bind_any, Ensures-after,
  Ensures-ok, All, keep_if, arith,
}
use bastet_agent_os.Schedules.Cron.{ScheduleError}
use bastet_agent_os.Schedules.Next.{Calendar, next_run}
use bastet_agent_os.Schedules.Store.{
  Payload, Value, Schedule, Db, validate_targets, merged, timing_changed, get, latest,
  find_schedule, set_schedule, due_of, rewritten, create, update, delete, audit,
}
use bastet_agent_os.Schedules.Store.Valid.{IsValue, unchanged, validate-IsValue, validate_value}

-- Every row has a value as `validate` leaves it.
abbrev pub AreValid : Calendar → Db → Type 0
AreValid cal db = All (λ s. IsValue cal s.value) db.schedules

append_valid :
    (cal : Calendar) (xs : List Schedule) (s : Schedule)
    → All (λ s. IsValue cal s.value) xs
    → IsValue cal s.value
    → All (λ s. IsValue cal s.value) (xs ++ s ∷ [])
append_valid cal [] s h v = (v, tt)
append_valid cal (x ∷ xs) s (p, h) v = (p, append_valid cal xs s h v)

set_valid :
    (cal : Calendar) (id : String) (f : Schedule → Schedule) (xs : List Schedule)
    → ((s : Schedule) → IsValue cal s.value → IsValue cal (f s).value)
    → All (λ s. IsValue cal s.value) xs
    → All (λ s. IsValue cal s.value) (set_schedule id f xs)
unfolding set_schedule
set_valid cal id f [] k h = tt
set_valid cal id f (x ∷ xs) k (p, h) = elim (Bool-cases (x.id == id)) [
  | inl e ↦ rw e (k x p, set_valid cal id f xs k h)
  | inr e ↦ rw e (p, set_valid cal id f xs k h)
]

kept_valid :
    (cal : Calendar) (p : Schedule → Bool) (xs : List Schedule)
    → All (λ s. IsValue cal s.value) xs
    → All (λ s. IsValue cal s.value) (keep_if p xs)
kept_valid cal p [] h = tt
kept_valid cal p (x ∷ xs) (v, h) = elim (Bool-cases (p x)) [
  | inl e ↦ rw e (v, kept_valid cal p xs h)
  | inr e ↦ rw e (kept_valid cal p xs h)
]

module _ (cal : Calendar) (blank : cal.zones "" ≡ none) where
  create-AreValid :
      (new_id : String) (stamp : ℕ) (project_id : String) (p : Payload) (actor : String) (db : Db)
      → AreValid cal db
      → Ensures (AreValid cal) (create cal new_id stamp project_id p actor db)
  unfolding create
  create-AreValid new_id stamp project_id p actor db h = Ensures-after _ _ (
      Ensures-bind _ _ (validate-IsValue cal p blank) (λ value v. Ensures-after _ _ (
        Ensures-bind_any (next_run cal value.cron value.timezone (some stamp)) _
          (λ due. Ensures-ok _ (append_valid cal db.schedules _ h v)))))

  update-AreValid :
      (stamp : ℕ) (id : String) (p : Payload) (actor : String) (db : Db)
      → AreValid cal db
      → Ensures (AreValid cal) (update cal stamp id p actor db)
  unfolding update
  update-AreValid stamp id p actor db h = Ensures-bind_any (get db id) _ (λ (current, last).
      Ensures-bind _ _ (validate-IsValue cal (merged p current.value) blank) (λ value v.
        Ensures-after (validate_targets db value) _ (
          Ensures-bind_any (due_of cal stamp value current) _ (λ due.
            Ensures-ok _
              (set_valid cal id (rewritten value due stamp) db.schedules (λ s _. v) h)))))

  delete-AreValid :
      (id actor : String) (db : Db) → AreValid cal db → Ensures (AreValid cal) (delete id actor db)
  unfolding delete
  delete-AreValid id actor db h =
      Ensures-bind_any (get db id) _
        (λ found. Ensures-ok _ (kept_valid cal (λ s. not (s.id == id)) db.schedules h))

find-set :
    (id : String) (f : Schedule → Schedule) (s : Schedule) (xs : List Schedule)
    → ((s : Schedule) → (f s).id ≡ s.id)
    → find_schedule id xs ≡ some s
    → find_schedule id (set_schedule id f xs) ≡ some (f s)
unfolding find_schedule set_schedule
find-set id f s [] k h = let bad : ⊥ = cc in absurd bad
find-set id f s (x ∷ xs) k h = elim (Bool-cases (x.id == id)) [
  | inl e ↦ let same : x ≡ s = cc (rw e at h) in simp (e, k x) (ap (λ y. some (f y)) same)
  | inr e ↦ rw (e, e) (find-set id f s xs k (rw e at h))
]

-- A call of one of the operations on the table.
pub data Change : Type 0 where
  creating : String → ℕ → String → Payload → String → Change
  updating : ℕ → String → Payload → String → Change
  deleting : String → String → Change

-- A refused call leaves the tables as they were.
abbrev pub kept : Db → Result ScheduleError Db → Db
kept db (ok after) = after
kept db (err e) = db

abbrev pub change : Calendar → Change → Db → Db
change cal (creating id stamp project p actor) db = kept db (create cal id stamp project p actor db)
change cal (updating stamp id p actor) db = kept db (update cal stamp id p actor db)
change cal (deleting id actor) db = kept db (delete id actor db)

abbrev pub change_all : Calendar → List Change → Db → Db
change_all cal [] db = db
change_all cal (c ∷ cs) db = change_all cal cs (change cal c db)

kept-AreValid :
    (cal : Calendar) (db : Db) (r : Result ScheduleError Db)
    → AreValid cal db
    → Ensures (AreValid cal) r
    → AreValid cal (kept db r)
kept-AreValid cal db (ok after) h e = e.at after refl
kept-AreValid cal db (err x) h e = h

change-AreValid :
    (cal : Calendar) (c : Change) (db : Db)
    → cal.zones "" ≡ none
    → AreValid cal db
    → AreValid cal (change cal c db)
change-AreValid cal (creating id stamp project p actor) db blank h =
    kept-AreValid cal db _ h (create-AreValid cal blank id stamp project p actor db h)
change-AreValid cal (updating stamp id p actor) db blank h =
    kept-AreValid cal db _ h (update-AreValid cal blank stamp id p actor db h)
change-AreValid cal (deleting id actor) db blank h =
    kept-AreValid cal db _ h (delete-AreValid cal blank id actor db h)

-- After any sequence of calls of `create`, `update` and `delete`, with any payloads, each stored
-- schedule has a value that passes all of `validate`'s checks and that `validate` would return as it
-- is. The empty text is supposed to name no zone.
pub change_all-AreValid :
    (cal : Calendar) (cs : List Change) (db : Db)
    → cal.zones "" ≡ none
    → AreValid cal db
    → AreValid cal (change_all cal cs db)
change_all-AreValid cal [] db blank h = h
change_all-AreValid cal (c ∷ cs) db blank h =
    change_all-AreValid cal cs (change cal c db) blank (change-AreValid cal c db blank h)

not_changed : (v : Value) → timing_changed v v ≡ false
unfolding timing_changed
not_changed v = ground (arith, eq_refl v.cron, eq_refl v.timezone)

get-found :
    (db : Db) (id : String) (s : Schedule)
    → find_schedule id db.schedules ≡ some s
    → get db id ≡ ok (s, latest id db.runs)
unfolding get
get-found db id s h = rw (get, h) refl

abbrev touched : ℕ → String → String → Schedule → Db → Db
touched stamp id actor s db =
    audit actor "schedule.update" id none (record db {
      schedules = set_schedule id (rewritten s.value s.next_run_at stamp) db.schedules;
    })

-- An update with an empty payload, of a stored schedule whose agent and template are still there,
-- succeeds, and the schedule then read has what it had, apart from the time of the change.
pub update-unchanged :
    (cal : Calendar) (stamp : ℕ) (id actor : String) (db : Db) (s : Schedule)
    → find_schedule id db.schedules ≡ some s
    → IsValue cal s.value
    → validate_targets db s.value ≡ ok tt
    → (after : Db) × (update cal stamp id unchanged actor db ≡ ok after)
      × (get after id ≡ ok (record s { updated_at = stamp }, latest id db.runs))
unfolding update due_of
update-unchanged cal stamp id actor db s found valid targets = (
  touched stamp id actor s db,
  rw
      (
        update,
        get-found db id s found,
        validate_value cal s.value valid,
        targets,
        due_of,
        not_changed s.value,
      )
      refl,
  get-found (touched stamp id actor s db) id (rewritten s.value s.next_run_at stamp s)
      (find-set id (rewritten s.value s.next_run_at stamp) s db.schedules (λ s. refl) found),
)
