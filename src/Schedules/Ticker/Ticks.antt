-- ===== src/Schedules/Ticker/Ticks.antt =====
-- schedules.py: the table of occurrences and the audit log over ticks and runs on demand.
use mathlib.Core.Path.{subst}
use bastet_agent_os.Prelude.{
  ℕ, String, ◌≡◌, refl, sym, ap, ◌∙◌, inl, inr, Bool, true, false, List, [], ◌∷◌, ◌++◌, none, some,
  Result, Result-cases, ok, Bool-cases, if◌then◌else◌,
}
use bastet_agent_os.Schedules.Cron.{ScheduleError}
use bastet_agent_os.Schedules.Next.{Calendar, next_run}
use bastet_agent_os.Schedules.Store.{Schedule, Occurrence, Db, set_schedule}
use bastet_agent_os.Schedules.Ticker.{advance, claim_all}
use bastet_agent_os.Schedules.Ticker.Dispatch.{
  Key, same_key, key_of, has_key, status_at, insert_claim,
}
use bastet_agent_os.Schedules.Ticker.Rows.{
  same_key→eq, same_key_refl, Claimed, ignored, inserted, insert_claim_lem,
}
use bastet_agent_os.Schedules.Ticker.Once.{IsSound}
use bastet_agent_os.Schedules.Ticker.Claims.{Keeps, AreClaimed, AreReady, AreReady-snoc}

-- What `INSERT OR IGNORE` leaves, whatever it did.
pub record Insertion (k : Key) (db : Db) (p : List Occurrence × Bool) : Type 0 where
  pub sound :
      (schedules : List Schedule) → IsSound (record db { runs = p.0; schedules = schedules })
  pub keeps : (l : Key) (w : String) → status_at l db.runs ≡ some w → status_at l p.0 ≡ some w
  pub new : p.1 ≡ true → (status_at k p.0 ≡ some "claimed") × (status_at k db.runs ≡ none)

pub keeps_other :
    (k l : Key) (o : Occurrence) (runs : List Occurrence) (w : String)
    → status_at k runs ≡ none
    → key_of o ≡ k
    → status_at l runs ≡ some w
    → status_at l (o ∷ runs) ≡ some w
unfolding status_at
keeps_other k l o runs w n same h = elim (Bool-cases (same_key l k)) [
  | inl e ↦
      let q : status_at k runs ≡ some w =
        subst (λ x. status_at x runs ≡ some w) (same_key→eq l k e) h in
      let bad : ⊥ = cc (n, q) in absurd bad
  | inr e ↦ simp (ap (same_key l) same, e) h
]

pub insert-Insertion :
    (k : Key) (db : Db) (stamp : ℕ) (p : List Occurrence × Bool)
    → IsSound db
    → Claimed stamp k db.runs p
    → Insertion k db p
unfolding status_at
insert-Insertion k db stamp _ i (ignored w e) = record {
  sound = λ schedules. record { keys = i.keys; once = i.once; marked = i.marked };
  keeps = λ l w h. h;
  new = λ h. let bad : ⊥ = cc in absurd bad;
}
insert-Insertion k db stamp _ i (inserted o n same claim) = record {
  sound = λ schedules. record {
    keys = (subst (λ x. status_at x db.runs ≡ none) (sym same) n, i.keys);
    once = i.once;
    marked = λ l m. keeps_other k l o db.runs "dispatched" n same (i.marked l m);
  };
  keeps = λ l w h. keeps_other k l o db.runs w n same h;
  new = λ h. (simp (ap (same_key k) same, same_key_refl k, claim) refl, n);
}

absent-not_has :
    (db : Db) (k : Key) (keys : List Key)
    → status_at k db.runs ≡ none
    → AreClaimed db keys
    → has_key k keys ≡ false
absent-not_has db k [] n c = refl
absent-not_has db k (l ∷ keys) n (c, cs) = elim (Bool-cases (same_key k l)) [
  | inl e ↦
      let q : status_at k db.runs ≡ some "claimed" =
        subst (λ x. status_at x db.runs ≡ some "claimed") (sym (same_key→eq k l e)) c in
      let bad : ⊥ = cc (n, q) in absurd bad
  | inr e ↦ simp e (absent-not_has db k keys n cs)
]

claims-kept :
    (db after : Db) (keys : List Key)
    → ((l : Key) (w : String) → status_at l db.runs ≡ some w → status_at l after.runs ≡ some w)
    → AreClaimed db keys
    → AreClaimed after keys
claims-kept db after [] f c = tt
claims-kept db after (k ∷ keys) f (c, cs) = (f k "claimed" c, claims-kept db after keys f cs)

extended :
    (k : Key) (db after : Db) (keys : List Key) (p : List Occurrence × Bool)
    → Insertion k db p
    → after.runs ≡ p.0
    → AreReady db keys
    → AreReady after (if p.1 then keys ++ k ∷ [] else keys)
extended k db after keys p ins same r =
    let kept : AreReady after keys = record {
      distinct = r.distinct;
      claims =
          claims-kept db after keys (λ l w h. ap (status_at l) same ∙ ins.keeps l w h) r.claims;
    } in
    elim (Bool-cases p.1) [
      | inl e ↦
          let (claim, absent) = ins.new e in
          rw e (
            AreReady-snoc after keys k kept (absent-not_has db k keys absent r.claims)
              (ap (status_at k) same ∙ claim))
      | inr e ↦ rw e kept
    ]

-- What the first loop of `tick` leaves.
pub record Claiming (db : Db) (out : Result ScheduleError (List Key) × Db) : Type 0 where
  pub sound : IsSound out.1
  pub keeps : Keeps db out.1
  pub ready : (keys : List Key) → out.0 ≡ ok keys → AreReady out.1 keys

pub claim_all-Claiming :
    (cal : Calendar) (stamp : ℕ) (rows : List Schedule) (claimed : List Key) (db : Db)
    → IsSound db
    → AreReady db claimed
    → Claiming db (claim_all cal stamp rows claimed db)
unfolding claim_all
claim_all-Claiming cal stamp [] claimed db i r = record {
  sound = i;
  keeps = λ l w h ne. h;
  ready = λ keys h. let same : claimed ≡ keys = cc in subst (AreReady db) same r;
}
claim_all-Claiming cal stamp (row ∷ rows) claimed db i r =
    let k : Key = (row.id, row.next_run_at) in
    let p = insert_claim stamp k db.runs in
    let ins : Insertion k db p =
      insert-Insertion k db stamp p i (insert_claim_lem stamp k db.runs) in
    elim (Result-cases (next_run cal row.value.cron row.value.timezone (some stamp))) [
      | inr (e, h) ↦
          simp (claim_all, h)
            (record {
              sound = ins.sound db.schedules;
              keeps = λ l w s ne. ins.keeps l w s;
              ready = λ keys s. let bad : ⊥ = cc in absurd bad;
            })
      | inl (following, h) ↦
          let next : Db = record db {
            runs = p.0;
            schedules = set_schedule row.id (advance stamp row following) db.schedules;
          } in
          let rest =
            claim_all-Claiming cal stamp rows (if p.1 then claimed ++ k ∷ [] else claimed) next
              (ins.sound next.schedules) (extended k db next claimed p ins refl r) in
          simp (claim_all, h)
            (record {
              sound = rest.sound;
              keeps = λ l w s ne. rest.keeps l w (ins.keeps l w s) ne;
              ready = rest.ready;
            })
    ]
