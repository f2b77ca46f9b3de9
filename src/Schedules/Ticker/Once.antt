-- ===== src/Schedules/Ticker/Once.antt =====
-- schedules.py: an occurrence is dispatched at most once.
use mathlib.Core.Path.{subst}
use bastet_agent_os.Prelude.{
  ℕ, suc, ◌≤◌, String, ◌≡◌, ◌≢◌, refl, sym, ap, ◌∙◌, inl, inr, eq_iff, Bool, false, ◌&&◌, List, [],
  ◌∷◌, none, some, eqb, ◌==◌, Bool-cases, Option-cases, find_first, arith, if◌then◌else◌,
}
use bastet_agent_os.Schedules.Store.{JobRow, Entry, Db}
use bastet_agent_os.Schedules.Ticker.Dispatch.{
  Key, same_key, status_at, set_run, Ending, skipped, failed, ended, finish, Answer, dispatched,
  fenced, raised, Orchestrator, sent, settle, dispatch, is_closed, is_active, agent_for,
}
use bastet_agent_os.Schedules.Ticker.Rows.{
  same_key→eq, HasKeys, status_at-set_other, status_at-set_self, set_run-HasKeys,
}

-- How often the audit log says that the occurrence was dispatched.
abbrev pub is_sent : Key → Entry → Bool
is_sent k e =
    e.action == "schedule.dispatched"
    && elim e.scheduled_for [ none ↦ false | some t ↦ same_key k (e.schedule_id, t) ]

unfoldable pub times_sent : Key → List Entry → ℕ
times_sent k [] = 0
times_sent k (e ∷ log) = let rest = times_sent k log in if is_sent k e then suc rest else rest

-- The keys are distinct, and what was dispatched was so once, and has a row that says so.
pub record IsSound (db : Db) : Type 0 where
  pub keys : HasKeys db.runs
  pub once : (k : Key) → times_sent k db.log ≤ 1
  pub marked : (k : Key) → times_sent k db.log ≢ 0 → status_at k db.runs ≡ some "dispatched"

abbrev pub IsClaimed : Db → Key → Type 0
IsClaimed db k = status_at k db.runs ≡ some "claimed"

abbrev claimed_word : String
claimed_word = "claimed"

not_claimed : claimed_word ≢ "dispatched"
not_claimed h = ground (arith, eq_iff "claimed" "dispatched", h)

claimed-not_sent : (db : Db) (k : Key) → IsSound db → IsClaimed db k → times_sent k db.log ≡ 0
claimed-not_sent db k i c = elim (Bool-cases (eqb (times_sent k db.log) 0)) [
  | inl e ↦ ground arith
  | inr e ↦ let row = i.marked k (ground arith) in absurd (not_claimed (cc (c, row)))
]

-- What a dispatch of one claimed occurrence keeps.
pub record Step (k : Key) (db after : Db) : Type 0 where
  pub sound : IsSound after
  pub others : (l : Key) → same_key l k ≡ false → status_at l after.runs ≡ status_at l db.runs

finish-log :
    (clock : ℕ) (k : Key) (e : Ending) (error : String) (db : Db) (l : Key)
    → times_sent l (finish clock k e error db).log ≡ times_sent l db.log
unfolding finish times_sent
finish-log clock k skipped error db l = refl
finish-log clock k failed error db l = refl

finish-Step :
    (clock : ℕ) (k : Key) (e : Ending) (error : String) (db : Db)
    → IsSound db
    → IsClaimed db k
    → Step k db (finish clock k e error db)
unfolding finish times_sent
finish-Step clock k e error db i c = record {
  sound = record {
    keys = set_run-HasKeys k (ended clock e error) db.runs (λ o. refl) i.keys;
    once = λ l. subst (λ n. n ≤ 1) (sym (same l)) (i.once l);
    marked = λ l n. elim (Bool-cases (same_key l k)) [
      | inl here ↦
          let p : l ≡ k = same_key→eq l k here in
          let bad : ⊥ =
            n (same l ∙ (ap (λ x. times_sent x db.log) p ∙ claimed-not_sent db k i c)) in
          absurd bad
      | inr there ↦
          status_at-set_other k l (ended clock e error) db.runs (λ o. refl) there
          ∙ i.marked l (λ h. n (same l ∙ h))
    ];
  };
  others = λ l ne. status_at-set_other k l (ended clock e error) db.runs (λ o. refl) ne;
}
  where
    same : (l : Key) → times_sent l (finish clock k e error db).log ≡ times_sent l db.log
    same l = finish-log clock k e error db l

sent-log :
    (k l : Key) (log : List Entry)
    → times_sent l (
        record {
          actor = "scheduler";
          action = "schedule.dispatched";
          schedule_id = k.0;
          scheduled_for = some k.1;
        }
        ∷ log)
      ≡ (if same_key l k then suc (times_sent l log) else times_sent l log)
unfolding times_sent
sent-log k l log = refl

settle-Step :
    (clock : ℕ) (k : Key) (a : Answer) (db : Db)
    → IsSound db
    → IsClaimed db k
    → Step k db (settle clock k a db).1
unfolding settle
settle-Step clock k fenced db i c = record { sound = i; others = λ l ne. refl }
settle-Step clock k (raised text) db i c = finish-Step clock k failed text db i c
settle-Step clock k (dispatched job_id) db i c = record {
  sound = record {
    keys = set_run-HasKeys k (sent clock job_id) db.runs (λ o. refl) i.keys;
    once = λ l. elim (Bool-cases (same_key l k)) [
      | inl here ↦
          let p : l ≡ k = same_key→eq l k here in
          rw (sent-log k l db.log, here)
            (omega (arith, ap (λ x. times_sent x db.log) p, claimed-not_sent db k i c))
      | inr there ↦ rw (sent-log k l db.log, there) (i.once l)
    ];
    marked = λ l n. elim (Bool-cases (same_key l k)) [
      | inl here ↦
          let p : l ≡ k = same_key→eq l k here in
          subst (λ x. status_at x (set_run k (sent clock job_id) db.runs) ≡ some "dispatched")
            (sym p)
            (status_at-set_self k (sent clock job_id) "dispatched" "claimed" db.runs (λ o. refl)
              (λ o. refl) c)
      | inr there ↦
          status_at-set_other k l (sent clock job_id) db.runs (λ o. refl) there
          ∙ i.marked l (rw (sent-log k l db.log, there) at n)
    ];
  };
  others = λ l ne. status_at-set_other k l (sent clock job_id) db.runs (λ o. refl) ne;
}

pub dispatch-Step :
    (orchestrator : Orchestrator) (clock : ℕ) (k : Key) (db : Db)
    → IsSound db
    → IsClaimed db k
    → Step k db (dispatch orchestrator clock k db).1
unfolding dispatch
dispatch-Step orchestrator clock k db i c =
    elim (Option-cases (find_first (λ s. s.id == k.0 && s.value.enabled) db.schedules)) [
      | inl e ↦ simp (dispatch, e) (finish-Step clock k skipped _ db i c)
      | inr (s, e) ↦ elim (Bool-cases (is_closed s.project_id db)) [
        | inl closed ↦ simp (dispatch, e, closed) (finish-Step clock k skipped _ db i c)
        | inr open_project ↦ elim (Bool-cases (is_active s.last_job_id db.jobs)) [
          | inl active ↦
              simp (dispatch, e, open_project, active) (finish-Step clock k skipped _ db i c)
          | inr idle ↦ elim (Bool-cases (agent_for db s == "")) [
            | inl nobody ↦
                simp (dispatch, e, open_project, idle, nobody) (finish-Step clock k failed _ db i c)
            | inr agent ↦ simp (dispatch, e, open_project, idle, agent) (answered _ _)
          ]
        ]
      ]
    ]
  where
    answered :
        (a : Answer) (jobs : List JobRow)
        → Step k db (settle clock k a (record db { jobs = jobs })).1
    answered a jobs =
        let step =
          settle-Step clock k a (record db { jobs = jobs })
            (record { keys = i.keys; once = i.once; marked = i.marked }) c in
        record { sound = step.sound; others = step.others }
