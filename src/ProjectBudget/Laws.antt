-- ===== src/ProjectBudget/Laws.antt =====
-- project_budget.py: when new work is admitted, and the receipts of the pauses.
use mathlib.Core.Path.{subst}
use bastet_agent_os.Prelude.{
  ℕ, ◌<◌, String, ◌≡◌, refl, sym, ap, ◌∙◌, ◌↔◌, inl, inr, eq_refl, true, false, List, [], ◌∷◌, map,
  Option, none, some, Result, ok, >>=-eq-ok, any, eqb, find_first, Option-cases, Bool-cases, arith,
  ◌==◌,
}
use bastet_agent_os.ProjectBudget.{
  ProjectBudgetError, ZoneLookup, Pause, Db, Status, Event, no_event, is_exceeded, is_pause,
  is_open, resumed, spent_since, status, status_of, validate, record_pause, sync_pause,
  require_available,
}

-- No limit, or one that the spending has not reached.
abbrev pub IsBelow : Option ℕ → ℕ → Type 0
IsBelow none spent = Unit
IsBelow (some limit) spent = spent < limit

IsBelow-exceeded : (l : Option ℕ) (spent : ℕ) → (is_exceeded l spent ≡ false) ↔ IsBelow l spent
IsBelow-exceeded none spent = (λ h. tt, λ h. refl)
IsBelow-exceeded (some limit) spent = (λ h. ground arith, λ h. ground arith)

resumed-closed :
    (project_id : String) (now : ℕ) (pauses : List Pause)
    → any (is_open project_id) (map (resumed project_id now) pauses) ≡ false
resumed-closed project_id now [] = refl
resumed-closed project_id now (p ∷ pauses) = elim (Bool-cases (is_open project_id p)) [
  | inl e ↦ simp (e) (ground (arith, resumed-closed project_id now pauses))
  | inr e ↦ simp (e, e) (resumed-closed project_id now pauses)
]

eqb_refl : (n : ℕ) → eqb n n ≡ true
eqb_refl n = ground arith

record_pause-again :
    (a b : String) (now later : ℕ) (project_id : String) (v : Status) (db : Db)
    → let after = (record_pause a now project_id v db).1 in
      record_pause b later project_id v after ≡ (no_event, after)
unfolding record_pause
record_pause-again a b now later project_id v db = elim (Bool-cases v.exceeded) [
  | inl e ↦ elim (Bool-cases (any (is_pause project_id v.period_start) db.pauses)) [
    | inl p ↦ simp (record_pause, e, p, e, p) refl
    | inr p ↦ simp (record_pause, e, p, e, eq_refl project_id, eqb_refl v.period_start) refl
  ]
  | inr e ↦ elim (Bool-cases (any (is_open project_id) db.pauses)) [
    | inl p ↦ simp (record_pause, e, p, e, resumed-closed project_id now db.pauses) refl
    | inr p ↦ simp (record_pause, e, p, e, p) refl
  ]
]

ok-inj : {A : Type 0} {a b : A} → ◌≡◌ {A = Result ProjectBudgetError A} (ok a) (ok b) → a ≡ b
ok-inj h = cc

-- The status reads neither the pauses nor the audit log.
record_pause-status :
    (round : ℕ → ℕ) (zones : String → ZoneLookup) (window : String → ℕ × ℕ) (a : String) (now : ℕ)
    (project_id id : String) (v : Status) (db : Db)
    → status round zones window id (record_pause a now project_id v db).1
      ≡ status round zones window id db
unfolding record_pause status status_of spent_since
record_pause-status round zones window a now project_id id v db = elim (Bool-cases v.exceeded) [
  | inl e ↦ elim (Bool-cases (any (is_pause project_id v.period_start) db.pauses)) [
    | inl p ↦ simp (record_pause, e, p) refl
    | inr p ↦ simp (record_pause, e, p) refl
  ]
  | inr e ↦ elim (Bool-cases (any (is_open project_id) db.pauses)) [
    | inl p ↦ simp (record_pause, e, p) refl
    | inr p ↦ simp (record_pause, e, p) refl
  ]
]

sync_pause_lem :
    (round : ℕ → ℕ) (zones : String → ZoneLookup) (window : String → ℕ × ℕ) (b : String) (later : ℕ)
    (project_id : String) (w : Status) (db : Db)
    → status round zones window project_id db ≡ ok w
    → let (event, after) = record_pause b later project_id w db in
      sync_pause round zones window b later project_id db ≡ ok (w, event, after)
unfolding sync_pause
sync_pause_lem round zones window b later project_id w db h = rw (sync_pause, h) refl

-- While the day and the spending stay as they are, a second `sync_pause`, by whomever and whenever,
-- returns the same status and no event, and leaves all tables: a pause and a resumption are told once.
pub sync_pause-again :
    (round : ℕ → ℕ) (zones : String → ZoneLookup) (window : String → ℕ × ℕ) (a b : String)
    (now later : ℕ) (project_id : String) (v : Status) (event : Event) (db after : Db)
    → sync_pause round zones window a now project_id db ≡ ok (v, event, after)
    → sync_pause round zones window b later project_id after ≡ ok (v, no_event, after)
unfolding sync_pause
sync_pause-again round zones window a b now later project_id v event db after h =
    let (w, e, same) = >>=-eq-ok (status round zones window project_id db) _ h in
    let p : w ≡ v = cc in
    let q : (record_pause a now project_id w db).1 ≡ after = cc in
    let next = (record_pause a now project_id w db).1 in
    subst (λ x. sync_pause round zones window b later project_id x ≡ ok (v, no_event, x)) q
      (subst (λ x. sync_pause round zones window b later project_id next ≡ ok (x, no_event, next)) p
        (sync_pause_lem round zones window b later project_id w next
            (record_pause-status round zones window a now project_id project_id w db ∙ e)
          ∙ ap (λ (out : Event × Db). ok (w, out.0, out.1))
              (record_pause-again a b now later project_id w db)))

exceeded-status :
    (round : ℕ → ℕ) (zones : String → ZoneLookup) (window : String → ℕ × ℕ) (project_id : String)
    (db : Db) (v : Status)
    → status round zones window project_id db ≡ ok v
    → v.exceeded ≡ is_exceeded v.limit_usd (spent_since db project_id v.period_start)
unfolding status status_of
exceeded-status round zones window project_id db v h =
    elim (Option-cases (find_first (λ p. p.id == project_id) db.projects)) [
      | inl e ↦ let bad : ⊥ = cc (simp (status, e) at h) in absurd bad
      | inr (p, e) ↦ elim (Option-cases p.config) [
        | inl c ↦ let bad : ⊥ = cc (simp (status, e, c) at h) in absurd bad
        | inr (config, c) ↦
            let (checked, _, out) =
              >>=-eq-ok (validate zones config.daily_cost_limit_usd config.daily_cost_timezone) _
                (simp (status, e, c) at h) in
            let same = ok-inj out in
            subst
              (λ (x : Status).
                x.exceeded ≡ is_exceeded x.limit_usd (spent_since db project_id x.period_start))
              same refl
      ]
    ]

-- Where the status can be read, new work is admitted exactly when there is no limit, or the spending of
-- the project since the start of its day, before it is rounded for the report, has not reached it.
pub require_available_iff :
    (round : ℕ → ℕ) (zones : String → ZoneLookup) (window : String → ℕ × ℕ) (now : ℕ)
    (project_id : String) (db : Db) (v : Status)
    → status round zones window project_id db ≡ ok v
    → ((require_available round zones window now project_id db).0 ≡ ok tt)
      ↔ IsBelow v.limit_usd (spent_since db project_id v.period_start)
unfolding require_available sync_pause
require_available_iff round zones window now project_id db v h =
    let same = exceeded-status round zones window project_id db v h in
    let (f, g) = IsBelow-exceeded v.limit_usd (spent_since db project_id v.period_start) in
    elim (Bool-cases v.exceeded) [
      | inl e ↦
          simp (require_available, sync_pause, h, e)
            (
              λ x. let bad : ⊥ = cc in absurd bad,
              λ b. let bad : ⊥ = cc (e, same, g b) in absurd bad,
            )
      | inr e ↦ simp (require_available, sync_pause, h, e) (λ x. f (sym same ∙ e), λ b. refl)
    ]
