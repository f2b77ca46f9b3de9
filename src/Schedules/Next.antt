-- ===== src/Schedules/Next.antt =====
-- schedules.py: `next_run`. An instant is a number of seconds since the epoch, in the years that
-- `datetime` counts; the search goes by whole minutes.
use mathlib.Core.Path.{subst}
use bastet_agent_os.Prelude.{
  eqb, ℕ, zero, suc, ◌+◌, ◌*◌, ◌/◌, ◌%◌, ◌≤◌, ◌<◌, String, ◌≡◌, ◌⊎◌, inl, inr, refl, Bool, true,
  false, ◌&&◌, ◌||◌, List, [], ◌∷◌, Option, none, some, Result, ok, err, ◌>>=◌, if◌then◌else◌,
  Bool-cases, Option-cases, >>=-eq-ok, ap, ◌∙◌, arith,
}
use bastet_agent_os.Prelude.Text.{codes}
use bastet_agent_os.Schedules.Cron.{
  ScheduleError, unknown_timezone, invalid_timestamp, no_occurrence, Cron, member, words, is_star,
  parse_cron,
}

-- What `candidate.astimezone(zone)` reads as; `weekday` counts from Monday, 0.
pub record LocalTime : Type 0 where
  pub minute : ℕ
  pub hour : ℕ
  pub day : ℕ
  pub month : ℕ
  pub weekday : ℕ

-- A zone tells the local time of each minute since the epoch.
abbrev pub Zone : Type 0
Zone = ℕ → LocalTime

-- What the standard library knows: Unicode's digits and the zones of `zoneinfo`.
pub record Calendar : Type 0 where
  pub digit_of : ℕ → Option ℕ
  pub zones : String → Option Zone

unfoldable pub timezone : Calendar → String → Result ScheduleError Zone
timezone cal name = elim (cal.zones name) [ none ↦ err unknown_timezone | some z ↦ ok z ]

-- `expression.split()[i] == "*"`
unfoldable pub field_is_star : ℕ → List (List ℕ) → Bool
field_is_star i [] = false
field_is_star zero (w ∷ ws) = is_star w
field_is_star (suc i) (w ∷ ws) = field_is_star i ws

unfoldable pub day_matches : Bool → Cron → LocalTime → Bool
day_matches any_day c t =
    let cron_dow = (t.weekday + 1) % 7 in
    if any_day
    then member t.day c.dom && member cron_dow c.dow
    else member t.day c.dom || member cron_dow c.dow

unfoldable pub matches : Bool → Cron → LocalTime → Bool
unfolding day_matches
matches any_day c t =
    member t.minute c.minute
    && member t.hour c.hour
    && member t.month c.month
    && day_matches any_day c t

unfoldable pub max_search_minutes : ℕ
max_search_minutes = 366 * 24 * 60 * 5

-- The loop: the number of minutes still to be tried, and the candidate.
unfoldable pub search : ℕ → (ℕ → Bool) → ℕ → Option ℕ
search zero fits candidate = none
search (suc n) fits candidate =
    let later = search n fits (candidate + 1) in if fits candidate then some candidate else later

-- The loop of a parsed expression, in a known zone, from an instant on.
abbrev pub any_day_of : String → Bool
any_day_of expression =
    field_is_star 2 (words (codes expression)) || field_is_star 4 (words (codes expression))

abbrev pub fits : String → Cron → Zone → ℕ → Bool
fits expression c zone candidate = matches (any_day_of expression) c (zone candidate)

unfoldable pub next_run : Calendar → String → String → Option ℕ → Result ScheduleError ℕ
unfolding timezone parse_cron search matches field_is_star words
next_run cal expression zone_name after = parse_cron cal.digit_of expression >>= (λ c.
    timezone cal zone_name >>= (λ zone. elim after [
      | none ↦ err invalid_timestamp
      | some instant ↦
          elim (search max_search_minutes (fits expression c zone) (instant / 60 + 1)) [
            | none ↦ err no_occurrence
            | some candidate ↦ ok (candidate * 60)
          ]
    ]))

-- The least minute from `from` on that fits.
pub record IsFirst (p : ℕ → Bool) (from found : ℕ) : Type 0 where
  pub starts : from ≤ found
  pub found_fits : p found ≡ true
  pub none_before : (m : ℕ) → from ≤ m → m < found → p m ≡ false

also_first :
    (p : ℕ → Bool) (from end : ℕ)
    → p from ≡ false
    → ((m : ℕ) → from + 1 ≤ m → m < end → p m ≡ false)
    → (m : ℕ) → from ≤ m
    → m < end
    → p m ≡ false
also_first p from end e q m l k = elim (Bool-cases (eqb from m)) [
  | inl same ↦ let h : from ≡ m = ground arith in subst (λ x. p x ≡ false) h e
  | inr other ↦ q m (ground arith) k
]

search_lem :
    (n : ℕ) (p : ℕ → Bool) (from : ℕ)
    → ((search n p from ≡ none) × ((m : ℕ) → from ≤ m → m < from + n → p m ≡ false))
      ⊎ ((found : ℕ) × (search n p from ≡ some found) × (found < from + n) × IsFirst p from found)
unfolding search
search_lem zero p from = inl (refl, λ m l h. let bad : ⊥ = omega arith in absurd bad)
search_lem (suc n) p from = elim (Bool-cases (p from)) [
  | inl e ↦ inr (
    from,
    rw e refl,
    omega arith,
    record {
      starts = omega arith;
      found_fits = e;
      none_before = λ m l h. let bad : ⊥ = omega arith in absurd bad;
    },
  )
  | inr e ↦ elim (search_lem n p (from + 1)) [
    | inl (h, q) ↦ inl (rw e h, λ m l k. also_first p from (from + 1 + n) e q m l (omega arith))
    | inr (found, h, k, first) ↦ inr (
      found,
      rw e h,
      omega arith,
      record {
        starts = omega (arith, first.starts);
        found_fits = first.found_fits;
        none_before = also_first p from _ e first.none_before;
      },
    )
  ]
]

-- What `next_run` returns, for an expression that is parsed, a zone that is known and an instant.
pub data Outcome (p : ℕ → Bool) (from : ℕ) : Result ScheduleError ℕ → Type 0 where
  occurs : (m : ℕ) → m < from + max_search_minutes → IsFirst p from m → Outcome p from (ok (m * 60))
  never :
      ((m : ℕ) → from ≤ m → m < from + max_search_minutes → p m ≡ false)
      → Outcome p from (err no_occurrence)

found_of :
    (p : ℕ → Bool) (from : ℕ)
    → Outcome p from (elim (search max_search_minutes p from) [
      | none ↦ err no_occurrence
      | some m ↦ ok (m * 60)
    ])
found_of p from = elim (search_lem max_search_minutes p from) [
  | inl (h, q) ↦ rw h (never q)
  | inr (m, h, k, first) ↦ rw h (occurs m k first)
]

-- For every expression that `parse_cron` accepts, in every known zone, `next_run` returns the first
-- minute after the instant's own that the expression matches in the zone's local time, if one of the
-- next five years' minutes does, and otherwise raises that there is no occurrence.
pub next_run_lem :
    (cal : Calendar) (expression zone_name : String) (instant : ℕ) (c : Cron) (zone : Zone)
    → parse_cron cal.digit_of expression ≡ ok c
    → cal.zones zone_name ≡ some zone
    → Outcome
        (fits expression c zone)
        (instant / 60 + 1)
        (next_run cal expression zone_name (some instant))
unfolding next_run timezone
next_run_lem cal expression zone_name instant c zone hc hz =
    rw (hc, timezone, hz) (found_of (fits expression c zone) (instant / 60 + 1))

Outcome-later :
    (p : ℕ → Bool) (from t : ℕ) (r : Result ScheduleError ℕ)
    → Outcome p from r
    → r ≡ ok t
    → from * 60 ≤ t
Outcome-later p from t _ (occurs m k first) h =
    let same : m * 60 ≡ t = cc in omega (arith, first.starts)
Outcome-later p from t _ (never q) h = let bad : ⊥ = cc in absurd bad

timezone-eq-ok :
    (cal : Calendar) (name : String) (z : Zone) → timezone cal name ≡ ok z → cal.zones name ≡ some z
unfolding timezone
timezone-eq-ok cal name z h = elim (Option-cases (cal.zones name)) [
  | inl e ↦ let bad : ⊥ = cc (rw (timezone, e) at h) in absurd bad
  | inr (z', e) ↦ let same : z' ≡ z = cc (rw (timezone, e) at h) in e ∙ ap some same
]

-- Whatever `next_run` returns lies after the instant.
pub next_run_later :
    (cal : Calendar) (expression zone_name : String) (instant t : ℕ)
    → next_run cal expression zone_name (some instant) ≡ ok t
    → instant < t
unfolding next_run
next_run_later cal expression zone_name instant t h =
    let (c, hc, h1) = >>=-eq-ok (parse_cron cal.digit_of expression) _ h in
    let (zone, hz, h2) = >>=-eq-ok (timezone cal zone_name) _ h1 in
    omega (
      arith,
      Outcome-later (fits expression c zone) (instant / 60 + 1) t _
          (next_run_lem cal expression zone_name instant c zone hc
            (timezone-eq-ok cal zone_name zone hz))
          h,
    )
