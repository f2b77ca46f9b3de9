-- ===== src/QuotaWait/Bounds.antt =====
-- quota_wait.py: when a wait for the vendor's quota ends.
use bastet_agent_os.Prelude.{
  ℕ, ◌+◌, ◌-◌, ◌*◌, ◌/◌, ◌%◌, ◌≤◌, ◌<◌, String, ◌≡◌, refl, true, Option, some, arith, inl, inr,
  Bool-cases, Option-cases,
}
use bastet_agent_os.QuotaWait.{
  Reset, ZoneClock, is_quota_failure, clock_of, zone_of, next_at, lifted, parse_reset, a_second,
  a_minute, a_day, default_backoff, safety_margin,
}

-- The first reading of the clock after `now` that shows the minute `clock` of a day.
abbrev pub IsNext : ℕ → ℕ → ℕ → Type 0
IsNext clock now reading =
    (now < reading) × (reading ≤ now + a_day) × (reading % a_day ≡ clock * a_minute)

clock_of-bounded : (r : Reset) (clock : ℕ) → clock_of r ≡ some clock → clock < 1440
unfolding clock_of
clock_of-bounded r clock h = ground arith

next_at-IsNext : (clock now : ℕ) → clock < 1440 → IsNext clock now (next_at clock now)
unfolding next_at
next_at-IsNext clock now h = (ground arith, ground arith, ground arith)

-- A wait until the stated time is never over the cap.
lifted-next_at :
    (clock now : ℕ) → clock < 1440 → lifted clock now ≡ next_at clock now + safety_margin
unfolding lifted
lifted-next_at clock now h = let (above, below, shown) = next_at-IsNext clock now h in ground arith

-- A failure that states a time of the day waits until that time next comes on the clock of the zone
-- it names, and for the margin of three minutes more. The cap on the wait never takes effect.
pub parse_reset-IsNext :
    (find : String → Option Reset) (zones : String → Option ZoneClock) (text : String) (now : ℕ)
    (r : Reset) (clock : ℕ)
    → is_quota_failure text ≡ true
    → find text ≡ some r
    → clock_of r ≡ some clock
    → let zone = zone_of zones r in
      (reading : ℕ) × IsNext clock (zone.to_wall now) reading
      × (parse_reset find zones text now ≡ some (zone.of_wall (reading + safety_margin) / a_second))
unfolding parse_reset
parse_reset-IsNext find zones text now r clock q f c =
    let zone = zone_of zones r in
    let bound = clock_of-bounded r clock c in
    (
      next_at clock (zone.to_wall now),
      next_at-IsNext clock (zone.to_wall now) bound,
      simp (parse_reset, q, f, c, lifted-next_at clock (zone.to_wall now) bound) refl,
    )

-- From an instant on, for as long as a wait can last, the zone's clock is not set.
abbrev pub IsSteady : ℕ → ZoneClock → Type 0
IsSteady now zone =
    (later : ℕ)
    → later ≤ a_day + safety_margin
    → zone.of_wall (zone.to_wall now + later) ≡ now + later

-- A result that lies a wait of at least a second, and at most a day and the margin, after `now`.
abbrev pub IsSoon : ℕ → ℕ → Type 0
IsSoon now resume_at =
    (now < resume_at * a_second) × (resume_at * a_second ≤ now + a_day + safety_margin)

IsSoon-after :
    (now wait resume_at : ℕ)
    → safety_margin ≤ wait
    → wait ≤ a_day + safety_margin
    → ◌≡◌ {A = Option ℕ} (some ((now + wait) / a_second)) (some resume_at)
    → IsSoon now resume_at
IsSoon-after now wait resume_at low high h =
    let e : (now + wait) / a_second ≡ resume_at = cc in (ground arith, ground arith)

-- Where the clock of the zone that the message names is not set within a day and the margin of three
-- minutes from the present instant, a wait ends after that instant, and at most so long after it.
pub parse_reset-bounded :
    (find : String → Option Reset) (zones : String → Option ZoneClock) (text : String)
    (now resume_at : ℕ)
    → ((r : Reset) → find text ≡ some r → IsSteady now (zone_of zones r))
    → parse_reset find zones text now ≡ some resume_at
    → IsSoon now resume_at
unfolding parse_reset
parse_reset-bounded find zones text now resume_at steady h =
    elim (Bool-cases (is_quota_failure text)) [
      | inr q ↦ let bad : ⊥ = cc (simp (parse_reset, q) at h) in absurd bad
      | inl q ↦ elim (Option-cases (find text)) [
        | inl f ↦
            IsSoon-after now default_backoff resume_at (ground arith) (ground arith)
              (simp (parse_reset, q, f) at h)
        | inr (r, f) ↦ elim (Option-cases (clock_of r)) [
          | inl c ↦
              IsSoon-after now default_backoff resume_at (ground arith) (ground arith)
                (simp (parse_reset, q, f, c) at h)
          | inr (clock, c) ↦
              let zone = zone_of zones r in
              let wall = zone.to_wall now in
              let bound = clock_of-bounded r clock c in
              let (above, below, shown) = next_at-IsNext clock wall bound in
              let wait = next_at clock wall - wall + safety_margin in
              let split : wall + wait ≡ lifted clock wall =
                ground (arith, lifted-next_at clock wall bound, above) in
              let lands : zone.of_wall (lifted clock wall) ≡ now + wait =
                rw (split) at (steady r f wait (ground arith)) in
              IsSoon-after now wait resume_at (ground arith) (ground arith)
                (simp (parse_reset, q, f, c, lands) at h)
        ]
      ]
    ]
