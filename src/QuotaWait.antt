-- ===== src/QuotaWait.antt =====
-- quota_wait.py: what a failed attempt says about the vendor's quota, and when to try again. The
-- search for `_RESET_RE` is an argument, as are the time zones. Instants are microseconds since the
-- epoch, and a reading of a wall clock is microseconds since a midnight; the result is in seconds.
pub mod Bounds
mod Tests
use bastet_agent_os.Prelude.{
  ℕ, ◌+◌, ◌-◌, ◌*◌, ◌/◌, String, Bool, true, false, not, ◌&&◌, List, [], ◌∷◌, map, Option, none,
  some, any, leb, ltb, eqb, ◌==◌, if◌then◌else◌,
}
use bastet_agent_os.Prelude.Text.{codes, lower_code, strip, nonempty, occurs_in, same_codes}

abbrev quota_markers : List String
quota_markers =
    "session limit" ∷ "usage limit" ∷ "rate limit" ∷ "quota exceeded" ∷ "hit your limit"
    ∷ "limit reached" ∷ "too many requests" ∷ "overloaded" ∷ "capacity"
    ∷ "credit balance is too low" ∷ []

abbrev credit_markers : List String
credit_markers =
    "payment required" ∷ "402" ∷ "balance exhausted" ∷ "insufficient credit" ∷ "insufficient funds"
    ∷ "credit balance is too low" ∷ "billing" ∷ "out of credits" ∷ "no credits" ∷ "purchase more"
    ∷ []

abbrev lowered : String → List ℕ
lowered text = map lower_code (codes text)

abbrev has_marker : List String → String → Bool
has_marker markers text = any (λ m. occurs_in (codes m) (lowered text)) markers

unfoldable pub is_quota_failure : String → Bool
unfolding occurs_in lower_code
is_quota_failure text = has_marker quota_markers text

unfoldable pub is_credit_exhausted : String → Bool
unfolding occurs_in lower_code
is_credit_exhausted text = has_marker credit_markers text

-- The groups of a match of `_RESET_RE`: the first two are digits, read as numbers.
pub record Reset : Type 0 where
  pub hour : ℕ
  pub minute : Option ℕ
  pub meridiem : Option String
  pub zone_name : Option String

-- `astimezone(zone)` of an instant, and `astimezone(UTC)` of a reading of the zone's clock.
pub record ZoneClock : Type 0 where
  pub to_wall : ℕ → ℕ
  pub of_wall : ℕ → ℕ

abbrev pub utc : ZoneClock
utc = record { to_wall = λ instant. instant; of_wall = λ wall. wall }

abbrev pub a_second : ℕ
a_second = 1000000

abbrev pub a_minute : ℕ
a_minute = 60000000

abbrev pub a_day : ℕ
a_day = 86400000000

abbrev pub default_backoff : ℕ
default_backoff = 1800000000

abbrev pub safety_margin : ℕ
safety_margin = 180000000

abbrev pub max_wait : ℕ
max_wait = 93600000000

abbrev group_text : Option String → String
group_text none = ""
group_text (some s) = s

abbrev or_zero : Option ℕ → ℕ
or_zero none = 0
or_zero (some n) = n

-- `(match.group(3) or "").lower() == word`
unfoldable is_meridiem : String → Option String → Bool
unfolding lower_code same_codes
is_meridiem word meridiem = same_codes (lowered (group_text meridiem)) (codes word)

-- The hour on the clock of 24 hours: the second `if` reads the hour that the first one leaves.
unfoldable pub hour_of : Reset → ℕ
unfolding is_meridiem
hour_of r =
    let later = if is_meridiem "pm" r.meridiem && ltb r.hour 12 then r.hour + 12 else r.hour in
    if is_meridiem "am" r.meridiem && eqb later 12 then 0 else later

-- The minute of the day that the message states, or `none` where no clock shows it.
unfoldable pub clock_of : Reset → Option ℕ
unfolding hour_of
clock_of r =
    if leb (hour_of r) 23 && leb (or_zero r.minute) 59
    then some (hour_of r * 60 + or_zero r.minute)
    else none

-- The zone that the message names, where it is available.
unfoldable pub zone_of : (String → Option ZoneClock) → Reset → ZoneClock
unfolding strip
zone_of zones r =
    let name = strip (group_text r.zone_name) in
    if nonempty name then elim (zones name) [ none ↦ utc | some z ↦ z ] else utc

-- `local.replace(hour=hour, minute=minute, second=0, microsecond=0)`, or a day later.
unfoldable pub next_at : ℕ → ℕ → ℕ
next_at clock now =
    let candidate = now / a_day * a_day + clock * a_minute in
    if leb candidate now then candidate + a_day else candidate

-- The instant, on a zone's own clock, until which a failure with a stated time waits.
unfoldable pub lifted : ℕ → ℕ → ℕ
unfolding next_at
lifted clock now =
    let candidate = next_at clock now + safety_margin in
    if ltb max_wait (candidate - now) then now + default_backoff else candidate

unfoldable pub parse_reset :
    (String → Option Reset) → (String → Option ZoneClock) → String → ℕ → Option ℕ
unfolding is_quota_failure clock_of zone_of lifted
parse_reset find zones text now = if not (is_quota_failure text) then none else elim (find text) [
  | none ↦ some ((now + default_backoff) / a_second)
  | some r ↦ elim (clock_of r) [
    | none ↦ some ((now + default_backoff) / a_second)
    | some clock ↦
        let zone = zone_of zones r in
        some (zone.of_wall (lifted clock (zone.to_wall now)) / a_second)
  ]
]
