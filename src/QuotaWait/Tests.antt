-- ===== src/QuotaWait/Tests.antt =====
-- A failure that names three o'clock in the afternoon of a zone eight hours ahead, and one that names
-- no time, both seen an hour after the epoch.
use mathlib.Core.Path.{subst}
use bastet_agent_os.Prelude.{
  sym, ap, ◌∙◌, ℕ, ◌+◌, ◌-◌, ◌/◌, String, ◌≡◌, refl, true, Option, none, some, ◌==◌, if◌then◌else◌,
  arith,
}
use bastet_agent_os.QuotaWait.{
  Reset, ZoneClock, is_quota_failure, is_credit_exhausted, clock_of, hour_of, zone_of, parse_reset,
  a_second, safety_margin,
}
use bastet_agent_os.QuotaWait.Bounds.{
  IsNext, IsSoon, IsSteady, parse_reset-IsNext, parse_reset-bounded,
}

abbrev eight_hours : ℕ
eight_hours = 28800000000

abbrev ahead : ZoneClock
ahead = record { to_wall = λ instant. instant + eight_hours; of_wall = λ wall. wall - eight_hours }

abbrev zones : String → Option ZoneClock
zones name = if name == "Asia/Taipei" then some ahead else none

abbrev three : Reset
three = record { hour = 3; minute = none; meridiem = some "PM"; zone_name = some "Asia/Taipei" }

abbrev message : String
message = "You've hit your Session limit · resets 3PM (Asia/Taipei)"

abbrev find : String → Option Reset
find text = if text == message then some three else none

abbrev an_hour : ℕ
an_hour = 3600000000

message-is_quota_failure : is_quota_failure message ≡ true
unfolding is_quota_failure
message-is_quota_failure = refl

three-clock_of : clock_of three ≡ some 900
unfolding clock_of hour_of
three-clock_of = refl

stated : parse_reset find zones message an_hour ≡ some 25380
unfolding parse_reset
stated = refl

unstated : parse_reset find zones "429 Too Many Requests" an_hour ≡ some 5400
unfolding parse_reset
unstated = refl

other_failure : parse_reset find zones "Segmentation fault" an_hour ≡ none
unfolding parse_reset
other_failure = refl

depleted : is_credit_exhausted "402 Payment Required: balance exhausted" ≡ true
unfolding is_credit_exhausted
depleted = refl

zone_of-three : zone_of zones three ≡ ahead
unfolding zone_of
zone_of-three = refl

ahead-IsSteady : IsSteady an_hour ahead
ahead-IsSteady later h = ground arith

found-IsSteady : (r : Reset) → find message ≡ some r → IsSteady an_hour (zone_of zones r)
found-IsSteady r h =
    let same : three ≡ r = cc in
    let e : zone_of zones r ≡ ahead = sym (ap (zone_of zones) same) ∙ zone_of-three in
    subst (IsSteady an_hour) (sym e) ahead-IsSteady

parse_reset-IsNext_example :
    let zone = zone_of zones three in
    (reading : ℕ) × IsNext 900 (zone.to_wall an_hour) reading
    × (parse_reset find zones message an_hour
        ≡ some (zone.of_wall (reading + safety_margin) / a_second))
parse_reset-IsNext_example =
    parse_reset-IsNext find zones message an_hour three 900 message-is_quota_failure refl
      three-clock_of

parse_reset-bounded_example : IsSoon an_hour 25380
parse_reset-bounded_example =
    parse_reset-bounded find zones message an_hour 25380 found-IsSteady stated

-- A depleted balance is a wait all the same.
depleted_waits : parse_reset find zones "Credit balance is too low" an_hour ≡ some 5400
unfolding parse_reset
depleted_waits = refl
