-- ===== src/Schedules/Tests.antt =====
-- A schedule at half past nine on weekdays, in a zone that is UTC from an epoch on a Thursday.
use bastet_agent_os.Prelude.{
  ℕ, ◌+◌, ◌-◌, ◌/◌, ◌%◌, ◌≡◌, refl, ◌&&◌, [], ◌∷◌, Option, none, some, ok, err, leb, if◌then◌else◌,
  ◌==◌,
}
use bastet_agent_os.Schedules.Cron.{value_outside, Cron, parse_cron}
use bastet_agent_os.Schedules.Next.{
  Zone, Calendar, next_run, max_search_minutes, Outcome, fits, next_run_lem,
}
use bastet_agent_os.Schedules.Cron.Bounds.{IsCalendar, parse_cron-IsCalendar}

abbrev ascii_digit : ℕ → Option ℕ
ascii_digit c = if leb b'0' c && leb c b'9' then some (c - b'0') else none

abbrev utc : Zone
utc m = record {
  minute = m % 60;
  hour = m / 60 % 24;
  day = 1 + m / 1440 % 31;
  month = 1;
  weekday = (m / 1440 + 3) % 7;
}

abbrev pub calendar : Calendar
calendar = record {
  digit_of = ascii_digit;
  zones = λ name. if name == "UTC" then some utc else none;
}

abbrev weekdays : Cron
weekdays = record {
  minute = 30 ∷ [];
  hour = 9 ∷ [];
  dom = 1 ∷ [];
  month = 1 ∷ 2 ∷ 3 ∷ 4 ∷ 5 ∷ 6 ∷ 7 ∷ 8 ∷ 9 ∷ 10 ∷ 11 ∷ 12 ∷ [];
  dow = 1 ∷ 2 ∷ 3 ∷ 4 ∷ 5 ∷ [];
}

parsed : parse_cron ascii_digit "30 9 1 * 1-5" ≡ ok weekdays
unfolding parse_cron
parsed = refl

past_six : parse_cron ascii_digit "0 0 * * 5-8" ≡ err (value_outside 0 7)
unfolding parse_cron
past_six = refl

parse_cron-IsCalendar_example : IsCalendar weekdays
parse_cron-IsCalendar_example = parse_cron-IsCalendar ascii_digit "30 9 1 * 1-5" weekdays parsed

-- Of the first of the month or a weekday, whichever comes first: here the epoch's own Thursday.
first_run : next_run calendar "30 9 1 * 1-5" "UTC" (some 0) ≡ ok 34200
unfolding next_run max_search_minutes
first_run = refl

next_run_lem_example :
    Outcome
      (fits "30 9 1 * 1-5" weekdays utc)
      (0 / 60 + 1)
      (next_run calendar "30 9 1 * 1-5" "UTC" (some 0))
next_run_lem_example = next_run_lem calendar "30 9 1 * 1-5" "UTC" 0 weekdays utc parsed refl
