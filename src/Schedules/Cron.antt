-- ===== src/Schedules/Cron.antt =====
-- schedules.py: `_values` and `parse_cron`. A text is the list of its code points.
pub mod Ranges
pub mod Bounds
use bastet_agent_os.Prelude.{
  ℕ, zero, suc, ◌+◌, ◌*◌, ◌-◌, String, Bool, true, false, not, ◌&&◌, ◌||◌, List, [], ◌∷◌, ◌++◌, map,
  Option, none, some, Result, ok, err, ◌>>=◌, ◌>>◌, raise_if, leb, eqb, any, keep_if, length,
  if◌then◌else◌,
}
use bastet_agent_os.Prelude.Int.{ℤ, pos, negsuc, pos_part, neg_part, ltz}
use bastet_agent_os.Prelude.Text.{codes, is_space}

pub data ScheduleError : Type 0 where
  empty_field invalid_step step_not_positive invalid_range invalid_value : ScheduleError
  value_outside : ℕ → ℕ → ScheduleError
  not_five_fields unknown_timezone invalid_timestamp no_occurrence : ScheduleError
  name_required prompt_required timeout_outside : ScheduleError
  agent_not_found template_not_found : ScheduleError
  project_not_found schedule_not_found occurrence_exists : ScheduleError

-- The pieces of `text.split(sep)`, where the test tells the separators.
abbrev pub prepend : ℕ → List (List ℕ) → List (List ℕ)
prepend c [] = (c ∷ []) ∷ []
prepend c (piece ∷ pieces) = (c ∷ piece) ∷ pieces

unfoldable pub split_by : (ℕ → Bool) → List ℕ → List (List ℕ)
split_by is_sep [] = [] ∷ []
split_by is_sep (c ∷ text) =
    let rest = split_by is_sep text in if is_sep c then [] ∷ rest else prepend c rest

abbrev is_empty : List ℕ → Bool
is_empty [] = true
is_empty (_ ∷ _) = false

-- `text.split()`
unfoldable pub words : List ℕ → List (List ℕ)
unfolding split_by is_space
words text = keep_if (λ w. not (is_empty w)) (split_by is_space text)

-- `text.partition(sep)`: `none` where the separator does not occur.
unfoldable pub partition : ℕ → List ℕ → Option (List ℕ × List ℕ)
partition sep [] = none
partition sep (c ∷ text) =
    let rest = partition sep text in
    if eqb c sep
    then some ([], text)
    else elim rest [ none ↦ none | some (before, behind) ↦ some (c ∷ before, behind) ]

-- `text == "*"`
abbrev pub is_star : List ℕ → Bool
is_star [] = false
is_star (c ∷ text) = eqb c b'*' && is_empty text

-- `int(text)` of a text without white space. The decimal digit that a character is comes from
-- Unicode's table, an argument. Single underscores may stand between digits, and a text with more
-- digits than `sys.get_int_max_str_digits()` is not read.
abbrev max_str_digits : ℕ
max_str_digits = 4300

unfoldable pub read_digits : (ℕ → Option ℕ) → ℕ → Bool → List ℕ → Option ℕ
read_digits digit_of read after_digit [] = if after_digit then some read else none
read_digits digit_of read after_digit (c ∷ text) =
    let skipped = read_digits digit_of read false text in
    elim (digit_of c) [
      | none ↦ if eqb c b'_' && after_digit then skipped else none
      | some d ↦ read_digits digit_of (read * 10 + d) true text
    ]

unfoldable pub read_natural : (ℕ → Option ℕ) → List ℕ → Option ℕ
unfolding read_digits
read_natural digit_of text =
    if leb (length (keep_if (λ c. not (eqb c b'_')) text)) max_str_digits
    then read_digits digit_of 0 false text
    else none

abbrev negate : ℕ → ℤ
negate zero = pos 0
negate (suc n) = negsuc n

abbrev map_read : (ℕ → ℤ) → Option ℕ → Option ℤ
map_read f none = none
map_read f (some n) = some (f n)

unfoldable pub to_int : (ℕ → Option ℕ) → List ℕ → Option ℤ
unfolding read_natural
to_int digit_of [] = none
to_int digit_of (c ∷ text) =
    if eqb c b'-'
    then map_read negate (read_natural digit_of text)
    else if eqb c b'+'
    then map_read pos (read_natural digit_of text)
    else map_read pos (read_natural digit_of (c ∷ text))

-- `try: ... except ValueError: raise e`
abbrev or_raise : {A : Type 0} → ScheduleError → Option A → Result ScheduleError A
or_raise e none = err e
or_raise e (some a) = ok a

-- `part.partition("/")` with its step: the base, whether there is a slash, and the step.
unfoldable pub step_of : (ℕ → Option ℕ) → List ℕ → Result ScheduleError (List ℕ × Bool × ℤ)
unfolding partition to_int
step_of digit_of part = elim (partition b'/' part) [
  | none ↦ ok (part, false, pos 1)
  | some (base, step_text) ↦
      or_raise invalid_step (to_int digit_of step_text) >>= (λ step. ok (base, true, step))
]

-- The first and last value that a base names.
unfoldable pub range_of : (ℕ → Option ℕ) → ℕ → ℕ → List ℕ → Bool → Result ScheduleError (ℤ × ℤ)
unfolding partition to_int
range_of digit_of minimum maximum base slash =
    if is_star base then ok (pos minimum, pos maximum) else elim (partition b'-' base) [
      | some (start_text, end_text) ↦
          or_raise invalid_range (to_int digit_of start_text) >>= (λ start.
            or_raise invalid_range (to_int digit_of end_text) >>= (λ end. ok (start, end)))
      | none ↦
          or_raise invalid_value (to_int digit_of base)
          >>= (λ start. ok (start, if slash then pos maximum else start))
    ]

-- `range(start, end + 1, step)`; the first argument is fuel.
unfoldable pub range_by : ℕ → ℕ → ℕ → ℕ → List ℕ
range_by zero start end step = []
range_by (suc fuel) start end step =
    let rest = range_by fuel (start + step) end step in if leb start end then start ∷ rest else []

-- What one part of a field adds to the values.
unfoldable pub part_values : (ℕ → Option ℕ) → ℕ → ℕ → List ℕ → Result ScheduleError (List ℕ)
unfolding step_of range_of range_by
part_values digit_of minimum maximum part = step_of digit_of part >>= (λ (base, slash, step).
    raise_if (ltz step (pos 1)) step_not_positive
    >> (range_of digit_of minimum maximum base slash >>= (λ (start, end).
        raise_if (ltz start (pos minimum) || ltz (pos maximum) end || ltz end start)
          (value_outside minimum maximum)
        >> ok (
            range_by (suc (pos_part end - pos_part start)) (pos_part start) (pos_part end)
              (pos_part step)))))

unfoldable pub all_values : (ℕ → Option ℕ) → ℕ → ℕ → List (List ℕ) → Result ScheduleError (List ℕ)
unfolding part_values
all_values digit_of minimum maximum [] = ok []
all_values digit_of minimum maximum (part ∷ parts) =
    part_values digit_of minimum maximum part
    >>= (λ vs. all_values digit_of minimum maximum parts >>= (λ rest. ok (vs ++ rest)))

abbrev pub member : ℕ → List ℕ → Bool
member n = any (eqb n)

-- Day 7 of a week is the Sunday, day 0.
unfoldable pub fold_sunday : List ℕ → List ℕ
fold_sunday values = if member 7 values then 0 ∷ keep_if (λ v. not (eqb v 7)) values else values

-- `_values`: the set of a field's values, as a list.
unfoldable pub values_of : (ℕ → Option ℕ) → ℕ → ℕ → Bool → List ℕ → Result ScheduleError (List ℕ)
unfolding all_values split_by fold_sunday
values_of digit_of minimum maximum sunday raw =
    raise_if (is_empty raw) empty_field
    >> (all_values digit_of minimum maximum (split_by (λ c. eqb c b',') raw)
        >>= (λ values. ok (if sunday then fold_sunday values else values)))

pub record Cron : Type 0 where
  pub minute : List ℕ
  pub hour : List ℕ
  pub dom : List ℕ
  pub month : List ℕ
  pub dow : List ℕ

unfoldable pub parse_fields : (ℕ → Option ℕ) → List (List ℕ) → Result ScheduleError Cron
unfolding values_of
parse_fields digit_of (f0 ∷ f1 ∷ f2 ∷ f3 ∷ f4 ∷ []) =
    values_of digit_of 0 59 false f0 >>= (λ minute. values_of digit_of 0 23 false f1 >>= (λ hour.
      values_of digit_of 1 31 false f2 >>= (λ dom. values_of digit_of 1 12 false f3 >>= (λ month.
        values_of digit_of 0 7 true f4 >>= (λ dow.
          ok (record { minute = minute; hour = hour; dom = dom; month = month; dow = dow }))))))
parse_fields digit_of _ = err not_five_fields

unfoldable pub parse_cron : (ℕ → Option ℕ) → String → Result ScheduleError Cron
unfolding words parse_fields
parse_cron digit_of expression = parse_fields digit_of (words (codes expression))
