-- ===== src/TaskPlan/Ids.antt =====
-- project_lifecycle.py: `_task_id` and the pattern of a task's id.
use Prim.Native.Char.{Char, code}
use Prim.Native.String.{◌++◌}
use bastet_agent_os.Prelude.{
  ℕ, zero, suc, ◌+◌, ◌-◌, ◌/◌, ◌%◌, String, Bool, true, false, ◌&&◌, ◌||◌, List, Option, none, some,
  ◌==◌, leb, ltb, eqb, contains, length, if◌then◌else◌,
}

-- The decimal digits of a number; the first argument of the loop is fuel.
abbrev pub digit : ℕ → Char
digit zero = "0"
digit (suc zero) = "1"
digit (suc (suc zero)) = "2"
digit (suc (suc (suc zero))) = "3"
digit (suc (suc (suc (suc zero)))) = "4"
digit (suc (suc (suc (suc (suc zero))))) = "5"
digit (suc (suc (suc (suc (suc (suc zero)))))) = "6"
digit (suc (suc (suc (suc (suc (suc (suc zero))))))) = "7"
digit (suc (suc (suc (suc (suc (suc (suc (suc zero)))))))) = "8"
digit (suc (suc (suc (suc (suc (suc (suc (suc (suc n))))))))) = "9"

unfoldable pub decimal_onto : ℕ → ℕ → String → String
decimal_onto zero n text = text
decimal_onto (suc fuel) n text =
    let more = decimal_onto fuel (n / 10) (String.◌∷◌ (digit (n % 10)) text) in
    if ltb n 10 then String.◌∷◌ (digit n) text else more

unfoldable pub decimal : ℕ → String
unfolding decimal_onto
decimal n = decimal_onto (suc n) n ""

-- The lower case of a character where it is one of `a-z0-9`; that of U+0130 is an `i` with another
-- character after it.
abbrev lower_letters : ℕ → Char
lower_letters i = Prim.Native.String.char_at "abcdefghijklmnopqrstuvwxyz" i

unfoldable pub slug_char : Char → Option Char
slug_char c =
    if (leb b'a' (code c) && leb (code c) b'z') || (leb b'0' (code c) && leb (code c) b'9')
    then some c
    else if leb b'A' (code c) && leb (code c) b'Z'
    then some (lower_letters (code c - b'A'))
    else if eqb (code c) 0x212a
    then some "k"
    else if eqb (code c) 0x130
    then some "i"
    else none

-- `re.sub(r"[^a-z0-9]+", "-", value.lower()).strip("-")`. The two flags say whether something was
-- written, and whether other characters came since.
unfoldable pub slug_from : Bool → Bool → String → String
unfolding slug_char
slug_from started apart String.[] = String.[]
slug_from started apart (String.◌∷◌ c s) =
    let skipped = slug_from started true s in
    let written = slug_from true (eqb (code c) 0x130) s in
    elim (slug_char c) [
      | none ↦ skipped
      | some d ↦
          if started && apart then String.◌∷◌ "-" (String.◌∷◌ d written) else String.◌∷◌ d written
    ]

-- `text[:n]`
unfoldable pub first_chars : ℕ → String → String
first_chars zero s = String.[]
first_chars (suc n) String.[] = String.[]
first_chars (suc n) (String.◌∷◌ c s) = String.◌∷◌ c (first_chars n s)

unfoldable pub base_of : String → ℕ → String
unfolding slug_from first_chars decimal
base_of value index =
    let base = first_chars 48 (slug_from false false value) in
    if base == "" then "task-" ++ decimal (index + 1) else base

abbrev pub suffixed : String → ℕ → String
suffixed base suffix = base ++ ("-" ++ decimal suffix)

-- The loop over the suffixes; the first argument is fuel, and `none` says that it ran out.
unfoldable pub pick : ℕ → String → ℕ → String → List String → Option String
unfolding decimal
pick zero base suffix candidate used = none
pick (suc fuel) base suffix candidate used =
    let next = pick fuel base (suffix + 1) (suffixed base suffix) used in
    if contains candidate used then next else some candidate

-- `_task_id`
unfoldable pub task_id : String → ℕ → List String → Option String
unfolding base_of pick
task_id value index used =
    let base = base_of value index in pick (suc (suc (length used))) base 2 base used

-- `re.fullmatch(r"[A-Za-z0-9][A-Za-z0-9_.-]{0,63}", node_id)`
abbrev pub is_alnum : Char → Bool
is_alnum c =
    (leb b'0' (code c) && leb (code c) b'9')
    || (leb b'A' (code c) && leb (code c) b'Z')
    || (leb b'a' (code c) && leb (code c) b'z')

abbrev pub is_id_char : Char → Bool
is_id_char c = is_alnum c || eqb (code c) b'_' || eqb (code c) b'.' || eqb (code c) b'-'

-- At most so many further characters, all of the class.
unfoldable pub rest_is_id : ℕ → String → Bool
rest_is_id n String.[] = true
rest_is_id zero (String.◌∷◌ c s) = false
rest_is_id (suc n) (String.◌∷◌ c s) = let rest = rest_is_id n s in is_id_char c && rest

unfoldable pub is_task_id : String → Bool
unfolding rest_is_id
is_task_id String.[] = false
is_task_id (String.◌∷◌ c s) = is_alnum c && rest_is_id 63 s
