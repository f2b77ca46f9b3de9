-- ===== src/Workflow/Failure.antt =====
-- What `evaluate_gate` of workflow.py reads in the output of a command: `classify_failure` of
-- execution_capabilities.py, and the tail of the output. A text is the list of its code
-- points; of the name of a skill the letters outside ASCII keep their case.
use bastet_agent_os.Prelude.{
  ℕ, zero, suc, ◌-◌, String, Bool, true, false, not, ◌&&◌, ◌||◌, Option, none, some, List, [], ◌∷◌,
  ◌++◌, map, any, keep_if, length, eqb, leb, if◌then◌else◌,
}
use bastet_agent_os.Prelude.Text.{codes, lower_code, is_space, starts_with, occurs_in}

-- The kinds of failure; `business` is the empty text.
pub data FailureKind : Type 0 where
  business llm_credentials browser_playwright : FailureKind
  skill : List ℕ → FailureKind

abbrev drop {ℓ} : {A : Type ℓ} → ℕ → List A → List A
drop zero xs = xs
drop (suc n) [] = []
drop (suc n) (x ∷ xs) = drop n xs

-- `xs[-n:]`
abbrev last {ℓ} : {A : Type ℓ} → ℕ → List A → List A
last n xs = drop (length xs - n) xs

-- `text.split(word, 1)[1]`, of a text that has the word.
unfoldable rest_after : List ℕ → List ℕ → List ℕ
unfolding starts_with
rest_after word [] = []
rest_after word (c ∷ text) =
    let rest = rest_after word text in
    if starts_with word (c ∷ text) then drop (length word) (c ∷ text) else rest

unfoldable skip_spaces : List ℕ → List ℕ
unfolding is_space
skip_spaces [] = []
skip_spaces (c ∷ text) = let rest = skip_spaces text in if is_space c then rest else c ∷ text

unfoldable first_word : List ℕ → List ℕ
unfolding is_space
first_word [] = []
first_word (c ∷ text) = let rest = first_word text in if is_space c then [] else c ∷ rest

-- `.rstrip(";,.：)")`
unfoldable rstrip_marks : List ℕ → List ℕ
rstrip_marks [] = []
rstrip_marks (c ∷ text) = close c (rstrip_marks text)
  where
    close : ℕ → List ℕ → List ℕ
    close c [] = if any (eqb c) (codes ";,.：)") then [] else c ∷ []
    close c (d ∷ rest) = c ∷ d ∷ rest

-- The skill that a word names; there may be none after `skill:`, an IndexError.
abbrev skill_of : List ℕ → Option FailureKind
skill_of [] = none
skill_of (c ∷ word) = some (skill (rstrip_marks (c ∷ word)))

unfoldable skill_in : List ℕ → Option FailureKind
unfolding rest_after skip_spaces first_word rstrip_marks
skill_in lowered = skill_of (first_word (skip_spaces (rest_after (codes "skill:") lowered)))

abbrev browser_words : List String
browser_words = "chrome" ∷ "chromium" ∷ "playwright" ∷ "crashpad" ∷ "browser" ∷ []

abbrev browser_failure_markers : List String
browser_failure_markers =
    "crashpad setsockopt" ∷ "browser has been closed" ∷ "browser executable doesn't exist"
    ∷ "executable doesn't exist at" ∷ "failed to launch chromium" ∷ "failed to launch chrome"
    ∷ "playwright install" ∷ "operation not permitted" ∷ "sigtrap" ∷ []

abbrev has : List ℕ → String → Bool
has lowered word = occurs_in (codes word) lowered

-- `none` is the IndexError.
unfoldable pub classify_failure : List ℕ → Option FailureKind
unfolding occurs_in lower_code skill_in
classify_failure text =
    let lowered = map lower_code text in
    if has lowered "no api key found for the selected model"
      || (has lowered "log into a provider" && has lowered "api key")
    then some llm_credentials
    else if has lowered "capability_unavailable" && has lowered "browser.playwright"
    then some browser_playwright
    else if has lowered "capability_unavailable" && has lowered "skill:"
    then skill_in lowered
    else if any (has lowered) browser_words && any (has lowered) browser_failure_markers
    then some browser_playwright
    else some business

-- The line boundaries of `str.splitlines`.
unfoldable is_break : ℕ → Bool
is_break c =
    (leb 0xa c && leb c 0xd)
    || (leb 0x1c c && leb c 0x1e)
    || eqb c 0x85
    || eqb c 0x2028
    || eqb c 0x2029

abbrev onto_first : ℕ → List (List ℕ) → List (List ℕ)
onto_first c [] = (c ∷ []) ∷ []
onto_first c (line ∷ lines) = (c ∷ line) ∷ lines

-- `output.splitlines()`; a carriage return before a line feed ends no line of its own.
unfoldable splitlines : List ℕ → List (List ℕ)
unfolding is_break starts_with
splitlines [] = []
splitlines (c ∷ text) =
    let rest = splitlines text in
    if eqb c 0xd && starts_with (0xa ∷ []) text
    then rest
    else if is_break c
    then [] ∷ rest
    else onto_first c rest

abbrev keep_right : ℕ → List ℕ → List ℕ
keep_right c [] = if is_space c then [] else c ∷ []
keep_right c (d ∷ rest) = c ∷ d ∷ rest

unfoldable rstrip_spaces : List ℕ → List ℕ
unfolding is_space
rstrip_spaces [] = []
rstrip_spaces (c ∷ text) = keep_right c (rstrip_spaces text)

abbrev is_empty_line : List ℕ → Bool
is_empty_line [] = true
is_empty_line (c ∷ line) = false

abbrev last_of : List (List ℕ) → List ℕ
last_of [] = []
last_of (line ∷ []) = line
last_of (line ∷ next ∷ lines) = last_of (next ∷ lines)

-- `lines[-1] if lines else ""`, of the stripped lines that are not blank.
unfoldable pub last_line : List ℕ → List ℕ
unfolding splitlines skip_spaces rstrip_spaces
last_line output = last_of (
    keep_if (λ l. not (is_empty_line l))
      (map (λ l. rstrip_spaces (skip_spaces l)) (splitlines output)))

unfoldable join_lines : List (List ℕ) → List ℕ
join_lines [] = []
join_lines (line ∷ []) = line
join_lines (line ∷ next ∷ lines) = line ++ 10 ∷ join_lines (next ∷ lines)

abbrev is_failure_line : List ℕ → Bool
is_failure_line line = any (λ w. starts_with (codes w) line) ("not ok " ∷ "FAILED " ∷ "ERROR " ∷ [])

abbrev output_tail : ℕ
output_tail = 8000

-- The tail of the output, before which the last lines that report failures stand where it has none.
unfoldable pub tail_of : List ℕ → List ℕ
unfolding splitlines join_lines starts_with occurs_in
tail_of output =
    let tail = last output_tail output in
    let failure_lines = keep_if is_failure_line (splitlines output) in
    if any (λ l. true) failure_lines && not (any (λ l. occurs_in l tail) failure_lines)
    then codes "Failure summary:\n" ++ join_lines (last 20 failure_lines) ++ codes "\n…\n" ++ tail
    else tail
