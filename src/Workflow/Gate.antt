-- ===== src/Workflow/Gate.antt =====
-- `evaluate_gate` of workflow.py. What running the stage's command gave is an argument, and so is the
-- library's part: `loads` is `json.loads`. The texts of the outcomes are left out. `none` is an error
-- that the source lets through: a KeyError, a TypeError, an IndexError, an OverflowError, or what
-- `subprocess.run` and `json.loads` raise and no clause names.
pub mod Passes
pub mod Runs
mod Tests
use bastet_agent_os.Prelude.{
  ℕ, suc, ◌-◌, ◌^◌, leb, String, ◌==◌, Bool, true, false, not, ◌&&◌, ◌||◌, Option, none, some, List,
  [], ◌∷◌, map, any, eqb, if◌then◌else◌,
}
use Prim.Native.String.{◌++◌}
use bastet_agent_os.Prelude.Int.{ℤ, pos, negsuc}
use bastet_agent_os.Prelude.Text.{codes, lower_code, occurs_in, same_codes}
use bastet_agent_os.Workflow.Failure.{
  FailureKind, business, llm_credentials, browser_playwright, skill, classify_failure, tail_of,
  last_line,
}
use bastet_agent_os.Workflow.Json.{
  Float, finite, Scalar, null, bool, int, float, text, nested, lookup, is_finite, float_lt, truthy,
}
use bastet_agent_os.Workflow.Stage.{StageDef}

pub record GateOutcome : Type 0 where
  pub verdict : String
  pub config_error : Bool
  pub failure_kind : FailureKind

abbrev pub outcome : String → Bool → FailureKind → GateOutcome
outcome verdict config_error failure_kind = record {
  verdict = verdict;
  config_error = config_error;
  failure_kind = failure_kind;
}

-- What `subprocess.run` gave: an OSError or a timeout; another error, such as the TypeError for a command
-- that is no text; or the return code and the two outputs.
pub data Proc : Type 0 where
  not_run refused : Proc
  exited : ℤ → String → String → Proc

abbrev pub unavailable_markers : List String
unavailable_markers =
    "missing script" ∷ "command not found" ∷ "no such file or directory"
    ∷ "is not recognized as an internal or external command" ∷ "can't open file" ∷ "no module named"
    ∷ "executable file not found" ∷ "unknown command" ∷ []

abbrev pub is_code : ℤ → ℕ → Bool
is_code (pos n) k = eqb n k
is_code (negsuc n) k = false

unfoldable pub has_key : String → List (String × Scalar) → Bool
has_key key config = any (λ e. e.0 == key) config

-- The comparison of the operator's name; a name that is no operator is a KeyError.
unfoldable pub holds : String → Float → Float → Option Bool
holds operator a b =
    if operator == ">="
    then some (not (float_lt a b))
    else if operator == ">"
    then some (float_lt b a)
    else if operator == "<="
    then some (not (float_lt b a))
    else if operator == "<"
    then some (float_lt a b)
    else if operator == "=="
    then some (not (float_lt a b) && not (float_lt b a))
    else none

-- What `json.loads` gave: an error that the source names, or a value without the keys of an object;
-- an error that it does not name, such as the RecursionError for a deep nesting; or an object.
pub data Loaded : Type 0 where
  unreadable exhausted : Loaded
  loaded : List (String × Scalar) → Loaded

-- What the checks of a receipt's value make of it: a ValueError or the like, which the source catches,
-- an error that it does not catch, or the number.
pub data Reading : Type 0 where
  malformed uncaught : Reading
  number : Float → Reading

abbrev pub magnitude : ℤ → ℕ
magnitude (pos n) = n
magnitude (negsuc n) = suc n

-- Whether `math.isfinite` raises an OverflowError: the whole number rounds to none that a float holds.
unfoldable pub is_too_large : ℤ → Bool
is_too_large n = leb (2 ^ 1024 - 2 ^ 970) (magnitude n)

unfoldable pub number_of : Scalar → Reading
unfolding is_too_large
number_of (int n) = if is_too_large n then uncaught else number (finite n 0)
number_of (float x) = if is_finite x then number x else malformed
number_of _ = malformed

-- The number of a receipt's `value`; a missing one is a KeyError, which is caught.
unfoldable pub value_of : Loaded → Reading
value_of unreadable = malformed
value_of exhausted = uncaught
value_of (loaded fields) = number_of (lookup "value" fields)

unfoldable pub operator_of : Scalar → Option String
operator_of (text op) = some op
operator_of _ = none

-- What a number can be compared with: a number, or a truth value, which counts as 0 or 1.
unfoldable pub comparable : Scalar → Option Float
comparable (bool b) = some (finite (pos (if b then 1 else 0)) 0)
comparable (int n) = some (finite n 0)
comparable (float x) = some x
comparable _ = none

-- `passed = {...}[operator]` with the configured operator and threshold, for a value.
unfoldable pub compare_with : List (String × Scalar) → Float → Option GateOutcome
compare_with config value = elim (operator_of (lookup "operator" config)) [
  | none ↦ none
  | some op ↦ elim (comparable (lookup "threshold" config)) [
    | none ↦ none
    | some threshold ↦ elim (holds op value threshold) [
      | none ↦ none
      | some b ↦ some (outcome (if b then "passed" else "failed") false business)
    ]
  ]
]

-- `str(verdict).lower() == "approve"`: of the values only a text can be it.
unfoldable pub is_approval : Scalar → Bool
unfolding same_codes
is_approval (text s) = same_codes (map lower_code (codes s)) (codes "approve")
is_approval _ = false

-- `for r in structured_verdict.get("reasons", []) or []`: a number or `true` cannot be iterated.
unfoldable pub is_iterable : Scalar → Bool
unfolding truthy
is_iterable (bool b) = not b
is_iterable (int n) = not (truthy (int n))
is_iterable (float x) = not (truthy (float x))
is_iterable _ = true

-- The review gate: no verdict, or an empty one, is a rejection.
unfoldable pub review_outcome : Option (List (String × Scalar)) → Option GateOutcome
review_outcome none = some (outcome "failed" false business)
review_outcome (some []) = some (outcome "failed" false business)
review_outcome (some (f ∷ fields)) =
    if is_iterable (lookup "reasons" (f ∷ fields))
    then some (
        outcome (if is_approval (lookup "verdict" (f ∷ fields)) then "passed" else "failed") false
          business)
    else none

-- `_command_unavailable`
unfoldable pub command_unavailable : ℤ → List ℕ → Bool
unfolding occurs_in lower_code
command_unavailable code output =
    is_code code 126
    || is_code code 127
    || any (λ m. occurs_in (codes m) (map lower_code output)) unavailable_markers

abbrev pub judge_failure : ℤ → List ℕ → FailureKind → GateOutcome
judge_failure code output business =
    outcome "failed" (command_unavailable code (tail_of output)) business
judge_failure code output llm_credentials = outcome "failed" false llm_credentials
judge_failure code output browser_playwright = outcome "failed" false browser_playwright
judge_failure code output (skill name) = outcome "failed" false (skill name)

abbrev pub judge_tests : ℤ → List ℕ → FailureKind → GateOutcome
judge_tests code output kind =
    if is_code code 0 then outcome "passed" false business else judge_failure code output kind

unfoldable pub tests_outcome : Proc → Option GateOutcome
tests_outcome not_run = some (outcome "failed" true business)
tests_outcome refused = none
tests_outcome (exited code out err_out) = elim (classify_failure (codes (out ++ err_out))) [
  | none ↦ none
  | some kind ↦ some (judge_tests code (codes (out ++ err_out)) kind)
]

module _ (loads : List ℕ → Loaded) where
  unfoldable pub metric_outcome : List (String × Scalar) → Proc → Option GateOutcome
  metric_outcome config not_run = some (outcome "failed" true business)
  metric_outcome config refused = none
  metric_outcome config (exited code out err_out) =
      if not (is_code code 0)
      then some (outcome "failed" false business)
      else elim (value_of (loads (last_line (codes out)))) [
        | uncaught ↦ none
        | malformed ↦ some (outcome "failed" true business)
        | number value ↦ compare_with config value
      ]

  unfoldable pub evaluate_gate :
      String → List (String × Scalar) → Proc → Option (List (String × Scalar)) → Option GateOutcome
  evaluate_gate gate config proc structured_verdict =
      if gate == "auto"
      then some (outcome "passed" false business)
      else if gate == "tests-pass"
      then (if has_key "command" config then tests_outcome proc else none)
      else if gate == "metric-threshold"
      then (if has_key "command" config then metric_outcome config proc else none)
      else if gate == "agent-review"
      then review_outcome structured_verdict
      else if gate == "human-approve"
      then some (outcome "pending" false business)
      else some (outcome "failed" false business)
