-- ===== src/Workflow/Item.antt =====
-- The body of the first loop of `parse_stages`: one item of the template is checked, and becomes a
-- `StageDef`.
use bastet_agent_os.Prelude.{
  ℕ, String, Bool, true, false, not, Option, none, some, List, [], ◌∷◌, map, Result, ok, err, ◌>>=◌,
  ◌>>◌, raise_if, contains, dedup, keep_if, any, all, ◌==◌, leb, if◌then◌else◌,
}
use bastet_agent_os.Prelude.Int.{ℤ, pos, negsuc}
use bastet_agent_os.Prelude.Text.{strip}
use bastet_agent_os.Workflow.Json.{
  Float, Scalar, text, Value, list, Field, missing, null, given, get_default, get, truthy, or_empty,
  lookup, as_number, is_finite,
}
use bastet_agent_os.Workflow.Stage.{
  RawStage, StageDef, gate_types, metric_operators, known_delivery_modes, on_fail_policies,
  workspaces, default_max_cycles, ParseError, no_name, duplicate_name, unknown_gate, no_command,
  bad_operator, bad_threshold, infinite_threshold, bad_on_fail, bad_requires, bad_needs,
  bad_workspace, bad_exchanges, bad_delivery_modes, bad_ids, not_an_integer,
}

-- A list of which every element is a text; anything else is refused.
as_texts : List Scalar → Option (List String)
as_texts [] = some []
as_texts (text s ∷ xs) = elim (as_texts xs) [ none ↦ none | some ss ↦ some (s ∷ ss) ]
as_texts (x ∷ xs) = none

text_list : Value → Option (List String)
unfolding as_texts
text_list (list xs) = as_texts xs
text_list _ = none

is_blank : String → Bool
unfolding strip
is_blank s = strip s == ""

-- `not isinstance(v, list) or any(not isinstance(x, str) or not x.strip() for x in v)` raises; the
-- ids are stripped, each once.
unfoldable pub parse_ids : ParseError → Field Value → Result ParseError (List String)
unfolding text_list or_empty is_blank
parse_ids e field = elim (text_list (or_empty field)) [
  | none ↦ err e
  | some ids ↦ if any is_blank ids then err e else ok (dedup (map strip ids))
]

-- `needs`: blank entries are dropped, and a legacy item without the key follows the one before it.
unfoldable pub parse_needs :
    String → Bool → Option String → Field Value → Result ParseError (List String)
unfolding text_list is_blank
parse_needs name graph_native previous (given v) = elim (text_list v) [
  | none ↦ err (bad_needs name)
  | some ids ↦ ok (dedup (map strip (keep_if (λ d. not (is_blank d)) ids)))
]
parse_needs name true previous _ = ok []
parse_needs name false none _ = ok []
parse_needs name false (some before) _ =
    ok (dedup (map strip (keep_if (λ d. not (is_blank d)) (before ∷ []))))

unfoldable pub parse_delivery_modes : String → Field Value → Result ParseError (List String)
unfolding text_list or_empty
parse_delivery_modes name field = elim (text_list (or_empty field)) [
  | none ↦ err (bad_delivery_modes name)
  | some modes ↦
      if all (λ m. contains m known_delivery_modes) modes
      then ok (dedup modes)
      else err (bad_delivery_modes name)
]

-- `item.get("gate_config") or {}`
abbrev pub config_of : Field (List (String × Scalar)) → List (String × Scalar)
config_of (given config) = config
config_of _ = []

unfoldable pub check_threshold : String → Option Float → Result ParseError (Unit {0})
check_threshold name none = err (bad_threshold name)
check_threshold name (some x) = raise_if (not (is_finite x)) (infinite_threshold name)

unfoldable pub is_operator : Scalar → Bool
is_operator (text op) = contains op metric_operators
is_operator _ = false

-- What a gate type asks of its configuration.
unfoldable pub check_gate_config :
    String → String → List (String × Scalar) → Result ParseError (Unit {0})
unfolding check_threshold is_operator truthy lookup as_number is_finite
check_gate_config name gate config =
    let has_command = truthy (lookup "command" config) in
    if gate == "tests-pass"
    then raise_if (not has_command) (no_command name)
    else if gate == "metric-threshold"
    then (do
      raise_if (not has_command) (no_command name)
      raise_if (not (is_operator (lookup "operator" config))) (bad_operator name)
      check_threshold name (as_number (lookup "threshold" config)))
    else ok tt

-- A text field that must be one of the known words.
unfoldable pub one_of : ParseError → List String → Option String → Result ParseError String
one_of e known none = err e
one_of e known (some word) = if contains word known then ok word else err e

-- `int(item.get(key, default))`
unfoldable pub to_int : ParseError → Option ℤ → Result ParseError ℤ
to_int e none = err e
to_int e (some n) = ok n

-- `not 0 <= n <= 5` raises.
unfoldable pub exchanges : String → ℤ → Result ParseError ℕ
exchanges name (pos n) = if leb n 5 then ok n else err (bad_exchanges name)
exchanges name (negsuc n) = err (bad_exchanges name)

-- `max(0, int(item.get("timeout_s", 0) or 0))`
unfoldable pub timeout_of : Field ℤ → ℕ
timeout_of (given (pos n)) = n
timeout_of _ = 0

-- `bool(item.get(key, default))`
unfoldable pub flag : Field Scalar → Bool → Bool
unfolding truthy
flag missing d = d
flag null d = false
flag (given s) d = truthy s

-- `name = item.get("name")`, which must be there, not empty, and new.
unfoldable pub parse_name : ℕ → List String → Option String → Result ParseError String
parse_name i seen none = err (no_name i)
parse_name i seen (some name) =
    if name == ""
    then err (no_name i)
    else if contains name seen
    then err (duplicate_name name)
    else ok name

unfoldable pub parse_item :
    Bool → ℕ → Option String → List String → RawStage → Result ParseError StageDef
parse_item graph_native i previous seen item = do
  name ← parse_name i seen (get item.name)
  gate ← one_of (unknown_gate name) gate_types (get_default item.gate "auto")
  check_gate_config name gate (config_of item.gate_config)
  on_fail ← one_of (bad_on_fail name) on_fail_policies (get_default item.on_fail "rework")
  requires ← parse_ids (bad_requires name) item.requires
  needs ← parse_needs name graph_native previous item.needs
  workspace ← one_of (bad_workspace name) workspaces (get_default item.workspace "shared")
  asked ←
      to_int (not_an_integer name "max_challenge_exchanges")
        (get_default item.max_challenge_exchanges (pos 5))
  limit ← exchanges name asked
  produces ← parse_ids (bad_ids name "produces") item.produces
  consumes ← parse_ids (bad_ids name "consumes") item.consumes
  evidence ← parse_ids (bad_ids name "evidence") item.evidence
  delivery_modes ← parse_delivery_modes name item.delivery_modes
  max_retries ← to_int (not_an_integer name "max_retries") (get_default item.max_retries (pos 0))
  max_cycles ←
      to_int (not_an_integer name "max_cycles")
        (get_default item.max_cycles (pos default_max_cycles))
  ok (record {
    name = name;
    role = get item.role;
    gate = gate;
    gate_config = config_of item.gate_config;
    read_only = flag item.read_only false;
    isolation = get_default item.isolation "worktree";
    max_retries = max_retries;
    on_fail = on_fail;
    rework_target = elim (get item.rework_target) [ none ↦ "" | some t ↦ t ];
    max_cycles = max_cycles;
    timeout_s = timeout_of item.timeout_s;
    requires = requires;
    needs = needs;
    produces = produces;
    consumes = consumes;
    evidence = evidence;
    challenge = flag item.challenge true;
    max_challenge_exchanges = limit;
    workspace = workspace;
    delivery_modes = delivery_modes;
  })
