-- ===== src/Workflow/Stage.antt =====
-- `StageDef` of workflow.py, the fields that a template gives for one, and what `parse_stages` raises.
use bastet_agent_os.Prelude.{
  ℕ, suc, ◌+◌, String, Bool, Option, none, some, List, [], ◌∷◌, ◌==◌, length, if◌then◌else◌,
}
use bastet_agent_os.Prelude.Int.{ℤ}
use bastet_agent_os.Workflow.Json.{Scalar, Value, Field}
use bastet_agent_os.Graph.{Graph, ancestors}
use bastet_agent_os.Graph.Rounds.{edges}

-- One item of the template's list. The fields are typed as `StageDef` declares them, but for the
-- lists of ids, whose elements the parser checks.
pub record RawStage : Type 0 where
  pub name : Field String
  pub role : Field String
  pub gate : Field String
  pub gate_config : Field (List (String × Scalar))
  pub read_only : Field Scalar
  pub isolation : Field String
  pub max_retries : Field ℤ
  pub on_fail : Field String
  pub rework_target : Field String
  pub max_cycles : Field ℤ
  pub timeout_s : Field ℤ
  pub requires : Field Value
  pub needs : Field Value
  pub produces : Field Value
  pub consumes : Field Value
  pub evidence : Field Value
  pub challenge : Field Scalar
  pub max_challenge_exchanges : Field ℤ
  pub workspace : Field String
  pub delivery_modes : Field Value

pub record StageDef : Type 0 where
  pub name : String
  pub role : Option String
  pub gate : String
  pub gate_config : List (String × Scalar)
  pub read_only : Bool
  pub isolation : Option String
  pub max_retries : ℤ
  pub on_fail : String
  pub rework_target : String
  pub max_cycles : ℤ
  pub timeout_s : ℕ
  pub requires : List String
  pub needs : List String
  pub produces : List String
  pub consumes : List String
  pub evidence : List String
  pub challenge : Bool
  pub max_challenge_exchanges : ℕ
  pub workspace : String
  pub delivery_modes : List String

abbrev pub gate_types : List String
gate_types = "auto" ∷ "tests-pass" ∷ "metric-threshold" ∷ "agent-review" ∷ "human-approve" ∷ []

abbrev pub metric_operators : List String
metric_operators = ">=" ∷ ">" ∷ "<=" ∷ "<" ∷ "==" ∷ []

abbrev pub known_delivery_modes : List String
known_delivery_modes = "branch" ∷ "integration" ∷ "production" ∷ []

abbrev pub on_fail_policies : List String
on_fail_policies = "rework" ∷ "block" ∷ []

abbrev pub workspaces : List String
workspaces = "shared" ∷ "isolated" ∷ []

abbrev pub default_max_cycles : ℕ
default_max_cycles = 3

-- `ValueError` with its message, by kind: the stage, then what else the message names.
-- `not_an_integer` is the `TypeError` of `int(None)`.
pub data ParseError : Type 0 where
  no_stages : ParseError
  no_name : ℕ → ParseError
  duplicate_name unknown_gate no_command bad_operator bad_threshold infinite_threshold :
      String → ParseError
  bad_on_fail bad_requires bad_needs bad_workspace bad_exchanges bad_delivery_modes :
      String → ParseError
  bad_ids not_an_integer : String → String → ParseError
  unknown_target self_dependency not_a_sink : String → ParseError
  unknown_dependencies : String → List String → ParseError
  cycle : String → ParseError
  recursion_limit : ParseError
  no_producer not_from_dependency shared_checkout : String → String → ParseError

abbrev pub names : List StageDef → List String
names [] = []
names (s ∷ stages) = s.name ∷ names stages

-- `by_name[name].needs`
abbrev pub needs_of : List StageDef → Graph
needs_of [] name = []
needs_of (s ∷ stages) name = if s.name == name then s.needs else needs_of stages name

-- `ancestry[name]`, with fuel for every edge of the graph.
unfoldable pub ancestry : List StageDef → String → List String
unfolding ancestors
ancestry stages name =
    let g = needs_of stages in
    let fuel = suc (length (g name) + edges g (names stages)) in
    elim (ancestors g fuel name) [ none ↦ [] | some found ↦ found ]
