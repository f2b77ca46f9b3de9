-- ===== src/Workflow/Parse.antt =====
-- `parse_stages` of workflow.py: the loop over the items, then the checks of the whole graph.
pub mod Items
pub mod Checks
pub mod WellFormed
pub mod Cycles
use bastet_agent_os.Prelude.{
  ℕ, zero, suc, ◌+◌, String, ◌≡◌, Bool, true, false, not, ◌&&◌, ◌||◌, Option, none, some, List, [],
  ◌∷◌, map, ◌++◌, Result, ok, err, ◌>>=◌, ◌>>◌, raise_if, for_each, contains, keep_if, any, all,
  ◌==◌, length, if◌then◌else◌,
}
use bastet_agent_os.Prelude.Text.{nonempty}
use bastet_agent_os.Graph.{VisitError, cycle_at, exhausted, check_cycles}
use bastet_agent_os.Workflow.Json.{Field, is_present}
use bastet_agent_os.Workflow.Stage.{
  RawStage, StageDef, ParseError, no_stages, unknown_target, self_dependency, not_a_sink,
  unknown_dependencies, cycle, recursion_limit, no_producer, not_from_dependency, shared_checkout,
  names, needs_of, ancestry,
}
use bastet_agent_os.Workflow.Item.{parse_item}

-- `stages[i - 1].name`
abbrev pub last_name : List String → Option String
last_name [] = none
last_name (name ∷ _) = some name

-- The first loop. `seen` are the names of the stages so far, the last one first.
unfoldable pub parse_items :
    Bool → ℕ → List String → List RawStage → Result ParseError (List StageDef)
unfolding parse_item
parse_items graph_native i seen [] = ok []
parse_items graph_native i seen (item ∷ items) = do
  stage ← parse_item graph_native i (last_name seen) seen item
  stages ← parse_items graph_native (suc i) (stage.name ∷ seen) items
  ok (stage ∷ stages)

-- The second loop: rework targets and dependencies are stages, and no stage needs itself.
unfoldable pub check_references : List String → StageDef → Result ParseError (Unit {0})
check_references known stage =
    let unknown = keep_if (λ d. not (contains d known)) stage.needs in
    raise_if (nonempty stage.rework_target && not (contains stage.rework_target known))
      (unknown_target stage.name)
    >> raise_if (any (λ d. not (contains d known)) stage.needs)
        (unknown_dependencies stage.name unknown)
    >> raise_if (contains stage.name stage.needs) (self_dependency stage.name)

-- Only a stage that nothing needs may declare delivery modes.
unfoldable pub check_sink : List StageDef → StageDef → Result ParseError (Unit {0})
check_sink stages stage =
    let has_modes : Bool = elim stage.delivery_modes [ [] ↦ false | _ ∷ _ ↦ true ] in
    raise_if (has_modes && any (λ s. contains stage.name s.needs) stages) (not_a_sink stage.name)

unfoldable pub check_graph : List StageDef → Result ParseError (Unit {0})
unfolding check_cycles
check_graph stages =
    elim (check_cycles (needs_of stages) (suc (length (names stages))) (names stages)) [
      | ok visited ↦ ok tt
      | err e ↦ elim e [ cycle_at name ↦ err (cycle name) | exhausted ↦ err recursion_limit ]
    ]

-- `producers.get(artifact, set())`
unfoldable pub producers : String → List StageDef → List String
producers artifact [] = []
producers artifact (s ∷ stages) =
    let rest = producers artifact stages in
    if contains artifact s.produces then s.name ∷ rest else rest

unfoldable pub check_artifact : List StageDef → StageDef → String → Result ParseError (Unit {0})
unfolding producers ancestry
check_artifact stages stage artifact =
    let candidates = producers artifact stages in
    let before = ancestry stages stage.name in
    let none_at_all : Bool = elim candidates [ [] ↦ true | _ ∷ _ ↦ false ] in
    raise_if none_at_all (no_producer stage.name artifact)
    >> raise_if (not (any (λ c. contains c before) candidates))
        (not_from_dependency stage.name artifact)

unfoldable pub check_artifacts : List StageDef → StageDef → Result ParseError (Unit {0})
unfolding check_artifact
check_artifacts stages stage = for_each (check_artifact stages stage) stage.consumes

unfoldable pub check_pair : List StageDef → StageDef → StageDef → Result ParseError (Unit {0})
unfolding ancestry
check_pair stages left right =
    if contains left.name (ancestry stages right.name)
      || contains right.name (ancestry stages left.name)
    then ok tt
    else if left.read_only && right.read_only
    then ok tt
    else raise_if (not (left.workspace == "isolated") || not (right.workspace == "isolated"))
        (shared_checkout left.name right.name)

-- Two unordered stages that may write must not share a checkout: every pair, the left one first.
unfoldable pub check_parallel : List StageDef → List StageDef → Result ParseError (Unit {0})
unfolding check_pair
check_parallel stages [] = ok tt
check_parallel stages (left ∷ rest) =
    for_each (check_pair stages left) rest >> check_parallel stages rest

unfoldable pub check_stages : List StageDef → Result ParseError (Unit {0})
unfolding check_references check_sink check_graph check_artifacts check_parallel
check_stages stages =
    for_each (check_references (names stages)) stages
    >> for_each (check_sink stages) stages
    >> check_graph stages
    >> for_each (check_artifacts stages) stages
    >> check_parallel stages stages

unfoldable pub parse_stages : List RawStage → Result ParseError (List StageDef)
unfolding parse_items check_stages
parse_stages [] = err no_stages
parse_stages (item ∷ items) =
    let raw = item ∷ items in
    do
      stages ← parse_items (any (λ r. is_present r.needs) raw) 0 [] raw
      check_stages stages
      ok stages
