-- ===== src/Workflow/Tests.antt =====
-- Runs of the template parser and of the stage scheduler on small templates.
use mathlib.Core.List.{Memᴰ}
use bastet_agent_os.Prelude.{
  ℕ, zero, String, ◌≡◌, ◌≢◌, ◌⊎◌, refl, true, false, List, [], ◌∷◌, none, some, ok, err, map, suc,
  eq_iff, arith,
}
use bastet_agent_os.Prelude.Text.{strip}
use bastet_agent_os.Prelude.Int.{pos}
use bastet_agent_os.Graph.{DependsOn, visit_all, visit, check_cycles, ancestors_loop, ancestors}
use bastet_agent_os.Workflow.Json.{
  missing, given, list, text, truthy, truthy_value, or_empty, lookup, as_number, is_finite,
  float_lt,
}
use bastet_agent_os.Workflow.Stage.{RawStage, StageDef, needs_of, ancestry, cycle, recursion_limit}
use bastet_agent_os.Workflow.Item.{
  parse_ids, parse_needs, parse_delivery_modes, check_gate_config, one_of, to_int, exchanges,
  timeout_of, flag, parse_name, parse_item,
}
use bastet_agent_os.Workflow.Parse.WellFormed.{
  IsWellFormed, parse_stages-WellFormed, parse_stages-acyclic,
}
use bastet_agent_os.Workflow.Parse.Cycles.{check_stages-fuel, check_stages-cycle}
use bastet_agent_os.Workflow.Ready.{NodeRow, ready_stages, refresh_ready_nodes, stages_in}
use bastet_agent_os.Workflow.Ready.Progress.{
  Reached, start, pass, ready_stages-progress, ready_stages-apart,
}
use bastet_agent_os.Workflow.Ready.Nodes.{promoted_row, refresh_ready_nodes_lem}
use bastet_agent_os.Workflow.Rework.{writable_back, clamped, rework_target_for}
use bastet_agent_os.Workflow.Rework.Walk.{IsCandidate, NoneBetween, rework_target_for-IsCandidate}
use bastet_agent_os.Workflow.Parse.{
  producers, check_artifact, check_pair, check_stages, parse_stages,
}

-- A template's item with a name, its needs, and its workspace.
abbrev item_of : String → List String → String → RawStage
item_of name needs workspace = record {
  name = given name;
  role = missing;
  gate = missing;
  gate_config = missing;
  read_only = missing;
  isolation = missing;
  max_retries = missing;
  on_fail = missing;
  rework_target = missing;
  max_cycles = missing;
  timeout_s = missing;
  requires = missing;
  needs = given (list (map text needs));
  produces = missing;
  consumes = missing;
  evidence = missing;
  challenge = missing;
  max_challenge_exchanges = missing;
  workspace = given workspace;
  delivery_modes = missing;
}

abbrev stage_of : String → List String → String → StageDef
stage_of name needs workspace = record {
  name = name;
  role = none;
  gate = "auto";
  gate_config = [];
  read_only = false;
  isolation = some "worktree";
  max_retries = pos 0;
  on_fail = "rework";
  rework_target = "";
  max_cycles = pos 3;
  timeout_s = 0;
  requires = [];
  needs = needs;
  produces = [];
  consumes = [];
  evidence = [];
  challenge = true;
  max_challenge_exchanges = 5;
  workspace = workspace;
  delivery_modes = [];
}

abbrev plan : StageDef
plan = stage_of "plan" [] "shared"

abbrev api : StageDef
api = stage_of "api" ("plan" ∷ []) "isolated"

abbrev web : StageDef
web = stage_of "web" ("plan" ∷ []) "isolated"

abbrev items : List RawStage
items =
    item_of "plan" [] "shared"
    ∷ item_of "api" (" plan " ∷ "plan" ∷ []) "isolated"
    ∷ item_of "web" ("plan" ∷ []) "isolated"
    ∷ []

abbrev stages : List StageDef
stages = plan ∷ api ∷ web ∷ []

items-parse : parse_stages items ≡ ok stages
unfolding parse_ids parse_needs parse_delivery_modes check_gate_config one_of to_int exchanges
    timeout_of flag parse_name parse_item parse_stages strip truthy truthy_value or_empty lookup
    as_number is_finite float_lt ancestry check_cycles ancestors producers check_artifact check_pair
    visit visit_all ancestors_loop
items-parse = refl

plan-parse : parse_item true 0 none [] (item_of "plan" [] "shared") ≡ ok plan
unfolding parse_ids parse_needs parse_delivery_modes check_gate_config one_of to_int exchanges
    timeout_of flag parse_name parse_item strip truthy truthy_value or_empty lookup as_number
    is_finite float_lt
plan-parse = refl

plan_ready : Memᴰ plan (ready_stages stages [] [])
unfolding ready_stages
plan_ready = Memᴰ.head refl

api_ready : Memᴰ api (ready_stages stages ("plan" ∷ []) [])
unfolding ready_stages
api_ready = Memᴰ.head refl

web_ready : Memᴰ web (ready_stages stages ("plan" ∷ []) [])
unfolding ready_stages
web_ready = Memᴰ.tail (Memᴰ.head refl)

api_ne_web : api.name ≢ web.name
api_ne_web h = ground (arith, eq_iff "api" "web", h)

plan_ne_empty : plan.name ≢ ""
plan_ne_empty h = ground (arith, eq_iff "plan" "", h)

first_try : rework_target_for stages 1 0 ≡ some (some 1)
unfolding rework_target_for writable_back clamped
first_try = refl

second_try : rework_target_for stages 1 1 ≡ some (some 0)
unfolding rework_target_for writable_back clamped
second_try = refl

stages-IsWellFormed : IsWellFormed stages
stages-IsWellFormed = parse_stages-WellFormed items stages items-parse

parse_stages-WellFormed_example : IsWellFormed stages
parse_stages-WellFormed_example = parse_stages-WellFormed items stages items-parse

abbrev api_in : Memᴰ api stages
api_in = Memᴰ.tail (Memᴰ.head refl)

parse_stages-acyclic_example : ¬ DependsOn (needs_of stages) "api" "api"
parse_stages-acyclic_example = parse_stages-acyclic items stages api items-parse api_in

check_stages-fuel_example : check_stages stages ≢ err recursion_limit
check_stages-fuel_example = check_stages-fuel stages

-- Two stages that wait for each other.
abbrev loop : List StageDef
loop = stage_of "a" ("b" ∷ []) "shared" ∷ stage_of "b" ("a" ∷ []) "shared" ∷ []

loop-cycle : check_stages loop ≡ err (cycle "a")
unfolding check_stages ancestry check_cycles ancestors producers check_artifact check_pair visit
    visit_all ancestors_loop
loop-cycle = refl

check_stages-cycle_example : DependsOn (needs_of loop) "a" "a"
check_stages-cycle_example = check_stages-cycle loop "a" loop-cycle

ready_stages-progress_example : (r : StageDef) × Memᴰ r (ready_stages stages ("plan" ∷ []) [])
ready_stages-progress_example =
    ready_stages-progress stages ("plan" ∷ []) api stages-IsWellFormed api_in refl

abbrev plan_passed : Reached stages ("plan" ∷ [])
plan_passed = pass [] plan start plan_ready

ready_stages-apart_example :
    ((api.read_only ≡ true) × (web.read_only ≡ true))
    ⊎ ((api.workspace ≡ "isolated") × (web.workspace ≡ "isolated"))
ready_stages-apart_example =
    ready_stages-apart stages ("plan" ∷ []) [] api web stages-IsWellFormed plan_passed api_ready
      web_ready api_ne_web

abbrev table : List NodeRow
table =
    record { job_id = "j"; stage = "plan"; status = "passed"; needs = []; workspace = "shared" }
    ∷ record {
      job_id = "j";
      stage = "api";
      status = "pending";
      needs = "plan" ∷ [];
      workspace = "isolated";
    }
    ∷ record {
      job_id = "j";
      stage = "web";
      status = "pending";
      needs = "plan" ∷ [];
      workspace = "isolated";
    }
    ∷ []

refresh_ready_nodes_lem_example :
    refresh_ready_nodes "j" stages table
    ≡ (map (promoted_row "j" ("api" ∷ "web" ∷ [])) table, "api" ∷ "web" ∷ [])
unfolding ready_stages stages_in
refresh_ready_nodes_lem_example = refresh_ready_nodes_lem "j" stages table

rework_target_for-IsCandidate_example :
    ((t : ℕ) × (rework_target_for stages 1 0 ≡ some (some t))
      × IsCandidate stages 1 t
      × (zero ≡ 0 → NoneBetween stages (suc t) 1))
    ⊎ ((rework_target_for stages 1 0 ≡ some none) × NoneBetween stages 0 1)
rework_target_for-IsCandidate_example = rework_target_for-IsCandidate stages 1 0 api refl refl

abbrev handed_back : List StageDef
handed_back = plan ∷ record api { rework_target = "plan" } ∷ []
