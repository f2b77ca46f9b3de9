-- ===== src/Runtime/Tests.antt =====
-- One job of three stages, of which the middle one failed.
use bastet_agent_os.Prelude.{
  String, ◌≡◌, ◌↔◌, refl, true, false, List, [], ◌∷◌, none, some, arith, contains, any, map,
  is_some,
}
use bastet_agent_os.Prelude.Int.{pos}
use bastet_agent_os.Workflow.Stage.{StageDef}
use bastet_agent_os.Workflow.Ready.{NodeRow}
use bastet_agent_os.Runtime.{
  claim_ready_node, orphans, recover_orphaned_nodes, reset_failed_subgraph,
}
use bastet_agent_os.Runtime.Claims.{waits, claim_ready_node-once}
use bastet_agent_os.Runtime.Recovery.{recovered_row, recover_orphaned_nodes_lem}
use bastet_agent_os.Runtime.Reset.{Downstream, reset_failed_subgraph-total}
use bastet_agent_os.Runtime.Downstream.{reset_row, reset_failed_subgraph-Downstream}

abbrev stage_of : String → List String → StageDef
stage_of name needs = record {
  name = name;
  role = none;
  gate = "auto";
  gate_config = [];
  read_only = false;
  isolation = some "worktree";
  max_retries = pos 0;
  on_fail = "rework";
  rework_target = "";
  max_cycles = pos 3;
  timeout_s = 0;
  requires = [];
  needs = needs;
  produces = [];
  consumes = [];
  evidence = [];
  challenge = true;
  max_challenge_exchanges = 5;
  workspace = "shared";
  delivery_modes = [];
}

abbrev stages : List StageDef
stages = stage_of "plan" [] ∷ stage_of "build" ("plan" ∷ []) ∷ stage_of "test" ("build" ∷ []) ∷ []

abbrev node : String → String → List String → NodeRow
node stage status needs = record {
  job_id = "j";
  stage = stage;
  status = status;
  needs = needs;
  workspace = "shared";
}

abbrev table : List NodeRow
table =
    node "plan" "ready" []
    ∷ node "build" "running" ("plan" ∷ [])
    ∷ node "test" "passed" ("build" ∷ [])
    ∷ []

claim_ready_node-once_example :
    ((claim_ready_node "j" "plan" table).1 ≡ any (waits "ready" "j" "plan") table)
    × (claim_ready_node "j" "plan" (claim_ready_node "j" "plan" table).0
        ≡ ((claim_ready_node "j" "plan" table).0, false))
claim_ready_node-once_example = claim_ready_node-once "j" "plan" table

recover_orphaned_nodes_lem_example :
    ((recover_orphaned_nodes "j" [] table).0 ≡ map (recovered_row "j" []) table)
    × (orphans "j" [] (recover_orphaned_nodes "j" [] table).0 ≡ [])
recover_orphaned_nodes_lem_example = recover_orphaned_nodes_lem "j" [] table

abbrev reset : List NodeRow
reset =
    node "plan" "ready" []
    ∷ node "build" "ready" ("plan" ∷ [])
    ∷ node "test" "pending" ("build" ∷ [])
    ∷ []

build_reset : reset_failed_subgraph 5 "j" stages "build" table ≡ some (reset, "test" ∷ [])
unfolding reset_failed_subgraph
build_reset = refl

reset_failed_subgraph-Downstream_example :
    ((a : String) → (contains a ("test" ∷ []) ≡ true) ↔ Downstream stages "build" a)
    × (reset ≡ map (reset_row "j" "build" ("test" ∷ [])) table)
reset_failed_subgraph-Downstream_example =
    reset_failed_subgraph-Downstream 5 "j" stages "build" table reset ("test" ∷ []) build_reset

reset_failed_subgraph-total_example :
    is_some (reset_failed_subgraph 5 "j" stages "build" table) ≡ true
reset_failed_subgraph-total_example =
    reset_failed_subgraph-total 5 "j" stages "build" table (ground arith)
