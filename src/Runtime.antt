-- ===== src/Runtime.antt =====
-- stage_runtime.py: the moves of a stage's node through its states. The table is the one that
-- workflow.py seeds; the git commands of this file are not modelled.
pub mod Claims
pub mod Recovery
pub mod Reset
pub mod Downstream
mod Tests
use bastet_agent_os.Prelude.{
  ℕ, zero, suc, ◌+◌, String, Bool, true, false, not, ◌&&◌, ◌||◌, List, [], ◌∷◌, ◌++◌, Option, none,
  some, ◌==◌, contains, any, Result, ok, err, if◌then◌else◌,
}
use bastet_agent_os.Workflow.Stage.{StageDef}
use bastet_agent_os.Workflow.Ready.{NodeRow, is_node}

-- `UPDATE job_stage_nodes SET status=to WHERE job_id=? AND stage=? AND status=from`, with the count.
unfoldable pub move_node : String → String → String → String → List NodeRow → List NodeRow × Bool
move_node from to job_id stage [] = ([], false)
move_node from to job_id stage (row ∷ table) =
    let rest = move_node from to job_id stage table in
    if is_node job_id stage row && row.status == from
    then ((record row { status = to }) ∷ rest.0, true)
    else (row ∷ rest.0, rest.1)

-- The same without a test of the state before.
unfoldable pub set_node : String → String → String → List NodeRow → List NodeRow
set_node to job_id stage [] = []
set_node to job_id stage (row ∷ table) =
    let rest = set_node to job_id stage table in
    if is_node job_id stage row then (record row { status = to }) ∷ rest else row ∷ rest

unfoldable pub claim_ready_node : String → String → List NodeRow → List NodeRow × Bool
unfolding move_node
claim_ready_node job_id stage table = move_node "ready" "running" job_id stage table

pub data NodeError : Type 0 where
  not_terminal : NodeError

unfoldable pub finish_node :
    String → String → String → List NodeRow → Result NodeError (List NodeRow)
unfolding set_node
finish_node job_id stage status table =
    if contains status ("passed" ∷ "failed" ∷ "blocked" ∷ [])
    then ok (set_node status job_id stage table)
    else err not_terminal

-- A row of `runs`, as far as the recovery reads it.
pub record RunRow : Type 0 where
  pub job_id : String
  pub stage : String
  pub status : String

abbrev pub is_live : String → String → RunRow → Bool
is_live job_id stage r =
    r.job_id == job_id
    && r.stage == stage
    && contains r.status ("queued" ∷ "running" ∷ "waiting_input" ∷ [])

-- The running nodes of the job that no live run serves.
unfoldable pub orphans : String → List RunRow → List NodeRow → List String
orphans job_id runs [] = []
orphans job_id runs (row ∷ table) =
    let rest = orphans job_id runs table in
    if row.job_id == job_id && row.status == "running" && not (any (is_live job_id row.stage) runs)
    then row.stage ∷ rest
    else rest

unfoldable pub move_all : String → String → String → List String → List NodeRow → List NodeRow
unfolding move_node
move_all from to job_id [] table = table
move_all from to job_id (stage ∷ stages) table =
    move_all from to job_id stages (move_node from to job_id stage table).0

unfoldable pub recover_orphaned_nodes :
    String → List RunRow → List NodeRow → List NodeRow × List String
unfolding orphans move_all
recover_orphaned_nodes job_id runs table =
    let names = orphans job_id runs table in (move_all "running" "ready" job_id names table, names)

-- One `for stage in stages` round: what needs `current` and is not among the descendants yet joins
-- them, and is pushed.
unfoldable pub push_dependents :
    String → List StageDef → List String → List String → List String × List String
push_dependents current [] descendants pending = (descendants, pending)
push_dependents current (s ∷ stages) descendants pending =
    let new = contains current s.needs && not (contains s.name descendants) in
    push_dependents current stages (if new then s.name ∷ descendants else descendants)
      (if new then s.name ∷ pending else pending)

-- The `while pending` loop; the end of the Python list, where it pops and appends, comes first.
-- `none` says that the fuel ran out.
unfoldable pub descendants_loop :
    ℕ → List StageDef → List String → List String → Option (List String)
unfolding push_dependents
descendants_loop zero stages descendants pending = none
descendants_loop (suc fuel) stages descendants [] = some descendants
descendants_loop (suc fuel) stages descendants (current ∷ pending) =
    let (found, left) = push_dependents current stages descendants pending in
    descendants_loop fuel stages found left

unfoldable pub set_all : String → String → List String → List NodeRow → List NodeRow
unfolding set_node
set_all to job_id [] table = table
set_all to job_id (stage ∷ stages) table = set_all to job_id stages (set_node to job_id stage table)

-- The new table and the descendants (the source returns them sorted).
unfoldable pub reset_failed_subgraph :
    ℕ → String → List StageDef → String → List NodeRow → Option (List NodeRow × List String)
unfolding descendants_loop set_all
reset_failed_subgraph fuel job_id stages root table =
    elim (descendants_loop fuel stages [] (root ∷ [])) [
      | none ↦ none
      | some names ↦
          some (set_all "pending" job_id names (set_node "ready" job_id root table), names)
    ]
