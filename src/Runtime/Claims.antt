-- ===== src/Runtime/Claims.antt =====
-- stage_runtime.py: `claim_ready_node`, called once and again.
use bastet_agent_os.Prelude.{
  String, ◌≡◌, refl, Bool, false, ◌&&◌, List, [], ◌∷◌, ◌==◌, any, Bool-cases, inl, inr, arith,
}
use bastet_agent_os.Workflow.Ready.{NodeRow, is_node}
use bastet_agent_os.Runtime.{move_node, claim_ready_node}

-- The rows that a move from a state takes.
abbrev pub waits : String → String → String → NodeRow → Bool
waits from job_id stage row = is_node job_id stage row && row.status == from

move_node-any :
    (from to job_id stage : String) (table : List NodeRow)
    → (move_node from to job_id stage table).1 ≡ any (waits from job_id stage) table
unfolding move_node
move_node-any from to job_id stage [] = refl
move_node-any from to job_id stage (row ∷ table) =
    ground (arith, move_node-any from to job_id stage table)

move_node-gone :
    (from to job_id stage : String) (table : List NodeRow)
    → (to == from) ≡ false
    → any (waits from job_id stage) (move_node from to job_id stage table).0 ≡ false
unfolding move_node
move_node-gone from to job_id stage [] h = refl
move_node-gone from to job_id stage (row ∷ table) h =
    ground (arith, move_node-gone from to job_id stage table h)

move_node-none :
    (from to job_id stage : String) (table : List NodeRow)
    → any (waits from job_id stage) table ≡ false
    → move_node from to job_id stage table ≡ (table, false)
unfolding move_node
move_node-none from to job_id stage [] h = refl
move_node-none from to job_id stage (row ∷ table) h =
    elim (Bool-cases (waits from job_id stage row)) [
      | inl e ↦ let bad : ⊥ = ground (arith, e, h) in absurd bad
      | inr e ↦
          let rest = move_node-none from to job_id stage table (ground (arith, e, h)) in
          rw (e, rest) refl
    ]

-- A claim succeeds exactly when the table has the stage's node as ready, and once it was made, a
-- second claim of the stage fails and changes nothing.
pub claim_ready_node-once :
    (job_id stage : String) (table : List NodeRow)
    → ((claim_ready_node job_id stage table).1 ≡ any (waits "ready" job_id stage) table)
      × (claim_ready_node job_id stage (claim_ready_node job_id stage table).0
          ≡ ((claim_ready_node job_id stage table).0, false))
unfolding claim_ready_node
claim_ready_node-once job_id stage table = (
  move_node-any "ready" "running" job_id stage table,
  move_node-none "ready" "running" job_id stage (move_node "ready" "running" job_id stage table).0
      (move_node-gone "ready" "running" job_id stage table refl),
)
