-- ===== src/Runtime/Recovery.antt =====
-- stage_runtime.py: `recover_orphaned_nodes` after a lost process.
use bastet_agent_os.Prelude.{
  String, ◌≡◌, refl, eq_refl, eq_iff, true, false, not, ◌&&◌, List, [], ◌∷◌, ◌==◌, map, contains,
  any, Bool-cases, inl, inr, ap, ◌∙◌, arith, if◌then◌else◌,
}
use bastet_agent_os.Workflow.Ready.{NodeRow}
use bastet_agent_os.Runtime.{move_node, RunRow, is_live, orphans, move_all, recover_orphaned_nodes}

-- A row after the running nodes with one of the names were moved back.
abbrev moved_row : String → List String → NodeRow → NodeRow
moved_row job_id names row =
    if row.job_id == job_id && contains row.stage names && row.status == "running"
    then record row { status = "ready" }
    else row

-- A row after the recovery.
abbrev pub recovered_row : String → List RunRow → NodeRow → NodeRow
recovered_row job_id runs row =
    if row.job_id == job_id && row.status == "running" && not (any (is_live job_id row.stage) runs)
    then record row { status = "ready" }
    else row

move_node-map :
    (job_id name : String) (table : List NodeRow)
    → (move_node "running" "ready" job_id name table).0 ≡ map (moved_row job_id (name ∷ [])) table
unfolding move_node
move_node-map job_id name [] = refl
move_node-map job_id name (row ∷ table) = ground (arith, move_node-map job_id name table)

moved_twice :
    (job_id name : String) (rest : List String) (row : NodeRow)
    → moved_row job_id rest (moved_row job_id (name ∷ []) row) ≡ moved_row job_id (name ∷ rest) row
moved_twice job_id name rest row = ground (arith, eq_iff "ready" "running")

map-moved :
    (job_id name : String) (rest : List String) (table : List NodeRow)
    → map (moved_row job_id rest) (map (moved_row job_id (name ∷ [])) table)
      ≡ map (moved_row job_id (name ∷ rest)) table
map-moved job_id name rest [] = refl
map-moved job_id name rest (row ∷ table) =
    cc (moved_twice job_id name rest row, map-moved job_id name rest table)

moved_none : (job_id : String) (table : List NodeRow) → table ≡ map (moved_row job_id []) table
moved_none job_id [] = refl
moved_none job_id (row ∷ table) = ground (arith, moved_none job_id table)

move_all-map :
    (job_id : String) (names : List String) (table : List NodeRow)
    → move_all "running" "ready" job_id names table ≡ map (moved_row job_id names) table
unfolding move_all
move_all-map job_id [] table = moved_none job_id table
move_all-map job_id (name ∷ rest) table =
    move_all-map job_id rest (move_node "running" "ready" job_id name table).0
    ∙ ap (map (moved_row job_id rest)) (move_node-map job_id name table)
    ∙ map-moved job_id name rest table

-- The names that the query finds have no live run.
orphans-dead :
    (job_id stage : String) (runs : List RunRow) (table : List NodeRow)
    → contains stage (orphans job_id runs table) ≡ true
    → any (is_live job_id stage) runs ≡ false
unfolding orphans
orphans-dead job_id stage runs [] h = let bad : ⊥ = ground (arith, h) in absurd bad
orphans-dead job_id stage runs (row ∷ table) h = elim (Bool-cases (stage == row.stage)) [
  | inl e ↦
      let same = ap (λ x. any (is_live job_id x) runs) ((eq_iff stage row.stage).0 e) in
      ground (arith, h, same, orphans-dead job_id stage runs table)
  | inr e ↦ orphans-dead job_id stage runs table (ground (arith, h, e))
]

map-recovered :
    (job_id : String) (runs : List RunRow) (names : List String) (table : List NodeRow)
    → ((s : String) → contains s (orphans job_id runs table) ≡ true → contains s names ≡ true)
    → ((s : String) → contains s names ≡ true → any (is_live job_id s) runs ≡ false)
    → map (moved_row job_id names) table ≡ map (recovered_row job_id runs) table
unfolding orphans
map-recovered job_id runs names [] all dead = refl
map-recovered job_id runs names (row ∷ table) all dead =
    let rest = map-recovered job_id runs names table (λ s m. all s (ground (arith, m))) dead in
    let here = all row.stage in
    let live = dead row.stage in ground (arith, rest, here, live, eq_refl row.stage)

orphans-recovered :
    (job_id : String) (runs : List RunRow) (table : List NodeRow)
    → orphans job_id runs (map (recovered_row job_id runs) table) ≡ []
unfolding orphans
orphans-recovered job_id runs [] = refl
orphans-recovered job_id runs (row ∷ table) =
    let rest = orphans-recovered job_id runs table in
    elim (Bool-cases (
      row.job_id == job_id
      && row.status == "running"
      && not (any (is_live job_id row.stage) runs))) [
        | inl e ↦ rw (e) (ground (arith, rest, eq_iff "ready" "running"))
        | inr e ↦ rw (e) (ground (arith, rest, e))
      ]

-- The recovery makes ready the running rows of the job whose stage has no queued, running or
-- waiting run, changes no other row, and leaves no such row: a second recovery finds nothing.
pub recover_orphaned_nodes_lem :
    (job_id : String) (runs : List RunRow) (table : List NodeRow)
    → ((recover_orphaned_nodes job_id runs table).0 ≡ map (recovered_row job_id runs) table)
      × (orphans job_id runs (recover_orphaned_nodes job_id runs table).0 ≡ [])
unfolding recover_orphaned_nodes
recover_orphaned_nodes_lem job_id runs table =
    let moved =
      move_all-map job_id (orphans job_id runs table) table
      ∙ map-recovered job_id runs (orphans job_id runs table) table (λ s m. m)
          (λ s m. orphans-dead job_id s runs table m) in
    (moved, rw (moved) (orphans-recovered job_id runs table))
