-- ===== src/Workflow/Ready/Nodes.antt =====
-- workflow.py: `seed_stage_nodes` and `refresh_ready_nodes` on the node table.
use mathlib.Core.List.{append-nil, append_assoc}
use bastet_agent_os.Prelude.{
  String, ◌≡◌, inl, inr, sym, refl, eq_refl, ap, ◌∙◌, Bool, true, ◌&&◌, ◌||◌, List, [], ◌∷◌, ◌++◌,
  map, contains, Bool-cases, All, any, ◌==◌, eq_iff, arith, if◌then◌else◌,
}
use bastet_agent_os.Workflow.Stage.{StageDef, names}
use bastet_agent_os.Workflow.Ready.{
  NodeRow, is_node, insert_node, insert_nodes, seed_rows, seed_stage_nodes, stages_in, active_words,
  promote, promote_all, refresh_ready_nodes, ready_stages,
}

-- A row after the names were promoted: a pending row of the job with one of the names is ready, and
-- any other is as it was.
abbrev pub promoted_row : String → List String → NodeRow → NodeRow
promoted_row job_id ready row =
    if row.job_id == job_id && contains row.stage ready && row.status == "pending"
    then record row { status = "ready" }
    else row

promote-map :
    (job_id name : String) (table : List NodeRow)
    → promote job_id name table ≡ map (promoted_row job_id (name ∷ [])) table
unfolding promote
promote-map job_id name [] = refl
promote-map job_id name (row ∷ table) = ground (arith, promote-map job_id name table)

promoted_twice :
    (job_id name : String) (rest : List String) (row : NodeRow)
    → promoted_row job_id rest (promoted_row job_id (name ∷ []) row)
      ≡ promoted_row job_id (name ∷ rest) row
promoted_twice job_id name rest row = ground (arith, eq_iff "ready" "pending")

map-promoted :
    (job_id name : String) (rest : List String) (table : List NodeRow)
    → map (promoted_row job_id rest) (map (promoted_row job_id (name ∷ [])) table)
      ≡ map (promoted_row job_id (name ∷ rest)) table
map-promoted job_id name rest [] = refl
map-promoted job_id name rest (row ∷ table) =
    cc (promoted_twice job_id name rest row, map-promoted job_id name rest table)

promoted_none :
    (job_id : String) (table : List NodeRow) → table ≡ map (promoted_row job_id []) table
promoted_none job_id [] = refl
promoted_none job_id (row ∷ table) = ground (arith, promoted_none job_id table)

promote_all-map :
    (job_id : String) (ready : List String) (table : List NodeRow)
    → promote_all job_id ready table ≡ map (promoted_row job_id ready) table
unfolding promote_all
promote_all-map job_id [] table = promoted_none job_id table
promote_all-map job_id (name ∷ rest) table =
    promote_all-map job_id rest (promote job_id name table)
    ∙ ap (map (promoted_row job_id rest)) (promote-map job_id name table)
    ∙ map-promoted job_id name rest table

-- A refresh returns the names of the stages that are ready by the table's own states, makes the
-- pending rows of the job with one of those names ready, and changes no other row.
pub refresh_ready_nodes_lem :
    (job_id : String) (stages : List StageDef) (table : List NodeRow)
    → let passed = stages_in job_id ("passed" ∷ []) table in
      let active = stages_in job_id active_words table in
      let ready = names (ready_stages stages passed active) in
      refresh_ready_nodes job_id stages table ≡ (map (promoted_row job_id ready) table, ready)
unfolding refresh_ready_nodes
refresh_ready_nodes_lem job_id stages table =
    ap
      (λ t. (
        t,
        names (
            ready_stages stages (stages_in job_id ("passed" ∷ []) table)
              (stages_in job_id active_words table)),
      ))
      (promote_all-map job_id _ table)

any-append : (p : NodeRow → Bool) (xs ys : List NodeRow) → any p (xs ++ ys) ≡ (any p xs || any p ys)
any-append p [] ys = refl
any-append p (x ∷ xs) ys = ground (arith, any-append p xs ys)

insert_node-keeps :
    (p : NodeRow → Bool) (row : NodeRow) (table : List NodeRow)
    → any p table ≡ true
    → any p (insert_node row table) ≡ true
unfolding insert_node
insert_node-keeps p row table h = ground (arith, any-append p table (row ∷ []))

insert_nodes-keeps :
    (p : NodeRow → Bool) (rows table : List NodeRow)
    → any p table ≡ true
    → any p (insert_nodes rows table) ≡ true
unfolding insert_nodes
insert_nodes-keeps p [] table h = h
insert_nodes-keeps p (row ∷ rows) table h =
    insert_nodes-keeps p rows (insert_node row table) (insert_node-keeps p row table h)

insert_node-present :
    (row : NodeRow) (table : List NodeRow)
    → any (is_node row.job_id row.stage) (insert_node row table) ≡ true
unfolding insert_node
insert_node-present row table = ground (
  arith,
  any-append (is_node row.job_id row.stage) table (row ∷ []),
  eq_refl row.job_id,
  eq_refl row.stage,
)

-- Every row has its key in the table.
abbrev Present : List NodeRow → List NodeRow → Type 0
Present rows table = All (λ row. any (is_node row.job_id row.stage) table ≡ true) rows

Present-keeps :
    (rows later table : List NodeRow) → Present rows table → Present rows (insert_nodes later table)
Present-keeps [] later table h = tt
Present-keeps (row ∷ rows) later table (p, h) = (
  insert_nodes-keeps (is_node row.job_id row.stage) later table p,
  Present-keeps rows later table h,
)

insert_nodes-Present : (rows table : List NodeRow) → Present rows (insert_nodes rows table)
unfolding insert_nodes
insert_nodes-Present [] table = tt
insert_nodes-Present (row ∷ rows) table = (
  insert_nodes-keeps (is_node row.job_id row.stage) rows (insert_node row table)
      (insert_node-present row table),
  insert_nodes-Present rows (insert_node row table),
)

insert_nodes-noop :
    (rows table : List NodeRow) → Present rows table → insert_nodes rows table ≡ table
unfolding insert_nodes insert_node
insert_nodes-noop [] table h = refl
insert_nodes-noop (row ∷ rows) table (p, h) = rw p (insert_nodes-noop rows table h)

insert_nodes-extends :
    (rows table : List NodeRow)
    → (extra : List NodeRow) × (insert_nodes rows table ≡ table ++ extra)
unfolding insert_nodes insert_node
insert_nodes-extends [] table = ([], sym (append-nil table))
insert_nodes-extends (row ∷ rows) table =
    elim (Bool-cases (any (is_node row.job_id row.stage) table)) [
      | inl e ↦ rw e (insert_nodes-extends rows table)
      | inr e ↦
          let (extra, q) = insert_nodes-extends rows (table ++ row ∷ []) in
          (row ∷ extra, rw e (q ∙ append_assoc table (row ∷ []) extra))
    ]

-- Seeding a job leaves every row that was there as it was, adds rows behind them, and does nothing
-- when it is done again.
pub seed_stage_nodes-resumes :
    (job_id : String) (stages : List StageDef) (table : List NodeRow)
    → let seeded = seed_stage_nodes job_id stages table in
      ((extra : List NodeRow) × (seeded ≡ table ++ extra))
      × (seed_stage_nodes job_id stages seeded ≡ seeded)
unfolding seed_stage_nodes
seed_stage_nodes-resumes job_id stages table = (
  insert_nodes-extends (seed_rows job_id stages) table,
  insert_nodes-noop (seed_rows job_id stages) _
      (insert_nodes-Present (seed_rows job_id stages) table),
)
