-- ===== src/Workflow/Ready.antt =====
-- `ready_stages` and `is_linear_stage_graph` of workflow.py, and the node states that
-- `seed_stage_nodes` and `refresh_ready_nodes` keep in the table `job_stage_nodes`.
pub mod Progress
pub mod Nodes
use bastet_agent_os.Prelude.{
  ℕ, String, ◌≡◌, Bool, true, false, not, ◌&&◌, ◌||◌, List, [], ◌∷◌, ◌++◌, contains, all, any,
  keep_if, map, ◌==◌, if◌then◌else◌,
}
use bastet_agent_os.Workflow.Stage.{StageDef, names}

abbrev pub is_ready : List String → List String → StageDef → Bool
is_ready passed active s =
    not (contains s.name passed)
    && not (contains s.name active)
    && all (λ d. contains d passed) s.needs

unfoldable pub ready_stages : List StageDef → List String → List String → List StageDef
ready_stages stages passed active = keep_if (is_ready passed active) stages

same_texts : List String → List String → Bool
same_texts [] [] = true
same_texts (x ∷ xs) (y ∷ ys) = x == y && same_texts xs ys
same_texts _ _ = false

-- `previous` is `[]` for the first stage, and the one name before it for any other.
linear_from : List String → List StageDef → Bool
unfolding same_texts
linear_from previous [] = true
linear_from previous (s ∷ stages) = same_texts s.needs previous && linear_from (s.name ∷ []) stages

unfoldable pub is_linear_stage_graph : List StageDef → Bool
unfolding linear_from
is_linear_stage_graph stages = linear_from [] stages

-- A row of `job_stage_nodes`, with the columns that these functions read or write but the time stamp.
pub record NodeRow : Type 0 where
  pub job_id : String
  pub stage : String
  pub status : String
  pub needs : List String
  pub workspace : String

abbrev pub is_node : String → String → NodeRow → Bool
is_node job_id stage row = row.job_id == job_id && row.stage == stage

-- `INSERT OR IGNORE`: the primary key is (job_id, stage).
unfoldable pub insert_node : NodeRow → List NodeRow → List NodeRow
insert_node row table =
    if any (is_node row.job_id row.stage) table then table else table ++ row ∷ []

insert_nodes : List NodeRow → List NodeRow → List NodeRow
unfolding insert_node
insert_nodes [] table = table
insert_nodes (row ∷ rows) table = insert_nodes rows (insert_node row table)

seed_row : String → List String → StageDef → NodeRow
seed_row job_id roots s = record {
  job_id = job_id;
  stage = s.name;
  status = if contains s.name roots then "ready" else "pending";
  needs = s.needs;
  workspace = s.workspace;
}

seed_rows : String → List StageDef → List NodeRow
unfolding ready_stages seed_row
seed_rows job_id stages =
    let roots = names (ready_stages stages [] []) in map (seed_row job_id roots) stages

unfoldable pub seed_stage_nodes : String → List StageDef → List NodeRow → List NodeRow
unfolding seed_rows insert_nodes
seed_stage_nodes job_id stages table = insert_nodes (seed_rows job_id stages) table

-- The stages of a job whose status is one of the words.
unfoldable pub stages_in : String → List String → List NodeRow → List String
stages_in job_id words [] = []
stages_in job_id words (row ∷ table) =
    let rest = stages_in job_id words table in
    if row.job_id == job_id && contains row.status words then row.stage ∷ rest else rest

abbrev pub active_words : List String
active_words = "ready" ∷ "running" ∷ "passed" ∷ "failed" ∷ "blocked" ∷ []

-- `UPDATE job_stage_nodes SET status='ready' WHERE job_id=? AND stage=? AND status='pending'`
unfoldable pub promote : String → String → List NodeRow → List NodeRow
promote job_id stage [] = []
promote job_id stage (row ∷ table) =
    let rest = promote job_id stage table in
    if is_node job_id stage row && row.status == "pending"
    then (record row { status = "ready" }) ∷ rest
    else row ∷ rest

promote_all : String → List String → List NodeRow → List NodeRow
unfolding promote
promote_all job_id [] table = table
promote_all job_id (name ∷ rest) table = promote_all job_id rest (promote job_id name table)

-- The new table and the names returned.
unfoldable pub refresh_ready_nodes :
    String → List StageDef → List NodeRow → List NodeRow × List String
unfolding ready_stages stages_in promote_all
refresh_ready_nodes job_id stages table =
    let passed = stages_in job_id ("passed" ∷ []) table in
    let active = stages_in job_id active_words table in
    let ready = names (ready_stages stages passed active) in (promote_all job_id ready table, ready)
