-- ===== src/Workflow/Rework.antt =====
-- `rework_target_for` of workflow.py: which stage is handed the work that a gate rejected.
pub mod Walk
use bastet_agent_os.Prelude.{
  ℕ, zero, suc, ◌+◌, ◌-◌, ◌≤◌, ◌<◌, min, String, ◌≡◌, ◌≢◌, ◌⊎◌, inl, inr, refl, Bool, true, false,
  not, List, [], ◌∷◌, Option, none, some, contains, Bool-cases, length, get_elem?, ◌==◌, eq_iff,
  arith, if◌then◌else◌,
}
use bastet_agent_os.Prelude.Text.{nonempty}
use bastet_agent_os.Workflow.Stage.{StageDef, names}

abbrev pub writable_at : List StageDef → ℕ → Bool
writable_at stages i = elim (get_elem? stages i) [ none ↦ false | some s ↦ not s.read_only ]

-- `[i for i in range(idx, -1, -1) if not stages[i].read_only]`
unfoldable pub writable_back : List StageDef → ℕ → List ℕ
writable_back stages zero = if writable_at stages 0 then 0 ∷ [] else []
writable_back stages (suc i) =
    let rest = writable_back stages i in if writable_at stages (suc i) then suc i ∷ rest else rest

-- The index of the first stage of that name.
unfoldable pub index_of : String → List StageDef → Option ℕ
index_of name [] = none
index_of name (s ∷ stages) =
    let rest : Option ℕ = elim (index_of name stages) [ none ↦ none | some i ↦ some (suc i) ] in
    if s.name == name then some 0 else rest

-- `writable[min(attempt, len(writable) - 1)]` of a list that is not empty.
unfoldable pub clamped : List ℕ → ℕ → Option ℕ
clamped writable attempt = get_elem? writable (min attempt (length writable - 1))

-- `stages[idx]` of an index out of range raises: the outer `none`.
unfoldable pub rework_target_for : List StageDef → ℕ → ℕ → Option (Option ℕ)
unfolding writable_back index_of clamped
rework_target_for stages idx attempt = elim (get_elem? stages idx) [
  | none ↦ none
  | some stage ↦
      if nonempty stage.rework_target
      then some (index_of stage.rework_target stages)
      else some (clamped (writable_back stages idx) attempt)
]
