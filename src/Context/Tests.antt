-- ===== src/Context/Tests.antt =====
-- A budget of 100 tokens, a short task and a large memory.
use bastet_agent_os.Prelude.{
  ℕ, zero, suc, ◌+◌, ◌*◌, ◌≤◌, ◌≡◌, refl, true, List, [], ◌∷◌, map, length, ◌==◌, if◌then◌else◌,
  arith,
}
use bastet_agent_os.Prelude.Text.{codes}
use bastet_agent_os.Context.{Call, buckets, over_budget, relevant, decide, build_context}
use bastet_agent_os.Context.Budget.{total, build_context-fits, decide-over_budget}

abbrev repeat : ℕ → List ℕ
repeat zero = []
repeat (suc n) = 120 ∷ repeat n

abbrev call : Call
call = record {
  share = λ b. if b == "spec" then 22 else 12;
  expected_remaining = λ b. if b == "spec" then 100 else 12;
  skip = [];
  stage_name = "build";
  role = "dev";
  gather = λ b. if b == "spec" then codes "# Task: x" else if b == "memory" then repeat 500 else [];
}

build_context-fits_example :
    let (text, sections) = build_context call 100 in
    (map (λ s. s.bucket) sections ≡ buckets) × (total sections ≤ 100) × (length text ≤ 4 * 100 + 5)
build_context-fits_example = build_context-fits call 100

-- The task takes 3 tokens, and the memory does not fit in the other 97.
kept_text : (build_context call 100).0 ≡ codes "# Task: x"
unfolding build_context
kept_text = refl

memory_relevant : relevant "memory" call.stage_name call.role ≡ true
unfolding relevant
memory_relevant = refl

decide-over_budget_example :
    ((decide call "memory" 97).0 ≡ []) × ((decide call "memory" 97).1.note ≡ over_budget)
decide-over_budget_example =
    decide-over_budget call "memory" 97 refl memory_relevant (ground arith) (ground arith)
