-- ===== src/Graph/Tests.antt =====
-- The searches on one graph: `c` needs `b`, which needs `a`.
use bastet_agent_os.Prelude.{
  String, ◌≡◌, ◌↔◌, refl, true, List, [], ◌∷◌, some, ok, err, ◌==◌, if◌then◌else◌, contains,
  Bool-cases, inl, inr, arith, Subset, eq_iff,
}
use bastet_agent_os.Graph.{Graph, DependsOn, cycle_at, check_cycles, ancestors}
use bastet_agent_os.Graph.Fuel.{IsClosed}
use bastet_agent_os.Graph.Rounds.{ancestors-DependsOn}

abbrev line : Graph
line n = if n == "c" then "b" ∷ [] else if n == "b" then "a" ∷ [] else []

abbrev nodes : List String
nodes = "c" ∷ "a" ∷ "b" ∷ []

line-IsClosed : IsClosed line nodes
line-IsClosed x m a h = elim (Bool-cases (x == "c")) [
  | inl e ↦ ground (arith, e, h)
  | inr e ↦ elim (Bool-cases (x == "b")) [
    | inl b ↦ ground (arith, e, b, h)
    | inr b ↦ ground (arith, e, b, h)
  ]
]

line-checked : check_cycles line 4 nodes ≡ ok ("c" ∷ "b" ∷ "a" ∷ [])
unfolding check_cycles
line-checked = refl

-- A node that needs itself.
abbrev ring : Graph
ring n = n ∷ []

ring-raises : check_cycles ring 3 ("a" ∷ []) ≡ err (cycle_at "a")
unfolding check_cycles
ring-raises = refl

line-found : ancestors line 4 "c" ≡ some ("a" ∷ "b" ∷ [])
unfolding ancestors
line-found = refl

line-Subset : Subset (line "c") nodes
line-Subset a h = ground (arith, h, eq_iff a "b")

ancestors-DependsOn_example :
    (found : List String) × (ancestors line 4 "c" ≡ some found)
    × ((y : String) → (contains y found ≡ true) ↔ DependsOn line "c" y)
ancestors-DependsOn_example =
    ancestors-DependsOn line nodes "c" 4 line-IsClosed line-Subset (ground arith)
