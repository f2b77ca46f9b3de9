-- ===== src/Workflow/Parse/Cycles.antt =====
-- workflow.py: `parse_stages` where it raises for the graph.
use bastet_agent_os.Prelude.{
  suc, String, ◌≡◌, ◌≢◌, ◌⊎◌, inl, inr, List, [], ◌∷◌, ok, err, >>-eq-err, for_each-err, for_each,
  for_each-All, length, arith, Result-cases, refl,
}
use bastet_agent_os.Graph.{DependsOn, check_cycles, cycle_at, exhausted}
use bastet_agent_os.Graph.Fuel.{check_cycles-fuel}
use bastet_agent_os.Graph.Cycles.{check_cycles_complete}
use bastet_agent_os.Workflow.Stage.{StageDef, ParseError, names, needs_of, cycle, recursion_limit}
use bastet_agent_os.Workflow.Parse.{
  check_references, check_sink, check_artifact, check_artifacts, check_pair, check_parallel,
  check_graph, check_stages,
}
use bastet_agent_os.Workflow.Parse.Checks.{Refers, check_references-Refers, needs_of-IsClosed}
use bastet_agent_os.Workflow.Parse.WellFormed.{All-map}

-- Once the references are checked, the cycle check has fuel enough.
check_graph-fuel :
    (stages : List StageDef)
    → for_each (check_references (names stages)) stages ≡ ok tt
    → check_graph stages ≢ err recursion_limit
unfolding check_graph
check_graph-fuel stages h e =
    let refers =
      All-map _ (Refers (names stages)) stages (λ s _. check_references-Refers (names stages) s)
        (for_each-All _ stages h) in
    let fine =
      check_cycles-fuel (needs_of stages) (suc (length (names stages))) (names stages)
        (needs_of-IsClosed (names stages) stages refers) (omega arith) in
    elim (Result-cases
      (check_cycles (needs_of stages) (suc (length (names stages))) (names stages))) [
        | inl (v, p) ↦ ground (arith, p)
        | inr (exhausted, p) ↦ fine p
        | inr (cycle_at c, p) ↦ ground (arith, p)
      ]

check_graph-cycle :
    (stages : List StageDef) (c : String)
    → check_graph stages ≡ err (cycle c)
    → DependsOn (needs_of stages) c c
unfolding check_graph
check_graph-cycle stages c h =
    check_cycles_complete (needs_of stages) (suc (length (names stages))) (names stages) c
      (ground (arith, h))

-- The two errors that only the cycle check raises.
abbrev OfGraph : ParseError → Type 0
OfGraph e = (e ≡ recursion_limit) ⊎ ((c : String) × (e ≡ cycle c))

references-quiet :
    (known : List String) (s : StageDef) (e : ParseError)
    → check_references known s ≡ err e
    → ¬ OfGraph e
unfolding check_references
references-quiet known s e h (inl p) = ground arith
references-quiet known s e h (inr (c, p)) = ground arith

sink-quiet :
    (stages : List StageDef) (s : StageDef) (e : ParseError)
    → check_sink stages s ≡ err e
    → ¬ OfGraph e
unfolding check_sink
sink-quiet stages s e h (inl p) = ground arith
sink-quiet stages s e h (inr (c, p)) = ground arith

artifact-quiet :
    (stages : List StageDef) (s : StageDef) (a : String) (e : ParseError)
    → check_artifact stages s a ≡ err e
    → ¬ OfGraph e
unfolding check_artifact
artifact-quiet stages s a e h (inl p) = ground arith
artifact-quiet stages s a e h (inr (c, p)) = ground arith

artifacts-quiet :
    (stages : List StageDef) (s : StageDef) (e : ParseError)
    → check_artifacts stages s ≡ err e
    → ¬ OfGraph e
unfolding check_artifacts
artifacts-quiet stages s e h =
    let (a, q) = for_each-err (check_artifact stages s) s.consumes h in
    artifact-quiet stages s a e q

pair-quiet :
    (stages : List StageDef) (s t : StageDef) (e : ParseError)
    → check_pair stages s t ≡ err e
    → ¬ OfGraph e
unfolding check_pair
pair-quiet stages s t e h (inl p) = ground arith
pair-quiet stages s t e h (inr (c, p)) = ground arith

parallel-quiet :
    (stages rest : List StageDef) (e : ParseError)
    → check_parallel stages rest ≡ err e
    → ¬ OfGraph e
unfolding check_parallel
parallel-quiet stages [] e h g = let bad : ⊥ = cc in bad
parallel-quiet stages (x ∷ rest) e h g =
    elim (>>-eq-err (for_each (check_pair stages x) rest) (check_parallel stages rest) h) [
      | inl p ↦
          let (t, q) = for_each-err (check_pair stages x) rest p in pair-quiet stages x t e q g
      | inr (_, p) ↦ parallel-quiet stages rest e p g
    ]

-- An error of the cycle check is raised by it, after the references were found good.
from_graph :
    (stages : List StageDef) (e : ParseError)
    → OfGraph e
    → check_stages stages ≡ err e
    → (for_each (check_references (names stages)) stages ≡ ok tt) × (check_graph stages ≡ err e)
unfolding check_stages
from_graph stages e g h = elim (>>-eq-err _ (check_parallel stages stages) h) [
  | inr (_, p) ↦ absurd (parallel-quiet stages stages e p g)
  | inl h1 ↦ elim (>>-eq-err _ (for_each (check_artifacts stages) stages) h1) [
    | inr (_, p) ↦
        let (s, q) = for_each-err (check_artifacts stages) stages p in
        absurd (artifacts-quiet stages s e q g)
    | inl h2 ↦ elim (>>-eq-err _ (check_graph stages) h2) [
      | inr ((_, q), p) ↦ (ground (arith, q), p)
      | inl h3 ↦ elim (>>-eq-err _ (for_each (check_sink stages) stages) h3) [
        | inr (_, p) ↦
            let (s, q) = for_each-err (check_sink stages) stages p in
            absurd (sink-quiet stages s e q g)
        | inl p ↦
            let (s, q) = for_each-err (check_references (names stages)) stages p in
            absurd (references-quiet (names stages) s e q g)
      ]
    ]
  ]
]

-- The checks of the graph never stop for want of fuel: the recursion that looks for a cycle is no
-- deeper than there are stages.
pub check_stages-fuel : (stages : List StageDef) → check_stages stages ≢ err recursion_limit
check_stages-fuel stages h =
    let (refs, g) = from_graph stages recursion_limit (inl refl) h in check_graph-fuel stages refs g

-- If the checks reject the stages for a cycle at `c`, then `c` does depend on itself.
pub check_stages-cycle :
    (stages : List StageDef) (c : String)
    → check_stages stages ≡ err (cycle c)
    → DependsOn (needs_of stages) c c
check_stages-cycle stages c h =
    check_graph-cycle stages c (from_graph stages (cycle c) (inr (c, refl)) h).1
