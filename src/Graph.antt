-- ===== src/Graph.antt =====
-- Dependency graphs of named nodes: the depth-first cycle check and the ancestor search that
-- workflow.py (`parse_stages`) runs over stages and project_lifecycle.py (`normalize_task_graph`)
-- over tasks. A graph is the function that gives the `needs` of a name.
pub mod Acyclic
pub mod Cycles
pub mod Fuel
pub mod Ancestry
pub mod Rounds
mod Tests
use bastet_agent_os.Prelude.{
  ℕ, zero, suc, String, ◌≡◌, true, Option, none, some, List, [], ◌∷◌, ◌++◌, reverse, Result, ok,
  err, ◌>>=◌, contains, if◌then◌else◌,
}

-- What a visit raises. `exhausted` is the model's own: the recursion had no fuel left.
pub data VisitError : Type 0 where
  cycle_at : String → VisitError
  exhausted : VisitError

abbrev pub Graph : Type 0
Graph = String → List String

-- `x` depends on `y`, through one edge or several.
pub data DependsOn (g : Graph) (x : String) : String → Type 0 where
  edge : {y : String} → contains y (g x) ≡ true → DependsOn g x y
  path : {y z : String} → DependsOn g x y → contains z (g y) ≡ true → DependsOn g x z

-- The loop `for dependency in ...: visit(dependency)`, which threads the set `visited`.
unfoldable pub visit_all :
    (String → List String → Result VisitError (List String))
    → List String
    → List String
    → Result VisitError (List String)
visit_all f [] visited = ok visited
visit_all f (d ∷ ds) visited = f d visited >>= visit_all f ds

-- `visit(name)`. `visiting` holds the calls in progress, the innermost first: a call adds its name
-- before it visits the dependencies and removes it after, so a caller never sees the change.
unfoldable pub visit :
    Graph → ℕ → List String → String → List String → Result VisitError (List String)
visit g zero visiting name visited = err exhausted
visit g (suc fuel) visiting name visited =
    let below = visit_all (visit g fuel (name ∷ visiting)) (g name) visited in
    if contains name visiting
    then err (cycle_at name)
    else if contains name visited
    then ok visited
    else below >>= λ v. ok (name ∷ v)

-- `for name in by_name: visit(name)`; `fuel` bounds the depth of the recursion.
unfoldable pub check_cycles : Graph → ℕ → List String → Result VisitError (List String)
unfolding visit_all visit
check_cycles g fuel names = visit_all (visit g fuel []) names []

-- The loop of `ancestors`. `pending` is the Python list read from its end, where `pop` takes and
-- `extend` adds. `none` says that the fuel ran out.
unfoldable pub ancestors_loop : Graph → ℕ → List String → List String → Option (List String)
ancestors_loop g zero pending result = none
ancestors_loop g (suc fuel) [] result = some result
ancestors_loop g (suc fuel) (d ∷ pending) result =
    let skip = ancestors_loop g fuel pending result in
    let add = ancestors_loop g fuel (reverse (g d) ++ pending) (d ∷ result) in
    if contains d result then skip else add

-- `ancestors(name)`: `pending` starts as a copy of the node's own `needs`.
unfoldable pub ancestors : Graph → ℕ → String → Option (List String)
unfolding ancestors_loop
ancestors g fuel name = ancestors_loop g fuel (reverse (g name)) []
