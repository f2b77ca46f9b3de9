-- ===== src/Graph/Rounds.antt =====
-- The number of rounds of the ancestor search of workflow.py.
use mathlib.Core.Path.{subst}
use bastet_agent_os.Prelude.{
  refl, eq_refl, ℕ, zero, suc, ◌+◌, ◌≤◌, ◌<◌, String, ◌≡◌, ◌↔◌, true, false, inl, inr, List, [],
  ◌∷◌, ◌++◌, some, contains, contains-head, contains-append, Subset, length, length-append, reverse,
  Bool-cases, eq_iff, ◌==◌, arith, if◌then◌else◌,
}
use bastet_agent_os.Graph.{DependsOn, Graph, ancestors_loop, ancestors}
use bastet_agent_os.Graph.Fuel.{IsClosed}
use bastet_agent_os.Graph.Ancestry.{length-reverse, contains-reverse, ancestors_iff}

-- The number of edges out of the names.
abbrev pub edges : Graph → List String → ℕ
edges g [] = 0
edges g (n ∷ ns) = length (g n) + edges g ns

-- The edges out of the names that are not found yet.
load : Graph → List String → List String → ℕ
load g [] found = 0
load g (n ∷ ns) found = (if contains n found then 0 else length (g n)) + load g ns found

load-nil : (g : Graph) (ns : List String) → load g ns [] ≡ edges g ns
unfolding load
load-nil g [] = omega arith
load-nil g (n ∷ ns) = ground (arith, load-nil g ns)

load_mono :
    (g : Graph) (d : String) (ns found : List String) → load g ns (d ∷ found) ≤ load g ns found
unfolding load
load_mono g d [] found = omega arith
load_mono g d (n ∷ ns) found = ground (arith, load_mono g d ns found)

-- Finding a node takes its edges off.
load_step :
    (g : Graph) (d : String) (ns found : List String)
    → contains d found ≡ false
    → contains d ns ≡ true
    → load g ns (d ∷ found) + length (g d) ≤ load g ns found
unfolding load
load_step g d [] found new h = ground (arith, h)
load_step g d (n ∷ ns) found new h = elim (Bool-cases (d == n)) [
  | inl s ↦
      subst (λ m. load g (m ∷ ns) (d ∷ found) + length (g d) ≤ load g (m ∷ ns) found)
        ((eq_iff d n).0 s) (ground (arith, eq_refl d, new, load_mono g d ns found))
  | inr s ↦ ground (arith, load_step g d ns found new, eq_iff n d, eq_iff d n)
]

Subset-push :
    (g : Graph) (d : String) (names pending : List String)
    → Subset (g d) names
    → Subset pending names
    → Subset (reverse (g d) ++ pending) names
Subset-push g d names pending k s a h = elim (Bool-cases (contains a (g d))) [
  | inl e ↦ k a e
  | inr e ↦
      s a (ground (arith, contains-append a (reverse (g d)) pending, contains-reverse a (g d), h))
]

ancestors_loop-total :
    (g : Graph) (names : List String)
    → IsClosed g names
    → (fuel : ℕ) (pending result : List String) → Subset pending names
    → length pending + load g names result < fuel
    → (found : List String) × (ancestors_loop g fuel pending result ≡ some found)
unfolding ancestors_loop
ancestors_loop-total g names c zero pending result s b = absurd (omega arith)
ancestors_loop-total g names c (suc fuel) [] result s b = (result, refl)
ancestors_loop-total g names c (suc fuel) (d ∷ pending) result s b =
    elim (Bool-cases (contains d result)) [
      | inl old ↦ rw old (
          ancestors_loop-total g names c fuel pending result (λ a m. s a (ground (arith, m)))
            (omega arith))
      | inr new ↦ rw new (
          ancestors_loop-total g names c fuel (reverse (g d) ++ pending) (d ∷ result)
            (Subset-push g d names pending (c d (s d (contains-head d pending)))
              (λ a m. s a (ground (arith, m))))
            (omega (
              arith,
              length-append (reverse (g d)) pending,
              length-reverse (g d),
              load_step g d names result new (s d (contains-head d pending)),
            )))
    ]

-- On a closed graph the search from a node whose needs are nodes returns, with fuel for one round
-- more than there are edges, its own counted twice.
pub ancestors-total :
    (g : Graph) (names : List String) (name : String) (fuel : ℕ)
    → IsClosed g names
    → Subset (g name) names
    → length (g name) + edges g names < fuel
    → (found : List String) × (ancestors g fuel name ≡ some found)
unfolding ancestors
ancestors-total g names name fuel c s b =
    ancestors_loop-total g names c fuel (reverse (g name)) []
      (λ a h. s a (rw contains-reverse at h))
      (omega (arith, length-reverse (g name), load-nil g names))

-- On a closed graph the search from a node whose needs are nodes, with fuel for one round more than there
-- are edges, its own counted twice, returns a list, and in it are exactly the nodes that the node depends
-- on, directly or through others.
pub ancestors-DependsOn :
    (g : Graph) (names : List String) (name : String) (fuel : ℕ)
    → IsClosed g names
    → Subset (g name) names
    → length (g name) + edges g names < fuel
    → (found : List String) × (ancestors g fuel name ≡ some found)
      × ((y : String) → (contains y found ≡ true) ↔ DependsOn g name y)
ancestors-DependsOn g names name fuel c s b =
    let (found, e) = ancestors-total g names name fuel c s b in
    (found, e, λ y. ancestors_iff g fuel name found y e)
