-- ===== src/Graph/Ancestry.antt =====
-- The result of the ancestor search of workflow.py.
use mathlib.Core.Path.{subst}
use mathlib.Core.List.{reverse-append}
use bastet_agent_os.Prelude.{
  ℕ, zero, suc, String, ◌≡◌, ◌↔◌, refl, sym, true, inl, inr, List, [], ◌∷◌, ◌++◌, some, contains,
  contains-head, contains-append, length, length-append, reverse, Bool-cases, eq_iff, ◌==◌, ◌||◌,
  arith,
}
use bastet_agent_os.Graph.{Graph, DependsOn, edge, path, ancestors_loop, ancestors}

pub contains-reverse : (a : String) (xs : List String) → contains a (reverse xs) ≡ contains a xs
contains-reverse a [] = refl
contains-reverse a (x ∷ xs) =
    rw (reverse-append (x ∷ []) xs, contains-append a (reverse xs) (x ∷ []))
      (ground (arith, contains-reverse a xs))

pub length-reverse : (xs : List String) → length (reverse xs) ≡ length xs
length-reverse [] = refl
length-reverse (x ∷ xs) =
    rw (reverse-append (x ∷ []) xs, length-append (reverse xs) (x ∷ []))
      (omega (arith, length-reverse xs))

-- What is found or still pending is reached from `name`.
abbrev Reached : Graph → String → List String → Type 0
Reached g name xs = (a : String) → contains a xs ≡ true → DependsOn g name a

-- All that `d` needs is found or pending.
abbrev Handled : Graph → List String → List String → String → Type 0
Handled g pending result d =
    (a : String) → contains a (g d) ≡ true → (contains a pending || contains a result) ≡ true

Reached-push :
    (g : Graph) (name d : String) (pending : List String)
    → Reached g name (d ∷ pending)
    → Reached g name (reverse (g d) ++ pending)
Reached-push g name d pending r a h = elim (Bool-cases (contains a (g d))) [
  | inl e ↦ path (r d (contains-head d pending)) e
  | inr e ↦
      r a (ground (arith, contains-append a (reverse (g d)) pending, contains-reverse a (g d), h))
]

Reached-cons :
    (g : Graph) (name d : String) (xs : List String)
    → DependsOn g name d
    → Reached g name xs
    → Reached g name (d ∷ xs)
Reached-cons g name d xs e r a h = elim (Bool-cases (a == d)) [
  | inl s ↦ subst (λ b. DependsOn g name b) (sym ((eq_iff a d).0 s)) e
  | inr s ↦ r a (ground (arith, h))
]

ancestors_loop_sound :
    (g : Graph) (name : String) (fuel : ℕ) (pending result found : List String)
    → Reached g name pending
    → Reached g name result
    → ancestors_loop g fuel pending result ≡ some found
    → Reached g name found
unfolding ancestors_loop
ancestors_loop_sound g name zero pending result found p r h = let bad : ⊥ = cc in absurd bad
ancestors_loop_sound g name (suc fuel) [] result found p r h =
    let e : result ≡ found = cc in subst (Reached g name) e r
ancestors_loop_sound g name (suc fuel) (d ∷ pending) result found p r h =
    elim (Bool-cases (contains d result)) [
      | inl old ↦
          ancestors_loop_sound g name fuel pending result found (λ a m. p a (ground (arith, m))) r
            (rw old at h)
      | inr new ↦
          ancestors_loop_sound g name fuel (reverse (g d) ++ pending) (d ∷ result) found
            (Reached-push g name d pending p)
            (Reached-cons g name d result (p d (contains-head d pending)) r) (rw new at h)
    ]

-- The node itself and all that is found are handled.
abbrev Covered : Graph → String → List String → List String → Type 0
Covered g name pending result =
    Handled g pending result name
    × ((d : String) → contains d result ≡ true → Handled g pending result d)

Handled-skip :
    (g : Graph) (d x : String) (pending result : List String)
    → contains d result ≡ true
    → Handled g (d ∷ pending) result x
    → Handled g pending result x
Handled-skip g d x pending result old k a h = ground (arith, k a h, eq_iff a d)

Handled-push :
    (g : Graph) (d x : String) (pending result : List String)
    → Handled g (d ∷ pending) result x
    → Handled g (reverse (g d) ++ pending) (d ∷ result) x
Handled-push g d x pending result k a h =
    ground (arith, k a h, contains-append a (reverse (g d)) pending)

Handled-self :
    (g : Graph) (d : String) (pending result : List String)
    → Handled g (reverse (g d) ++ pending) (d ∷ result) d
Handled-self g d pending result a h =
    ground (arith, h, contains-append a (reverse (g d)) pending, contains-reverse a (g d))

Covered-push :
    (g : Graph) (name d : String) (pending result : List String)
    → Covered g name (d ∷ pending) result
    → Covered g name (reverse (g d) ++ pending) (d ∷ result)
Covered-push g name d pending result (n, r) = (
  Handled-push g d name pending result n,
  λ x h. elim (Bool-cases (x == d)) [
    | inl s ↦
        subst (λ y. Handled g (reverse (g d) ++ pending) (d ∷ result) y) (sym ((eq_iff x d).0 s))
          (Handled-self g d pending result)
    | inr s ↦ Handled-push g d x pending result (r x (ground (arith, h)))
  ],
)

ancestors_loop-covers :
    (g : Graph) (name : String) (fuel : ℕ) (pending result found : List String)
    → Covered g name pending result
    → ancestors_loop g fuel pending result ≡ some found
    → Covered g name [] found
unfolding ancestors_loop
ancestors_loop-covers g name zero pending result found c h = let bad : ⊥ = cc in absurd bad
ancestors_loop-covers g name (suc fuel) [] result found c h =
    let e : result ≡ found = cc in subst (Covered g name []) e c
ancestors_loop-covers g name (suc fuel) (d ∷ pending) result found c h =
    elim (Bool-cases (contains d result)) [
      | inl old ↦
          ancestors_loop-covers g name fuel pending result found
            (
              Handled-skip g d name pending result old c.0,
              λ x m. Handled-skip g d x pending result old (c.1 x m),
            )
            (rw old at h)
      | inr new ↦
          ancestors_loop-covers g name fuel (reverse (g d) ++ pending) (d ∷ result) found
            (Covered-push g name d pending result c) (rw new at h)
    ]

Covered-DependsOn :
    {g : Graph} {name y : String} (found : List String)
    → Covered g name [] found
    → DependsOn g name y
    → contains y found ≡ true
Covered-DependsOn found c (edge {y = y} e) = c.0 y e
Covered-DependsOn found c (path {y = m} {z = z} d e) = c.1 m (Covered-DependsOn found c d) z e

-- The search returns exactly the nodes that `name` depends on, directly or through others.
pub ancestors_iff :
    (g : Graph) (fuel : ℕ) (name : String) (found : List String) (y : String)
    → ancestors g fuel name ≡ some found
    → (contains y found ≡ true) ↔ DependsOn g name y
unfolding ancestors
ancestors_iff g fuel name found y h = (
  λ m.
      ancestors_loop_sound g name fuel (reverse (g name)) [] found
        (λ a k. edge (rw contains-reverse at k))
        (λ a k. let bad : ⊥ = ground (arith, k) in absurd bad) h y m,
  λ d.
      Covered-DependsOn found
        (ancestors_loop-covers g name fuel (reverse (g name)) [] found
          (
            (λ a k. ground (arith, k, contains-reverse a (g name))),
            λ a k. let bad : ⊥ = ground (arith, k) in absurd bad,
          )
          h)
        d,
)
