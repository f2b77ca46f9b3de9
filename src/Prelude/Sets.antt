-- ===== src/Prelude/Sets.antt =====
-- Python's `in` on lists and sets of texts. A set is a list whose order and repetitions nothing reads.
use Prim.Native.Nat.{suc, ◌≤◌}
use Prim.Native.String.{String}
use mathlib.Core.Path.{◌≡◌, refl}
use mathlib.Core.Bool.{Bool, true, false, ◌||◌}
use mathlib.Core.List.{List, [], ◌∷◌, ◌++◌}
use native.Mathlib.Omega.{arith}
use text.Mathlib.Text.{◌==◌}
use text.Mathlib.TextEquality.{eq_iff}
use text.Mathlib.TextPositions.{eq_refl}
use bastet_agent_os.Prelude.Tests.{if◌then◌else◌}
use bastet_agent_os.Prelude.Lists.{length}

abbrev pub contains : String → List String → Bool
contains a [] = false
contains a (x ∷ xs) = a == x || contains a xs

pub contains-head : (a : String) (xs : List String) → contains a (a ∷ xs) ≡ true
contains-head a xs = rw eq_refl refl

pub contains-append :
    (a : String) (xs ys : List String) → contains a (xs ++ ys) ≡ (contains a xs || contains a ys)
contains-append a [] ys = refl
contains-append a (x ∷ xs) ys = ground (arith, contains-append a xs ys)

-- Every element of the first list is one of the second.
abbrev pub Subset : List String → List String → Type 0
Subset xs ys = (a : String) → contains a xs ≡ true → contains a ys ≡ true

abbrev pub IsNodup : List String → Type 0
IsNodup [] = Unit
IsNodup (x ∷ xs) = (contains x xs ≡ false) × IsNodup xs

-- `list(dict.fromkeys(xs))`: the first occurrence of each text, in order.
abbrev pub dedup_onto : List String → List String → List String
dedup_onto seen [] = []
dedup_onto seen (x ∷ xs) =
    let old = dedup_onto seen xs in
    let new = x ∷ dedup_onto (x ∷ seen) xs in if contains x seen then old else new

abbrev pub dedup : List String → List String
dedup = dedup_onto []

-- `xs` without its first `a`.
remove : String → List String → List String
remove a [] = []
remove a (x ∷ xs) = let rest = remove a xs in if a == x then xs else x ∷ rest

length-remove :
    (a : String) (xs : List String) → contains a xs ≡ true → suc (length (remove a xs)) ≡ length xs
unfolding remove
length-remove a [] h = ground arith
length-remove a (x ∷ xs) h = ground (arith, length-remove a xs)

contains-remove :
    (a b : String) (xs : List String)
    → contains b xs ≡ true
    → (a == b) ≡ false
    → contains b (remove a xs) ≡ true
unfolding remove
contains-remove a b [] h n = h
contains-remove a b (x ∷ xs) h n =
    ground (arith, contains-remove a b xs, eq_iff a x, eq_iff b x, eq_iff a b)

contains_ne :
    (x a : String) (xs : List String)
    → contains x xs ≡ false
    → contains a xs ≡ true
    → (x == a) ≡ false
contains_ne x a [] h k = ground arith
contains_ne x a (y ∷ xs) h k =
    ground (arith, contains_ne x a xs, eq_iff x y, eq_iff a y, eq_iff x a)

Subset-remove :
    (x : String) (xs ys : List String)
    → contains x xs ≡ false
    → Subset (x ∷ xs) ys
    → Subset xs (remove x ys)
Subset-remove x xs ys new s a h =
    contains-remove x a ys (s a (ground (arith, h))) (contains_ne x a xs new h)

-- The pigeonhole principle: distinct elements of `ys` are no more than `ys` has.
pub length-le_of_Subset : (xs ys : List String) → IsNodup xs → Subset xs ys → length xs ≤ length ys
length-le_of_Subset [] ys nd s = omega arith
length-le_of_Subset (x ∷ xs) ys (new, nd) s = omega (
  arith,
  length-remove x ys (s x (contains-head x xs)),
  length-le_of_Subset xs (remove x ys) nd (Subset-remove x xs ys new s),
)
