-- ===== src/Prelude/Results.antt =====
-- A call that may raise: the value, or what was raised.
use mathlib.Core.Path.{◌≡◌, refl, subst}
use mathlib.Core.Logic.{◌⊎◌, inl, inr}
use mathlib.Core.Bool.{Bool, true, false}
use mathlib.Core.List.{List, [], ◌∷◌}
use bastet_agent_os.Prelude.Lists.{All}

pub data Result {ℓ κ} (E : Type ℓ) (A : Type κ) : Type (ℓ ⊔ κ) where
  ok : A → Result E A
  err : E → Result E A

infixl 5 ◌>>=◌ ◌>>◌
abbrev pub ◌>>=◌ {ℓ κ μ} :
    {E : Type ℓ} {A : Type κ} {B : Type μ} → Result E A → (A → Result E B) → Result E B
ok a >>= f = f a
err e >>= f = err e

abbrev pub ◌>>◌ {ℓ κ μ} :
    {E : Type ℓ} {A : Type κ} {B : Type μ} → Result E A → Result E B → Result E B
ok a >> k = k
err e >> k = err e

-- What a successful bind says of its parts.
pub >>=-eq-ok {ℓ κ μ} :
    {E : Type ℓ} {A : Type κ} {B : Type μ} {b : B} (action : Result E A) (next : A → Result E B)
    → action >>= next ≡ ok b
    → (x : A) × (action ≡ ok x) × (next x ≡ ok b)
>>=-eq-ok (err e) next h = cc
>>=-eq-ok (ok x) next h = (x, refl, h)

-- And a failed one.
pub >>=-eq-err {ℓ κ μ} :
    {E : Type ℓ} {A : Type κ} {B : Type μ} {e : E} (action : Result E A) (next : A → Result E B)
    → action >>= next ≡ err e
    → (action ≡ err e) ⊎ ((x : A) × (action ≡ ok x) × (next x ≡ err e))
>>=-eq-err (err e) next h = inl (cc)
>>=-eq-err (ok x) next h = inr (x, refl, h)

pub Result-cases {ℓ κ} :
    {E : Type ℓ} {A : Type κ} (m : Result E A) → ((a : A) × (m ≡ ok a)) ⊎ ((e : E) × (m ≡ err e))
Result-cases (ok a) = inl (a, refl)
Result-cases (err e) = inr (e, refl)

-- `if test: raise e`.
abbrev pub raise_if {ℓ} : {E : Type ℓ} → Bool → E → Result E (Unit {0})
raise_if true e = err e
raise_if false e = ok tt

-- `for x in xs: f(x)`, where `f` only checks.
abbrev pub for_each {ℓ κ} :
    {E : Type ℓ} {A : Type κ} → (A → Result E (Unit {0})) → List A → Result E (Unit {0})
for_each f [] = ok tt
for_each f (x ∷ xs) = f x >> for_each f xs

pub raise_if-eq-ok {ℓ} : {E : Type ℓ} (b : Bool) (e : E) → raise_if b e ≡ ok tt → b ≡ false
raise_if-eq-ok true e h = cc
raise_if-eq-ok false e h = refl

pub >>-eq-ok {ℓ κ μ} :
    {E : Type ℓ} {A : Type κ} {B : Type μ} (m : Result E A) (k : Result E B) {b : B}
    → (m >> k) ≡ ok b
    → ((a : A) × (m ≡ ok a)) × (k ≡ ok b)
>>-eq-ok (ok a) k h = ((a, refl), h)
>>-eq-ok (err e) k h = cc

pub >>-eq-err {ℓ κ μ} :
    {E : Type ℓ} {A : Type κ} {B : Type μ} (m : Result E A) (k : Result E B) {e : E}
    → (m >> k) ≡ err e
    → (m ≡ err e) ⊎ (((a : A) × (m ≡ ok a)) × (k ≡ err e))
>>-eq-err (ok a) k h = inr ((a, refl), h)
>>-eq-err (err e) k h = inl (cc)

pub for_each-All {ℓ κ} :
    {E : Type ℓ} {A : Type κ} (f : A → Result E (Unit {0})) (xs : List A)
    → for_each f xs ≡ ok tt
    → All (λ x. f x ≡ ok tt) xs
for_each-All f [] h = tt
for_each-All f (x ∷ xs) h =
    let ((tt', e), k) = >>-eq-ok (f x) (for_each f xs) h in (e, for_each-All f xs k)

-- If the call returns, then with a value that has the property.
pub record Ensures {ℓ κ μ} {E : Type ℓ} {A : Type κ} (P : A → Type μ) (m : Result E A)
    : Type (ℓ ⊔ κ ⊔ μ) where
  pub at : (a : A) → m ≡ ok a → P a

module _ {ℓ κ μ ν} {E : Type ℓ} {A : Type κ} {B : Type μ} {P : B → Type ν} where
  pub Ensures-bind {ρ} :
      {Q : A → Type ρ} (m : Result E A) (f : A → Result E B)
      → Ensures Q m
      → ((a : A) → Q a → Ensures P (f a))
      → Ensures P (m >>= f)
  Ensures-bind (ok a) f q k = k a (q.at a refl)
  Ensures-bind (err e) f q k = record { at = λ a h. let bad : ⊥ = cc in absurd bad }

  pub Ensures-bind_any :
      (m : Result E A) (f : A → Result E B) → ((a : A) → Ensures P (f a)) → Ensures P (m >>= f)
  Ensures-bind_any (ok a) f k = k a
  Ensures-bind_any (err e) f k = record { at = λ a h. let bad : ⊥ = cc in absurd bad }

  pub Ensures-after : (m : Result E A) (k : Result E B) → Ensures P k → Ensures P (m >> k)
  Ensures-after (ok a) k h = h
  Ensures-after (err e) k h = record { at = λ a h. let bad : ⊥ = cc in absurd bad }

pub Ensures-ok {ℓ κ μ} :
    {E : Type ℓ} {B : Type κ} {P : B → Type μ} (b : B) → P b → Ensures {E = E} P (ok b)
Ensures-ok {P = P} b p = record { at = λ a h. let same : b ≡ a = cc in subst P same p }

pub Ensures-err {ℓ κ μ} :
    {E : Type ℓ} {B : Type κ} {P : B → Type μ} (e : E) → Ensures {A = B} P (err e)
Ensures-err e = record { at = λ a h. let bad : ⊥ = cc in absurd bad }

pub Ensures-raise_if {ℓ κ μ} :
    {E : Type ℓ} {B : Type κ} {P : B → Type μ} (test : Bool) (e : E) (k : Result E B)
    → (test ≡ false → Ensures P k)
    → Ensures P (raise_if test e >> k)
Ensures-raise_if true e k f = record { at = λ a h. let bad : ⊥ = cc in absurd bad }
Ensures-raise_if false e k f = f refl

-- A loop of checks fails at one of its elements.
pub for_each-err {ℓ κ} :
    {E : Type ℓ} {A : Type κ} (f : A → Result E (Unit {0})) (xs : List A) {e : E}
    → for_each f xs ≡ err e
    → (x : A) × (f x ≡ err e)
for_each-err f [] h = let bad : ⊥ = cc in absurd bad
for_each-err f (x ∷ xs) h = elim (>>-eq-err (f x) (for_each f xs) h) [
  | inl now ↦ (x, now)
  | inr (_, later) ↦ for_each-err f xs later
]
