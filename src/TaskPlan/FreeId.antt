-- ===== src/TaskPlan/FreeId.antt =====
-- project_lifecycle.py: the search of `_task_id` for a free id.
use mathlib.Core.Path.{subst}
use Prim.Native.Char.{code}
use text.Mathlib.TextLemmas.{append_cancel_left}
use bastet_agent_os.Prelude.{
  ℕ, zero, suc, ◌+◌, ◌-◌, ◌*◌, ◌/◌, ◌%◌, ◌<◌, String, ◌≡◌, ◌≢◌, refl, sym, ap, ◌∙◌, inl, inr,
  eq_iff, true, false, List, [], ◌∷◌, none, ◌==◌, contains, IsNodup, Subset, length,
  length-le_of_Subset, Bool-cases, arith, ltb,
}
use bastet_agent_os.TaskPlan.Ids.{digit, decimal_onto, decimal, suffixed, pick, task_id, base_of}

-- The number that a text of digits reads as.
unfoldable read_from : ℕ → String → ℕ
read_from acc String.[] = acc
read_from acc (String.◌∷◌ c s) = read_from (acc * 10 + (code c - 48)) s

code-digit : (d : ℕ) → d < 10 → code (digit d) - 48 ≡ d
code-digit zero l = refl
code-digit (suc zero) l = refl
code-digit (suc (suc zero)) l = refl
code-digit (suc (suc (suc zero))) l = refl
code-digit (suc (suc (suc (suc zero)))) l = refl
code-digit (suc (suc (suc (suc (suc zero))))) l = refl
code-digit (suc (suc (suc (suc (suc (suc zero)))))) l = refl
code-digit (suc (suc (suc (suc (suc (suc (suc zero))))))) l = refl
code-digit (suc (suc (suc (suc (suc (suc (suc (suc zero)))))))) l = refl
code-digit (suc (suc (suc (suc (suc (suc (suc (suc (suc n))))))))) l = omega arith

decimal_onto-read :
    (fuel n : ℕ) (text : String)
    → n < fuel
    → read_from 0 (decimal_onto fuel n text) ≡ read_from n text
unfolding read_from decimal_onto
decimal_onto-read zero n text l = let bad : ⊥ = omega arith in absurd bad
decimal_onto-read (suc fuel) n text l = elim (Bool-cases (ltb n 10)) [
  | inl e ↦ rw e (ap (λ k. read_from k text) (ground (arith, e, code-digit n)))
  | inr e ↦ rw e (
      decimal_onto-read fuel (n / 10) (String.◌∷◌ (digit (n % 10)) text) (ground (arith, e))
      ∙ ap (λ k. read_from k text) (omega (arith, code-digit (n % 10) (omega arith))))
]

decimal-read : (n : ℕ) → read_from 0 (decimal n) ≡ n
unfolding read_from decimal
decimal-read n = decimal_onto-read (suc n) n "" (omega arith)

decimal_injective : (a b : ℕ) → decimal a ≡ decimal b → a ≡ b
decimal_injective a b h = sym (decimal-read a) ∙ (ap (read_from 0) h ∙ decimal-read b)

suffixed_injective : (base : String) (a b : ℕ) → suffixed base a ≡ suffixed base b → a ≡ b
suffixed_injective base a b h =
    decimal_injective a b (append_cancel_left "-" _ _ (append_cancel_left base _ _ h))

-- The candidates with a suffix, from the given one on.
unfoldable candidates : String → ℕ → ℕ → List String
candidates base suffix zero = []
candidates base suffix (suc n) = suffixed base suffix ∷ candidates base (suffix + 1) n

later-absent :
    (base : String) (a suffix n : ℕ)
    → a < suffix
    → contains (suffixed base a) (candidates base suffix n) ≡ false
unfolding candidates
later-absent base a suffix zero l = refl
later-absent base a suffix (suc n) l = elim (Bool-cases (suffixed base a == suffixed base suffix)) [
  | inl e ↦
      let same =
        suffixed_injective base a suffix ((eq_iff (suffixed base a) (suffixed base suffix)).0 e) in
      let bad : ⊥ = omega (arith, same) in absurd bad
  | inr e ↦ simp e (later-absent base a (suffix + 1) n (omega arith))
]

candidates-IsNodup : (base : String) (suffix n : ℕ) → IsNodup (candidates base suffix n)
unfolding candidates
candidates-IsNodup base suffix zero = tt
candidates-IsNodup base suffix (suc n) =
    (later-absent base suffix (suffix + 1) n (omega arith), candidates-IsNodup base (suffix + 1) n)

length-candidates : (base : String) (suffix n : ℕ) → length (candidates base suffix n) ≡ n
unfolding candidates
length-candidates base suffix zero = refl
length-candidates base suffix (suc n) = ap suc (length-candidates base (suffix + 1) n)

-- Without a free candidate, all of them are in use.
all_used :
    (n : ℕ) (base : String) (suffix : ℕ) (used : List String)
    → pick n base (suffix + 1) (suffixed base suffix) used ≡ none
    → Subset (candidates base suffix n) used
unfolding pick candidates
all_used zero base suffix used h a c = let bad : ⊥ = ground arith in absurd bad
all_used (suc n) base suffix used h a c = elim (Bool-cases (contains (suffixed base suffix) used)) [
  | inr e ↦ let bad : ⊥ = cc (simp e at h) in absurd bad
  | inl e ↦ elim (Bool-cases (a == suffixed base suffix)) [
    | inl here ↦
        subst (λ x. contains x used ≡ true) (sym ((eq_iff a (suffixed base suffix)).0 here)) e
    | inr later ↦ all_used n base (suffix + 1) used (simp e at h) a (simp later at c)
  ]
]

pub task_id-some :
    (value : String) (index : ℕ) (used : List String) → task_id value index used ≢ none
unfolding task_id pick
task_id-some value index used h = elim (Bool-cases (contains (base_of value index) used)) [
  | inr e ↦ let bad : ⊥ = cc (simp e at h) in absurd bad
  | inl e ↦
      let n = suc (length used) in
      let base = base_of value index in
      let few =
        length-le_of_Subset (candidates base 2 n) used (candidates-IsNodup base 2 n)
          (all_used n base 2 used (simp e at h)) in
      let bad : ⊥ = omega (arith, few, length-candidates base 2 n) in absurd bad
]
