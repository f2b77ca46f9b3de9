-- ===== src/Workflow/Rework/Walk.antt =====
-- workflow.py: `rework_target_for` with and without an explicit target.
use mathlib.Core.Path.{subst}
use native.Mathlib.Decide.{ℕ_discrete, dec_lt}
use mathlib.Core.Option.{some-injective}
use bastet_agent_os.Prelude.{
  ℕ, zero, suc, ◌-◌, ◌≤◌, ◌<◌, min, String, ◌≡◌, ◌≢◌, ◌⊎◌, inl, inr, refl, sym, true, false, List,
  [], ◌∷◌, none, some, contains, Bool-cases, Option-cases, length, get_elem?, ◌==◌, eq_iff, eq_refl,
  arith, ◌∙◌, ap,
}
use bastet_agent_os.Workflow.Stage.{StageDef, names}
use bastet_agent_os.Workflow.Rework.{
  writable_at, writable_back, index_of, clamped, rework_target_for,
}

-- The candidates are the stages at or before `idx` that may write.
abbrev pub IsCandidate : List StageDef → ℕ → ℕ → Type 0
IsCandidate stages idx t = (t ≤ idx) × (writable_at stages t ≡ true)

-- No stage from `low` up to `high` may write.
abbrev pub NoneBetween : List StageDef → ℕ → ℕ → Type 0
NoneBetween stages low high = (j : ℕ) → low ≤ j → j ≤ high → writable_at stages j ≡ false

Nat-cases : (a b : ℕ) → (a ≡ b) ⊎ (a ≢ b)
Nat-cases a b = elim (ℕ_discrete a b) [ yes p ↦ inl p | no p ↦ inr p ]

length-le_of_none : (w : List ℕ) (k : ℕ) → get_elem? w k ≡ none → length w ≤ k
length-le_of_none [] k h = omega arith
length-le_of_none (x ∷ w) zero h = let bad : ⊥ = cc in absurd bad
length-le_of_none (x ∷ w) (suc k) h = omega (arith, length-le_of_none w k h)

nil_of_length : (w : List ℕ) → length w ≡ 0 → w ≡ []
nil_of_length [] h = refl
nil_of_length (x ∷ w) h = absurd (omega arith)

index-cases :
    (name : String) (stages : List StageDef)
    → ((t : ℕ) × (target : StageDef) × (index_of name stages ≡ some t)
        × (get_elem? stages t ≡ some target)
        × (target.name ≡ name))
      ⊎ ((index_of name stages ≡ none) × (contains name (names stages) ≡ false))
unfolding index_of
index-cases name [] = inr (refl, refl)
index-cases name (s ∷ stages) = elim (Bool-cases (s.name == name)) [
  | inl e ↦ inl (0, s, ground (arith, e), refl, (eq_iff s.name name).0 e)
  | inr e ↦ elim (index-cases name stages) [
    | inl (t, target, p, q, n) ↦ inl (suc t, target, ground (arith, e, p), q, n)
    | inr (p, q) ↦
        inr (ground (arith, e, p), ground (arith, e, q, eq_iff name s.name, eq_iff s.name name))
  ]
]

module _ (stages : List StageDef) where
  back_sound :
      (idx k t : ℕ) → get_elem? (writable_back stages idx) k ≡ some t → IsCandidate stages idx t
  unfolding writable_back
  back_sound zero zero t h = ground arith
  back_sound zero (suc k) t h = ground arith
  back_sound (suc i) zero t h = elim (Bool-cases (writable_at stages (suc i))) [
    | inl e ↦ ground (arith, e, h)
    | inr e ↦ let (le, w) = back_sound i zero t (rw e at h) in (omega arith, w)
  ]
  back_sound (suc i) (suc k) t h = elim (Bool-cases (writable_at stages (suc i))) [
    | inl e ↦ let (le, w) = back_sound i k t (rw e at h) in (omega arith, w)
    | inr e ↦ let (le, w) = back_sound i (suc k) t (rw e at h) in (omega arith, w)
  ]

  back-falls :
      (idx k t u : ℕ)
      → get_elem? (writable_back stages idx) k ≡ some t
      → get_elem? (writable_back stages idx) (suc k) ≡ some u
      → u < t
  unfolding writable_back
  back-falls zero k t u h g = ground arith
  back-falls (suc i) zero t u h g = elim (Bool-cases (writable_at stages (suc i))) [
    | inl e ↦ ground (arith, e, back_sound i 0 u)
    | inr e ↦ back-falls i zero t u (rw e at h) (rw e at g)
  ]
  back-falls (suc i) (suc k) t u h g = elim (Bool-cases (writable_at stages (suc i))) [
    | inl e ↦ back-falls i k t u (rw e at h) (rw e at g)
    | inr e ↦ back-falls i (suc k) t u (rw e at h) (rw e at g)
  ]

  back-nil : (idx : ℕ) → writable_back stages idx ≡ [] → NoneBetween stages 0 idx
  unfolding writable_back
  back-nil zero h zero l u = ground arith
  back-nil zero h (suc j) l u = absurd (omega arith)
  back-nil (suc i) h j l u = elim (Bool-cases (writable_at stages (suc i))) [
    | inl e ↦ let bad : ⊥ = ground (arith, e) in absurd bad
    | inr e ↦ elim (Nat-cases j (suc i)) [
      | inl p ↦ rw p e
      | inr p ↦ back-nil i (rw e at h) j l (omega arith)
    ]
  ]

  back-first :
      (idx t : ℕ) → get_elem? (writable_back stages idx) 0 ≡ some t → NoneBetween stages (suc t) idx
  unfolding writable_back
  back-first zero t h j l u = ground (arith, back_sound 0 0 t)
  back-first (suc i) t h j l u = elim (Bool-cases (writable_at stages (suc i))) [
    | inl e ↦ let bad : ⊥ = ground (arith, e) in absurd bad
    | inr e ↦ elim (Nat-cases j (suc i)) [
      | inl p ↦ rw p e
      | inr p ↦ back-first i t (rw e at h) j l (omega arith)
    ]
  ]

  -- Below the last candidate of the list no stage may write.
  back-last :
      (idx k t : ℕ)
      → get_elem? (writable_back stages idx) k ≡ some t
      → length (writable_back stages idx) ≤ suc k
      → (j : ℕ) → j < t
      → writable_at stages j ≡ false
  unfolding writable_back
  back-last zero k t h n j l = absurd (omega (arith, (back_sound zero k t h).0))
  back-last (suc i) zero t h n j l = elim (Bool-cases (writable_at stages (suc i))) [
    | inl e ↦
        let all_done : writable_back stages i ≡ [] = ground (arith, e) in
        back-nil i all_done j (omega arith) (ground (arith, e))
    | inr e ↦ back-last i zero t (rw e at h) (rw e at n) j l
  ]
  back-last (suc i) (suc k) t h n j l = elim (Bool-cases (writable_at stages (suc i))) [
    | inl e ↦ back-last i k t (rw e at h) (ground (arith, e)) j l
    | inr e ↦ back-last i (suc k) t (rw e at h) (rw e at n) j l
  ]

  -- Without an explicit target the choice is read off the candidates.
  rework-clamped :
      (idx attempt : ℕ) (s : StageDef)
      → get_elem? stages idx ≡ some s
      → s.rework_target ≡ ""
      → rework_target_for stages idx attempt ≡ some (clamped (writable_back stages idx) attempt)
  unfolding rework_target_for
  rework-clamped idx attempt s h e =
      ground (arith, eq_refl s.rework_target, eq_iff s.rework_target "")

  -- Without an explicit target, what is handed the work stands at or before the stage that failed
  -- and may write; at the first attempt no stage between the two may write; and there is no target
  -- only if no stage up to the failed one may write.
  pub rework_target_for-IsCandidate :
      (idx attempt : ℕ) (s : StageDef)
      → get_elem? stages idx ≡ some s
      → s.rework_target ≡ ""
      → ((t : ℕ) × (rework_target_for stages idx attempt ≡ some (some t))
          × IsCandidate stages idx t
          × (attempt ≡ 0 → NoneBetween stages (suc t) idx))
        ⊎ ((rework_target_for stages idx attempt ≡ some none) × NoneBetween stages 0 idx)
  unfolding clamped
  rework_target_for-IsCandidate idx attempt s h e =
      let w = writable_back stages idx in
      let at = rework-clamped idx attempt s h e in
      elim (Option-cases (get_elem? w (min attempt (length w - 1)))) [
        | inl p ↦ inr (
          at ∙ ap some p,
          back-nil idx
              (nil_of_length w (omega (arith, length-le_of_none w (min attempt (length w - 1)) p))),
        )
        | inr (t, p) ↦ inl (
          t,
          at ∙ ap some p,
          back_sound idx (min attempt (length w - 1)) t p,
          λ z. back-first idx t (subst (λ k. get_elem? w k ≡ some t) (omega arith) p),
        )
      ]

  -- Without an explicit target, one more attempt hands the work to an earlier stage, or to the same
  -- stage if no earlier one may write.
  pub rework_target_for-walks_back :
      (idx attempt t u : ℕ) (s : StageDef)
      → get_elem? stages idx ≡ some s
      → s.rework_target ≡ ""
      → rework_target_for stages idx attempt ≡ some (some t)
      → rework_target_for stages idx (suc attempt) ≡ some (some u)
      → (u < t) ⊎ ((u ≡ t) × ((j : ℕ) → j < t → writable_at stages j ≡ false))
  unfolding clamped
  rework_target_for-walks_back idx attempt t u s h e p q =
      let w = writable_back stages idx in
      let pt : get_elem? w (min attempt (length w - 1)) ≡ some t =
        some-injective _ _ (sym (rework-clamped idx attempt s h e) ∙ p) in
      let pu : get_elem? w (min (suc attempt) (length w - 1)) ≡ some u =
        some-injective _ _ (sym (rework-clamped idx (suc attempt) s h e) ∙ q) in
      elim (dec_lt attempt (length w - 1)) [
        | yes l ↦
            let a1 : min attempt (length w - 1) ≡ attempt = omega arith in
            let a2 : min (suc attempt) (length w - 1) ≡ suc attempt = omega arith in
            inl (back-falls idx attempt t u (rw a1 at pt) (rw a2 at pu))
        | no l ↦
            let a1 : min attempt (length w - 1) ≡ length w - 1 = omega arith in
            let a2 : min (suc attempt) (length w - 1) ≡ length w - 1 = omega arith in
            let qt : get_elem? w (length w - 1) ≡ some t = rw a1 at pt in
            let qu : get_elem? w (length w - 1) ≡ some u = rw a2 at pu in
            inr (some-injective _ _ (sym qu ∙ qt), back-last idx (length w - 1) t qt (omega arith))
      ]

  -- With an explicit target the work goes to the first stage of that name, whatever the attempt, and
  -- to nobody only if no stage has the name.
  pub rework_target_for-explicit :
      (idx attempt : ℕ) (s : StageDef)
      → get_elem? stages idx ≡ some s
      → s.rework_target ≢ ""
      → ((t : ℕ) × (target : StageDef) × (rework_target_for stages idx attempt ≡ some (some t))
          × (get_elem? stages t ≡ some target)
          × (target.name ≡ s.rework_target))
        ⊎ ((rework_target_for stages idx attempt ≡ some none)
            × (contains s.rework_target (names stages) ≡ false))
  unfolding rework_target_for
  rework_target_for-explicit idx attempt s h e = elim (index-cases s.rework_target stages) [
    | inl (t, target, p, q, n) ↦
        inl (t, target, ground (arith, h, p, eq_iff s.rework_target "", e), q, n)
    | inr (p, q) ↦ inr (ground (arith, h, p, eq_iff s.rework_target "", e), q)
  ]
