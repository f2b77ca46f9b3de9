-- ===== src/Schedules/Cron/Ranges.antt =====
-- schedules.py: the values of one part of a cron field, `range(start, end + 1, step)`.
use bastet_agent_os.Prelude.{
  ℕ, zero, suc, ◌+◌, ◌*◌, ◌-◌, ◌≤◌, ◌<◌, ◌≡◌, inl, inr, ◌↔◌, true, false, All, leb, leb→le, eqb,
  Bool-cases, arith,
}
use bastet_agent_os.Schedules.Cron.{range_by, member}

pub range_by-All :
    (low fuel start end step : ℕ)
    → low ≤ start
    → All (λ v. (low ≤ v) × (v ≤ end)) (range_by fuel start end step)
unfolding range_by
range_by-All low zero start end step l = tt
range_by-All low (suc fuel) start end step l = elim (Bool-cases (leb start end)) [
  | inl e ↦
      rw e ((l, leb→le start end e), range_by-All low fuel (start + step) end step (omega arith))
  | inr e ↦ rw e tt
]

-- `v` is one of the values from `start` on.
abbrev pub IsStep : ℕ → ℕ → ℕ → ℕ → Type 0
IsStep start end step v = (v ≤ end) × ((k : ℕ) × (v ≡ start + k * step))

eqb→eq : (a b : ℕ) → eqb a b ≡ true → a ≡ b
eqb→eq a b h = ground arith

later :
    (start step v k : ℕ)
    → eqb v start ≡ false
    → v ≡ start + k * step
    → (j : ℕ) × (v ≡ start + step + j * step)
later start step v zero e q = let bad : ⊥ = ground arith in absurd bad
later start step v (suc k) e q = (k, omega arith)

-- With enough fuel the list has the values that the range has, and no others.
pub member-range_by :
    (fuel start end step v : ℕ)
    → 1 ≤ step
    → end - start < fuel
    → (member v (range_by fuel start end step) ≡ true) ↔ IsStep start end step v
unfolding range_by
member-range_by zero start end step v p f = let bad : ⊥ = omega arith in absurd bad
member-range_by (suc fuel) start end step v p f = elim (Bool-cases (leb start end)) [
  | inr e ↦ rw e (
    λ h. let bad : ⊥ = cc in absurd bad,
    λ (le, (k, q)). let bad : ⊥ = ground arith in absurd bad,
  )
  | inl e ↦ rw e (
    λ h. elim (Bool-cases (eqb v start)) [
      | inl same ↦ (ground arith, (0, ground arith))
      | inr more ↦
          let (le, (k, q)) =
            (member-range_by fuel (start + step) end step v p (ground arith)).0 (ground arith) in
          (le, (suc k, omega arith))
    ],
    λ (le, (k, q)). elim (Bool-cases (eqb v start)) [
      | inl same ↦ ground arith
      | inr more ↦ ground (
        arith,
        (member-range_by fuel (start + step) end step v p (ground arith)).1
            (le, later start step v k more q),
      )
    ],
  )
]
