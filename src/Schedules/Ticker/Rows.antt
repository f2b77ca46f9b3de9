-- ===== src/Schedules/Ticker/Rows.antt =====
-- schedules.py: the table of occurrences under its writes.
use mathlib.Core.Path.{subst}
use bastet_agent_os.Prelude.{
  ℕ, String, ◌≡◌, refl, ap, inl, inr, eq_iff, eq_refl, Bool, true, false, List, [], ◌∷◌, none, some,
  eqb, Bool-cases, Option-cases, arith,
}
use bastet_agent_os.Schedules.Store.{Occurrence}
use bastet_agent_os.Schedules.Ticker.Dispatch.{
  Key, same_key, key_of, status_at, insert_claim, set_run,
}

eqb→eq : (a b : ℕ) → eqb a b ≡ true → a ≡ b
eqb→eq a b h = ground arith

pub same_key→eq : (a b : Key) → same_key a b ≡ true → a ≡ b
same_key→eq (a, m) (b, n) h =
    let p : a ≡ b = ground (arith, eq_iff a b, h) in let q : m ≡ n = ground arith in cc

pub same_key_refl : (a : Key) → same_key a a ≡ true
same_key_refl (a, m) = ground (arith, eq_refl a)

-- The primary key: no row has the key of a later one.
abbrev pub HasKeys : List Occurrence → Type 0
HasKeys [] = Unit
HasKeys (o ∷ runs) = (status_at (key_of o) runs ≡ none) × HasKeys runs

-- A write that keeps the key.
abbrev pub KeepsKey : (Occurrence → Occurrence) → Type 0
KeepsKey f = (o : Occurrence) → key_of (f o) ≡ key_of o

-- A write to one row leaves the others.
pub status_at-set_other :
    (k l : Key) (f : Occurrence → Occurrence) (runs : List Occurrence)
    → KeepsKey f
    → same_key l k ≡ false
    → status_at l (set_run k f runs) ≡ status_at l runs
unfolding status_at set_run
status_at-set_other k l f [] keeps ne = refl
status_at-set_other k l f (o ∷ runs) keeps ne = elim (Bool-cases (same_key k (key_of o))) [
  | inl e ↦
      let n : same_key l (key_of o) ≡ false =
        subst (λ x. same_key l x ≡ false) (same_key→eq k (key_of o) e) ne in
      simp (e, ap (same_key l) (keeps o), n) (status_at-set_other k l f runs keeps ne)
  | inr e ↦ elim (Bool-cases (same_key l (key_of o))) [
    | inl n ↦ simp (e, n) refl
    | inr n ↦ simp (e, n) (status_at-set_other k l f runs keeps ne)
  ]
]

pub status_at-set_self :
    (k : Key) (f : Occurrence → Occurrence) (w v : String) (runs : List Occurrence)
    → KeepsKey f
    → ((o : Occurrence) → (f o).status ≡ w)
    → status_at k runs ≡ some v
    → status_at k (set_run k f runs) ≡ some w
unfolding status_at set_run
status_at-set_self k f w v [] keeps sets h = let bad : ⊥ = cc in absurd bad
status_at-set_self k f w v (o ∷ runs) keeps sets h = elim (Bool-cases (same_key k (key_of o))) [
  | inl e ↦ simp (e, ap (same_key k) (keeps o), e) (ap some (sets o))
  | inr e ↦ simp (e, e) (status_at-set_self k f w v runs keeps sets (simp e at h))
]

status_at-none :
    (k l : Key) (f : Occurrence → Occurrence) (runs : List Occurrence)
    → KeepsKey f
    → status_at l runs ≡ none
    → status_at l (set_run k f runs) ≡ none
unfolding status_at set_run
status_at-none k l f [] keeps h = refl
status_at-none k l f (o ∷ runs) keeps h = elim (Bool-cases (same_key l (key_of o))) [
  | inl n ↦ let bad : ⊥ = cc (simp n at h) in absurd bad
  | inr n ↦ elim (Bool-cases (same_key k (key_of o))) [
    | inl e ↦ simp (e, ap (same_key l) (keeps o), n) (status_at-none k l f runs keeps (simp n at h))
    | inr e ↦ simp (e, n) (status_at-none k l f runs keeps (simp n at h))
  ]
]

pub set_run-HasKeys :
    (k : Key) (f : Occurrence → Occurrence) (runs : List Occurrence)
    → KeepsKey f
    → HasKeys runs
    → HasKeys (set_run k f runs)
unfolding set_run
set_run-HasKeys k f [] keeps h = tt
set_run-HasKeys k f (o ∷ runs) keeps (n, h) = elim (Bool-cases (same_key k (key_of o))) [
  | inl e ↦
      simp (e, keeps o)
        (status_at-none k (key_of o) f runs keeps n, set_run-HasKeys k f runs keeps h)
  | inr e ↦ simp e (status_at-none k (key_of o) f runs keeps n, set_run-HasKeys k f runs keeps h)
]

-- A claim goes in exactly where no row has the key.
pub data Claimed (stamp : ℕ) (k : Key) (runs : List Occurrence)
    : List Occurrence × Bool → Type 0 where
  ignored : (w : String) → status_at k runs ≡ some w → Claimed stamp k runs (runs, false)
  inserted :
      (o : Occurrence)
      → status_at k runs ≡ none
      → key_of o ≡ k
      → o.status ≡ "claimed"
      → Claimed stamp k runs (o ∷ runs, true)

pub insert_claim_lem :
    (stamp : ℕ) (k : Key) (runs : List Occurrence)
    → Claimed stamp k runs (insert_claim stamp k runs)
unfolding insert_claim
insert_claim_lem stamp k runs = elim (Option-cases (status_at k runs)) [
  | inl e ↦ simp (insert_claim, e) (inserted _ e refl refl)
  | inr (w, e) ↦ simp (insert_claim, e) (ignored w e)
]
