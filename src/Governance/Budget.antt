-- ===== src/Governance/Budget.antt =====
-- governance.py: the reservations of a grant under concurrent requests.
use bastet_agent_os.Prelude.{
  ℕ, zero, suc, ◌+◌, ◌*◌, ◌-◌, ◌≤◌, ◌<◌, String, ◌≡◌, ◌≢◌, inl, inr, refl, sym, ap, ◌∙◌, eq_iff,
  eq_refl, ◌==◌, ◌&&◌, some, [], ◌∷◌, ok, ltb, is_some, arith, Bool-cases, Option-cases,
}
use bastet_agent_os.Governance.{Grant, Reservations, reserved, set_reserved, admit, settle}

reserved-set_reserved :
    (id : String) (n : ℕ) (by_grant : Reservations) → reserved id (set_reserved id n by_grant) ≡ n
unfolding reserved set_reserved
reserved-set_reserved id n [] = ground (arith, eq_refl id)
reserved-set_reserved id n ((k, m) ∷ by_grant) = ground (arith, reserved-set_reserved id n by_grant)

reserved-set_other :
    (id other : String) (n : ℕ) (by_grant : Reservations)
    → other ≢ id
    → reserved id (set_reserved other n by_grant) ≡ reserved id by_grant
unfolding reserved set_reserved
reserved-set_other id other n [] ne = ground (arith, ne, eq_iff other id)
reserved-set_other id other n ((k, m) ∷ by_grant) ne = elim (Bool-cases (k == other)) [
  | inl e ↦ ground (arith, e, ne, eq_iff k other, eq_iff k id, sym ((eq_iff k other).0 e))
  | inr e ↦ ground (arith, e, reserved-set_other id other n by_grant ne)
]

-- An admission reserves one request more, and leaves room for it in the budget.
admit-eq-ok :
    (reserve spent budget : ℕ) (g : Grant) (by_grant after : Reservations)
    → g.budget_usd ≡ some budget
    → admit reserve spent g by_grant ≡ ok after
    → (reserved g.id after ≡ reserved g.id by_grant + 1)
      × (spent + reserved g.id by_grant * reserve + reserve ≤ budget)
unfolding admit
admit-eq-ok reserve spent budget g by_grant after b h =
    elim (Bool-cases (ltb budget (spent + reserved g.id by_grant * reserve + reserve))) [
      | inl e ↦ let bad : ⊥ = cc (rw (admit, b, e) at h) in absurd bad
      | inr e ↦
          let same : set_reserved g.id (reserved g.id by_grant + 1) by_grant ≡ after =
            cc (rw (admit, b, e) at h) in
          (
            ap (reserved g.id) (sym same)
                ∙ reserved-set_reserved g.id (reserved g.id by_grant + 1) by_grant,
            ground (arith, e),
          )
    ]

admit-other :
    (reserve spent : ℕ) (g : Grant) (id : String) (by_grant after : Reservations)
    → g.id ≢ id
    → admit reserve spent g by_grant ≡ ok after
    → reserved id after ≡ reserved id by_grant
unfolding admit
admit-other reserve spent g id by_grant after ne h = elim (Option-cases g.budget_usd) [
  | inl b ↦ let same : by_grant ≡ after = cc (rw (admit, b) at h) in ap (reserved id) (sym same)
  | inr (budget, b) ↦
      elim (Bool-cases (ltb budget (spent + reserved g.id by_grant * reserve + reserve))) [
        | inl e ↦ let bad : ⊥ = cc (rw (admit, b, e) at h) in absurd bad
        | inr e ↦
            let same : set_reserved g.id (reserved g.id by_grant + 1) by_grant ≡ after =
              cc (rw (admit, b, e) at h) in
            ap (reserved id) (sym same)
            ∙ reserved-set_other id g.id (reserved g.id by_grant + 1) by_grant ne
      ]
]

settle-reserved :
    (g : Grant) (budget : ℕ) (by_grant : Reservations)
    → g.budget_usd ≡ some budget
    → reserved g.id (settle g by_grant) ≡ reserved g.id by_grant - 1
unfolding settle
settle-reserved g budget by_grant b = elim (Bool-cases (ltb 0 (reserved g.id by_grant))) [
  | inl e ↦ rw (settle, b, e) (reserved-set_reserved g.id (reserved g.id by_grant - 1) by_grant)
  | inr e ↦ rw (settle, b, e) (ground (arith, e))
]

settle-other :
    (g : Grant) (id : String) (by_grant : Reservations)
    → g.id ≢ id
    → reserved id (settle g by_grant) ≡ reserved id by_grant
unfolding settle
settle-other g id by_grant ne =
    elim (Bool-cases (is_some g.budget_usd && ltb 0 (reserved g.id by_grant))) [
      | inl e ↦ rw (settle, e) (reserved-set_other id g.id (reserved g.id by_grant - 1) by_grant ne)
      | inr e ↦ rw (settle, e) refl
    ]

times_suc : (k r : ℕ) → (k + 1) * r ≡ k * r + r
times_suc k r = omega arith

times_pred : (k r : ℕ) → 0 < k → k * r ≡ (k - 1) * r + r
times_pred k r p =
    let e : k ≡ k - 1 + 1 = omega (arith, p) in ap (λ n. n * r) e ∙ times_suc (k - 1) r

times_le : (a b r : ℕ) → a ≤ b → a * r ≤ b * r
times_le zero b r l = omega arith
times_le (suc a) zero r l = absurd (omega arith)
times_le (suc a) (suc b) r l =
    let below = times_le a b r (omega (arith, l)) in
    omega (arith, below, times_suc a r, times_suc b r)

-- The traffic through the gateway, seen from one grant: what `spent_usd` says of it, the reservations,
-- the number of its requests that are charged and not settled yet, and the sum of what its own requests
-- cost beyond the reserve and of all that is charged elsewhere and counts for it too: the requests of the
-- other grants whose scopes overlap, and the costs that the runs report. A request that fails is charged
-- nothing. What is spent falls when the grant's period starts anew, or rows are deleted.
pub data Traffic (reserve budget : ℕ) (g : Grant) : ℕ → Reservations → ℕ → ℕ → Type 0 where
  idle : (spent : ℕ) → spent ≤ budget → Traffic reserve budget g spent [] 0 0
  admitted :
      {spent open_charges over : ℕ} {by_grant after : Reservations}
      → Traffic reserve budget g spent by_grant open_charges over
      → admit reserve spent g by_grant ≡ ok after
      → Traffic reserve budget g spent after open_charges over
  charged :
      {spent open_charges over : ℕ} {by_grant : Reservations} (cost : ℕ)
      → Traffic reserve budget g spent by_grant open_charges over
      → open_charges < reserved g.id by_grant
      → Traffic reserve budget g
          (spent + cost)
          by_grant
          (suc open_charges)
          (over + (cost - reserve))
  settled :
      {spent open_charges over : ℕ} {by_grant : Reservations}
      → Traffic reserve budget g spent by_grant (suc open_charges) over
      → Traffic reserve budget g spent (settle g by_grant) open_charges over
  charged_elsewhere :
      {spent open_charges over : ℕ} {by_grant : Reservations} (cost : ℕ)
      → Traffic reserve budget g spent by_grant open_charges over
      → Traffic reserve budget g (spent + cost) by_grant open_charges (over + cost)
  admitted_other :
      {spent open_charges over : ℕ} {by_grant after : Reservations} (other : Grant) (its : ℕ)
      → Traffic reserve budget g spent by_grant open_charges over
      → other.id ≢ g.id
      → admit reserve its other by_grant ≡ ok after
      → Traffic reserve budget g spent after open_charges over
  settled_other :
      {spent open_charges over : ℕ} {by_grant : Reservations} (other : Grant)
      → Traffic reserve budget g spent by_grant open_charges over
      → other.id ≢ g.id
      → Traffic reserve budget g spent (settle other by_grant) open_charges over
  lowered :
      {spent open_charges over : ℕ} {by_grant : Reservations} (less : ℕ)
      → Traffic reserve budget g spent by_grant open_charges over
      → less ≤ spent
      → Traffic reserve budget g less by_grant open_charges over

-- Over all traffic that starts within a grant's budget and with nothing in flight, and is interleaved in
-- any way with the other grants', the requests charged and not settled are among those reserved; and what
-- is spent, with the reserve of those in flight that are not charged yet, stays within the budget and
-- what came on top of it: what the grant's own requests cost beyond the reserve, and all that is charged
-- elsewhere and counts for the grant too.
pub Traffic-bound :
    (reserve budget : ℕ) (g : Grant) {spent open_charges over : ℕ} {by_grant : Reservations}
    → g.budget_usd ≡ some budget
    → Traffic reserve budget g spent by_grant open_charges over
    → (open_charges ≤ reserved g.id by_grant)
      × (spent + (reserved g.id by_grant - open_charges) * reserve ≤ budget + over)
unfolding reserved
Traffic-bound reserve budget g b (idle spent l) = (omega arith, omega (arith, l))
Traffic-bound reserve budget g b
      (admitted {spent} {open_charges = k} {over} {by_grant} {after} t h) =
    let (below, before) = Traffic-bound reserve budget g b t in
    let (n, l) = admit-eq-ok reserve spent budget g by_grant after b h in
    let r = reserved g.id by_grant in
    rw (n) (
      omega (arith, below),
      omega (arith, l, times_suc r reserve, times_le (r + 1 - k) (r + 1) reserve (omega arith)),
    )
Traffic-bound reserve budget g b (charged {spent} {open_charges = k} {over} {by_grant} cost t p) =
    let (below, before) = Traffic-bound reserve budget g b t in
    let r = reserved g.id by_grant in
    let e : r - suc k ≡ r - k - 1 = omega arith in
    (p, rw (e) (omega (arith, before, times_pred (r - k) reserve (omega (arith, p)))))
Traffic-bound reserve budget g b (settled {spent} {open_charges = k} {over} {by_grant} t) =
    let (below, before) = Traffic-bound reserve budget g b t in
    let n = settle-reserved g budget by_grant b in
    let r = reserved g.id by_grant in
    let e : r - 1 - k ≡ r - suc k = omega arith in rw (n) (omega (arith, below), rw (e) before)
Traffic-bound reserve budget g b (charged_elsewhere cost t) =
    let (below, before) = Traffic-bound reserve budget g b t in (below, omega (arith, before))
Traffic-bound reserve budget g b (admitted_other {by_grant = by_grant} {after} other its t ne h) =
    let n = admit-other reserve its other g.id by_grant after ne h in
    let before = Traffic-bound reserve budget g b t in rw (n) before
Traffic-bound reserve budget g b (settled_other {by_grant = by_grant} other t ne) =
    let n = settle-other other g.id by_grant ne in
    let before = Traffic-bound reserve budget g b t in rw (n) before
Traffic-bound reserve budget g b (lowered less t l) =
    let (below, before) = Traffic-bound reserve budget g b t in (below, omega (arith, before, l))
