-- ===== src/Leases/Keys.antt =====
-- execution_leases.py: the primary key of the table of leases under every operation.
use mathlib.Core.Path.{subst}
use bastet_agent_os.Prelude.{
  ℕ, String, ◌≡◌, inl, inr, refl, ap, eq_iff, true, false, ◌||◌, List, [], ◌∷◌, ◌==◌, leb, any,
  Bool-cases, arith,
}
use bastet_agent_os.Leases.{Lease, is_key, upsert, renew, release}

-- The primary key: no two rows have the same kind and target.
abbrev pub HasKeys : List Lease → Type 0
HasKeys [] = Unit
HasKeys (l ∷ table) = (any (is_key l.kind l.target_id) table ≡ false) × HasKeys table

pub key_of :
    (kind target : String) (l : Lease) (table : List Lease)
    → is_key kind target l ≡ true
    → any (is_key l.kind l.target_id) table ≡ false
    → any (is_key kind target) table ≡ false
key_of kind target l table e h =
    let p : l.kind ≡ kind = ground (arith, eq_iff l.kind kind, e) in
    let q : l.target_id ≡ target = ground (arith, eq_iff l.target_id target, e) in
    subst (λ t. any (is_key kind t) table ≡ false) q
      (subst (λ k. any (is_key k l.target_id) table ≡ false) p h)

upsert-any :
    (k t : String) (new : Lease) (table : List Lease)
    → any (is_key k t) (upsert new table).0 ≡ (any (is_key k t) table || is_key k t new)
unfolding upsert
upsert-any k t new [] = ground arith
upsert-any k t new (l ∷ table) = elim (Bool-cases (is_key new.kind new.target_id l)) [
  | inl e ↦
      let p : l.kind ≡ new.kind = ground (arith, eq_iff l.kind new.kind, e) in
      let q : l.target_id ≡ new.target_id = ground (arith, eq_iff l.target_id new.target_id, e) in
      ground (arith, e, ap (λ x. x == k) p, ap (λ x. x == t) q)
  | inr e ↦ ground (arith, e, upsert-any k t new table)
]

renew-any :
    (k t : String) (stamp clock : ℕ) (kind target o : String) (ttl : ℕ) (table : List Lease)
    → any (is_key k t) (renew stamp clock kind target o ttl table).0 ≡ any (is_key k t) table
unfolding renew
renew-any k t stamp clock kind target o ttl [] = refl
renew-any k t stamp clock kind target o ttl (l ∷ table) =
    ground (arith, renew-any k t stamp clock kind target o ttl table)

release-any :
    (k t kind target o : String) (table : List Lease)
    → any (is_key k t) table ≡ false
    → any (is_key k t) (release kind target o table).0 ≡ false
unfolding release
release-any k t kind target o [] h = h
release-any k t kind target o (l ∷ table) h = ground (arith, h, release-any k t kind target o table)

pub upsert-HasKeys :
    (new : Lease) (table : List Lease) → HasKeys table → HasKeys (upsert new table).0
unfolding upsert
upsert-HasKeys new [] k = (refl, tt)
upsert-HasKeys new (l ∷ table) (k, ks) = elim (Bool-cases (is_key new.kind new.target_id l)) [
  | inl e ↦ elim (Bool-cases (leb l.expires_at new.acquired_at || l.owner_id == new.owner_id)) [
    | inl x ↦ rw (e, x) (key_of new.kind new.target_id l table e k, ks)
    | inr x ↦ rw (e, x) (k, ks)
  ]
  | inr e ↦ rw e (
    ground (
      arith,
      e,
      k,
      upsert-any l.kind l.target_id new table,
      eq_iff l.kind new.kind,
      eq_iff new.kind l.kind,
      eq_iff l.target_id new.target_id,
      eq_iff new.target_id l.target_id,
    ),
    upsert-HasKeys new table ks,
  )
]

pub renew-HasKeys :
    (stamp clock : ℕ) (kind target o : String) (ttl : ℕ) (table : List Lease)
    → HasKeys table
    → HasKeys (renew stamp clock kind target o ttl table).0
unfolding renew
renew-HasKeys stamp clock kind target o ttl [] k = k
renew-HasKeys stamp clock kind target o ttl (l ∷ table) (k, ks) = ground (
  arith,
  renew-HasKeys stamp clock kind target o ttl table ks,
  renew-any l.kind l.target_id stamp clock kind target o ttl table,
)

pub release-HasKeys :
    (kind target o : String) (table : List Lease)
    → HasKeys table
    → HasKeys (release kind target o table).0
unfolding release
release-HasKeys kind target o [] k = k
release-HasKeys kind target o (l ∷ table) (k, ks) = ground (
  arith,
  release-HasKeys kind target o table ks,
  release-any l.kind l.target_id kind target o table,
)
