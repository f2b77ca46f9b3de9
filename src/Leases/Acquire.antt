-- ===== src/Leases/Acquire.antt =====
-- execution_leases.py: `acquire`, when it succeeds and what it leaves.
use bastet_agent_os.Prelude.{
  ℕ, ◌+◌, ◌<◌, max, String, ◌≡◌, ◌≢◌, inl, inr, refl, ◌↔◌, eq_refl, eq_iff, true, false, List, [],
  ◌∷◌, ◌==◌, Bool-cases, arith,
}
use bastet_agent_os.Leases.{Lease, is_key, upsert, acquire, owned}
use bastet_agent_os.Leases.Keys.{HasKeys, key_of}
use bastet_agent_os.Leases.Exclusion.{no_key-not_owned}

upsert_lem :
    (new : Lease) (table : List Lease)
    → HasKeys table
    → ((upsert new table).1 ≡ true) ↔ (
        (owner : String)
        → owner ≢ new.owner_id
        → owned new.acquired_at new.kind new.target_id owner table ≡ false)
unfolding upsert owned
upsert_lem new [] k = (λ _ owner _. refl, λ _. refl)
upsert_lem new (l ∷ table) (k, ks) = elim (Bool-cases (is_key new.kind new.target_id l)) [
  | inl e ↦
      let gone = key_of new.kind new.target_id l table e k in
      (
        λ h owner ne. ground (
          arith,
          e,
          h,
          ne,
          no_key-not_owned new.kind new.target_id new.acquired_at owner table gone,
          eq_iff l.owner_id new.owner_id,
          eq_iff l.owner_id owner,
        ),
        λ h. elim (Bool-cases (l.owner_id == new.owner_id)) [
          | inl same ↦ ground (arith, e, same)
          | inr other ↦ ground (
            arith,
            e,
            other,
            h l.owner_id (λ p. cc (other, (eq_iff l.owner_id new.owner_id).1 p)),
            eq_refl l.owner_id,
          )
        ],
      )
  | inr e ↦
      let (f, g) = upsert_lem new table ks in
      (
        λ h owner ne. ground (arith, e, f (ground (arith, e, h)) owner ne),
        λ h. ground (arith, e, g (λ owner ne. ground (arith, e, h owner ne))),
      )
]

-- A call of `acquire` succeeds exactly when no other owner holds the lease at its stamp.
pub acquire_iff :
    (stamp clock : ℕ) (kind target owner : String) (ttl : ℕ) (table : List Lease)
    → HasKeys table
    → ((acquire stamp clock kind target owner ttl table).1 ≡ true)
      ↔ ((other : String) → other ≢ owner → owned stamp kind target other table ≡ false)
unfolding acquire
acquire_iff stamp clock kind target owner ttl table k = upsert_lem _ table k

upsert-owned :
    (new : Lease) (time : ℕ) (table : List Lease)
    → (upsert new table).1 ≡ true
    → time < new.expires_at
    → owned time new.kind new.target_id new.owner_id (upsert new table).0 ≡ true
unfolding upsert owned
upsert-owned new time [] h l =
    ground (arith, eq_refl new.kind, eq_refl new.target_id, eq_refl new.owner_id)
upsert-owned new time (x ∷ table) h l = elim (Bool-cases (is_key new.kind new.target_id x)) [
  | inl e ↦ ground (arith, e, h, eq_refl new.kind, eq_refl new.target_id, eq_refl new.owner_id)
  | inr e ↦ ground (arith, e, h, upsert-owned new time table)
]

-- After a successful `acquire` the lease is the caller's for its time to live, which is at least one
-- second after the clock was read.
pub acquire-owned :
    (stamp clock : ℕ) (kind target owner : String) (ttl : ℕ) (table : List Lease) (time : ℕ)
    → (acquire stamp clock kind target owner ttl table).1 ≡ true
    → time < clock + max 1 ttl
    → owned time kind target owner (acquire stamp clock kind target owner ttl table).0 ≡ true
unfolding acquire
acquire-owned stamp clock kind target owner ttl table time h l = upsert-owned _ time table h l
