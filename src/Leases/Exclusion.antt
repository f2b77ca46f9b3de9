-- ===== src/Leases/Exclusion.antt =====
-- execution_leases.py: the lease of one owner under the calls of others.
use bastet_agent_os.Prelude.{
  ℕ, ◌≤◌, String, ◌≡◌, ◌≢◌, inl, inr, refl, All, eq_iff, true, false, ◌||◌, List, [], ◌∷◌, ◌==◌,
  leb, any, Bool-cases, arith,
}
use bastet_agent_os.Leases.{Lease, is_key, upsert, acquire, renew, release, owned}
use bastet_agent_os.Leases.Keys.{HasKeys, key_of, upsert-HasKeys, renew-HasKeys, release-HasKeys}

module _ (kind target : String) where
  -- The owner's lease of the target lasts beyond the time.
  abbrev pub Holds : String → ℕ → List Lease → Type 0
  Holds owner time table = owned time kind target owner table ≡ true

  pub no_key-not_owned :
      (time : ℕ) (owner : String) (table : List Lease)
      → any (is_key kind target) table ≡ false
      → owned time kind target owner table ≡ false
  unfolding owned
  no_key-not_owned time owner [] h = refl
  no_key-not_owned time owner (l ∷ table) h = ground (arith, no_key-not_owned time owner table)

  -- In a table with the key, two owners of one target at one time are the same.
  pub owned_unique :
      (time : ℕ) (a b : String) (table : List Lease)
      → HasKeys table
      → Holds a time table
      → Holds b time table
      → a ≡ b
  unfolding owned
  owned_unique time a b [] k ha hb = ground arith
  owned_unique time a b (l ∷ table) (k, ks) ha hb = elim (Bool-cases (is_key kind target l)) [
    | inl e ↦
        let no_more = key_of kind target l table e k in
        ground (
          arith,
          e,
          ha,
          hb,
          no_key-not_owned time a table no_more,
          no_key-not_owned time b table no_more,
          eq_iff l.owner_id a,
          eq_iff l.owner_id b,
        )
    | inr e ↦ owned_unique time a b table ks (ground (arith, e, ha)) (ground (arith, e, hb))
  ]

  -- What an operation of another owner leaves: the holder still holds.
  upsert-keeps :
      (new : Lease) (owner : String) (time : ℕ) (table : List Lease)
      → HasKeys table
      → new.owner_id ≢ owner
      → new.acquired_at ≤ time
      → Holds owner time table
      → Holds owner time (upsert new table).0
  unfolding owned upsert
  upsert-keeps new owner time [] k ne le h = ground arith
  upsert-keeps new owner time (l ∷ table) (k, ks) ne le h =
      elim (Bool-cases (is_key new.kind new.target_id l)) [
        | inl e ↦
            elim (Bool-cases (leb l.expires_at new.acquired_at || l.owner_id == new.owner_id)) [
              | inl x ↦
                  ground (arith, e, x, h, eq_iff l.owner_id new.owner_id, eq_iff l.owner_id owner)
              | inr x ↦ ground (arith, e, x, h)
            ]
        | inr e ↦ elim (Bool-cases (owned time kind target owner table)) [
          | inl x ↦ ground (arith, e, upsert-keeps new owner time table ks ne le x)
          | inr x ↦ ground (arith, e, h, x)
        ]
      ]

  renew-keeps :
      (stamp clock : ℕ) (k t o : String) (ttl : ℕ) (owner : String) (time : ℕ) (table : List Lease)
      → o ≢ owner
      → Holds owner time table
      → Holds owner time (renew stamp clock k t o ttl table).0
  unfolding owned renew
  renew-keeps stamp clock k t o ttl owner time [] ne h = h
  renew-keeps stamp clock k t o ttl owner time (l ∷ table) ne h =
      elim (Bool-cases (owned time kind target owner table)) [
        | inl x ↦ ground (arith, x, renew-keeps stamp clock k t o ttl owner time table ne x)
        | inr x ↦ ground (arith, x, h, eq_iff l.owner_id o, eq_iff l.owner_id owner)
      ]

  release-keeps :
      (k t o : String) (owner : String) (time : ℕ) (table : List Lease)
      → o ≢ owner
      → Holds owner time table
      → Holds owner time (release k t o table).0
  unfolding owned release
  release-keeps k t o owner time [] ne h = h
  release-keeps k t o owner time (l ∷ table) ne h =
      elim (Bool-cases (owned time kind target owner table)) [
        | inl x ↦ ground (arith, x, release-keeps k t o owner time table ne x)
        | inr x ↦ ground (arith, x, h, eq_iff l.owner_id o, eq_iff l.owner_id owner)
      ]

-- A call of one of the three operations that write, with its clock readings.
pub data Call : Type 0 where
  acquiring renewing : ℕ → ℕ → String → String → String → ℕ → Call
  releasing : String → String → String → Call

abbrev pub run : Call → List Lease → List Lease
run (acquiring stamp clock k t o ttl) table = (acquire stamp clock k t o ttl table).0
run (renewing stamp clock k t o ttl) table = (renew stamp clock k t o ttl table).0
run (releasing k t o) table = (release k t o table).0

abbrev pub run_all : List Call → List Lease → List Lease
run_all [] table = table
run_all (c ∷ calls) table = run_all calls (run c table)

-- The call is of another owner, and reads its stamp at or before the time.
abbrev pub IsOther : String → ℕ → Call → Type 0
IsOther owner time (acquiring stamp clock k t o ttl) = (o ≢ owner) × (stamp ≤ time)
IsOther owner time (renewing stamp clock k t o ttl) = (o ≢ owner) × (stamp ≤ time)
IsOther owner time (releasing k t o) = o ≢ owner

-- Every call keeps the key.
pub run-HasKeys : (c : Call) (table : List Lease) → HasKeys table → HasKeys (run c table)
unfolding acquire
run-HasKeys (acquiring stamp clock k t o ttl) table h = upsert-HasKeys _ table h
run-HasKeys (renewing stamp clock k t o ttl) table h = renew-HasKeys stamp clock k t o ttl table h
run-HasKeys (releasing k t o) table h = release-HasKeys k t o table h

run-keeps :
    (kind target owner : String) (time : ℕ) (c : Call) (table : List Lease)
    → HasKeys table
    → IsOther owner time c
    → Holds kind target owner time table
    → Holds kind target owner time (run c table)
unfolding acquire
run-keeps kind target owner time (acquiring stamp clock k t o ttl) table h (ne, le) held =
    upsert-keeps kind target _ owner time table h ne le held
run-keeps kind target owner time (renewing stamp clock k t o ttl) table h (ne, le) held =
    renew-keeps kind target stamp clock k t o ttl owner time table ne held
run-keeps kind target owner time (releasing k t o) table h ne held =
    release-keeps kind target k t o owner time table ne held

-- Whatever calls other owners make, on any target, with stamps up to a time at which a lease has
-- not expired, the lease is still its owner's at that time.
pub lease_safe :
    (kind target owner : String) (time : ℕ) (calls : List Call) (table : List Lease)
    → HasKeys table
    → All (IsOther owner time) calls
    → Holds kind target owner time table
    → Holds kind target owner time (run_all calls table)
lease_safe kind target owner time [] table h o held = held
lease_safe kind target owner time (c ∷ calls) table h (one, more) held =
    lease_safe kind target owner time calls (run c table) (run-HasKeys c table h) more
      (run-keeps kind target owner time c table h one held)
