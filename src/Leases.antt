-- ===== src/Leases.antt =====
-- execution_leases.py: short leases in the table `execution_leases`, whose primary key is
-- (kind, target_id). Time stamps are the seconds that the ISO texts of one form and zone stand for.
pub mod Keys
pub mod Exclusion
pub mod Acquire
mod Tests
use bastet_agent_os.Prelude.{
  ℕ, ◌+◌, max, String, Bool, true, false, not, ◌&&◌, ◌||◌, List, [], ◌∷◌, ◌==◌, leb, ltb, any,
  if◌then◌else◌,
}

pub record Lease : Type 0 where
  pub kind : String
  pub target_id : String
  pub owner_id : String
  pub acquired_at : ℕ
  pub heartbeat_at : ℕ
  pub expires_at : ℕ

abbrev pub is_key : String → String → Lease → Bool
is_key kind target_id l = l.kind == kind && l.target_id == target_id

-- `_expiry(ttl_s)`, at the clock's reading.
abbrev pub expiry : ℕ → ℕ → ℕ
expiry clock ttl_s = clock + max 1 ttl_s

-- The upsert: a row of the key is taken over if it has expired at the stamp, or is the owner's own.
unfoldable pub upsert : Lease → List Lease → List Lease × Bool
upsert new [] = (new ∷ [], true)
upsert new (l ∷ table) =
    let rest = upsert new table in
    if is_key new.kind new.target_id l
    then (if leb l.expires_at new.acquired_at || l.owner_id == new.owner_id
        then (new ∷ table, true)
        else (l ∷ table, false))
    else (l ∷ rest.0, rest.1)

-- `acquire`: the clock is read once for the stamp and again for the expiry.
unfoldable pub acquire : ℕ → ℕ → String → String → String → ℕ → List Lease → List Lease × Bool
unfolding upsert
acquire stamp clock kind target_id owner_id ttl_s table =
    upsert
      (record {
        kind = kind;
        target_id = target_id;
        owner_id = owner_id;
        acquired_at = stamp;
        heartbeat_at = stamp;
        expires_at = expiry clock ttl_s;
      })
      table

unfoldable pub renew : ℕ → ℕ → String → String → String → ℕ → List Lease → List Lease × Bool
renew stamp clock kind target_id owner_id ttl_s [] = ([], false)
renew stamp clock kind target_id owner_id ttl_s (l ∷ table) =
    let rest = renew stamp clock kind target_id owner_id ttl_s table in
    if is_key kind target_id l && l.owner_id == owner_id
    then ((record l { heartbeat_at = stamp; expires_at = expiry clock ttl_s }) ∷ rest.0, true)
    else (l ∷ rest.0, rest.1)

unfoldable pub release : String → String → String → List Lease → List Lease × Bool
release kind target_id owner_id [] = ([], false)
release kind target_id owner_id (l ∷ table) =
    let rest = release kind target_id owner_id table in
    if is_key kind target_id l && l.owner_id == owner_id
    then (rest.0, true)
    else (l ∷ rest.0, rest.1)

unfoldable pub owned : ℕ → String → String → String → List Lease → Bool
owned stamp kind target_id owner_id table =
    any (λ l. is_key kind target_id l && l.owner_id == owner_id && ltb stamp l.expires_at) table
