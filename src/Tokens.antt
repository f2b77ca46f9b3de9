-- ===== src/Tokens.antt =====
-- run_tokens.py: the short-lived credential of a run. `hash` stands for SHA-256 over the token; the
-- token itself comes from the system's random source and is an argument. Time stamps are the seconds
-- that the ISO texts stand for.
pub mod Laws
mod Tests
use bastet_agent_os.Prelude.{
  ℕ, ◌+◌, String, Bool, true, false, not, ◌&&◌, List, [], ◌∷◌, ◌++◌, Option, none, some, ◌==◌, leb,
  any, is_some, if◌then◌else◌,
}

pub record RunToken : Type 0 where
  pub run_id : String
  pub token_hash : String
  pub expires_at : ℕ
  pub revoked_at : Option ℕ

-- `SELECT * FROM run_tokens WHERE token_hash=?`
unfoldable pub find_hash : String → List RunToken → Option RunToken
find_hash h [] = none
find_hash h (r ∷ table) = let rest = find_hash h table in if r.token_hash == h then some r else rest

module _ (hash : String → String) where
  -- `issue`, with the token drawn. The column `token_hash` is unique: `none` is the database's error.
  unfoldable pub issue : ℕ → String → String → ℕ → List RunToken → Option (List RunToken)
  issue now token run_id ttl_seconds table =
      if any (λ r. r.token_hash == hash token) table
      then none
      else some (
          table
          ++ (record {
            run_id = run_id;
            token_hash = hash token;
            expires_at = now + ttl_seconds;
            revoked_at = none;
          })
            ∷ [])

  unfoldable pub verify : ℕ → String → List RunToken → Option String
  verify now token table = elim (find_hash (hash token) table) [
    | none ↦ none
    | some r ↦
        if is_some r.revoked_at then none else if leb r.expires_at now then none else some r.run_id
  ]

-- `UPDATE run_tokens SET revoked_at=? WHERE run_id=? AND revoked_at IS NULL`
unfoldable pub revoke_for_run : ℕ → String → List RunToken → List RunToken
revoke_for_run now run_id [] = []
revoke_for_run now run_id (r ∷ table) =
    let rest = revoke_for_run now run_id table in
    if r.run_id == run_id && not (is_some r.revoked_at)
    then (record r { revoked_at = some now }) ∷ rest
    else r ∷ rest
