-- ===== src/Tokens/Laws.antt =====
-- run_tokens.py: the life of a token from `issue` to its expiry or `revoke_for_run`.
use mathlib.Core.Path.{subst}
use bastet_agent_os.Prelude.{
  ℕ, ◌+◌, String, ◌≡◌, ◌≢◌, ◌↔◌, refl, eq_iff, false, not, ◌&&◌, List, [], ◌∷◌, ◌++◌, Option, none,
  some, ◌==◌, leb, any, is_some, Bool-cases, inl, inr, arith, if◌then◌else◌,
}
use bastet_agent_os.Tokens.{RunToken, issue, find_hash, verify, revoke_for_run}

-- The stored row of a token after a revocation.
abbrev revoked : ℕ → String → Option RunToken → Option RunToken
revoked now run_id none = none
revoked now run_id (some r) = some (
    if r.run_id == run_id && not (is_some r.revoked_at)
    then record r { revoked_at = some now }
    else r)

find_hash-revoke :
    (h : String) (now : ℕ) (run_id : String) (table : List RunToken)
    → find_hash h (revoke_for_run now run_id table) ≡ revoked now run_id (find_hash h table)
unfolding find_hash revoke_for_run
find_hash-revoke h now run_id [] = refl
find_hash-revoke h now run_id (r ∷ table) = elim (Bool-cases (r.token_hash == h)) [
  | inl e ↦ elim (Bool-cases (r.run_id == run_id && not (is_some r.revoked_at))) [
    | inl x ↦ ground (arith, e, x)
    | inr x ↦ ground (arith, e, x)
  ]
  | inr e ↦ ground (arith, e, find_hash-revoke h now run_id table)
]

find_hash-append :
    (h : String) (table : List RunToken) (r : RunToken)
    → any (λ x. x.token_hash == h) table ≡ false
    → r.token_hash ≡ h
    → find_hash h (table ++ r ∷ []) ≡ some r
unfolding find_hash
find_hash-append h [] r n e = ground (arith, (eq_iff r.token_hash h).1 e)
find_hash-append h (x ∷ table) r n e = ground (arith, n, find_hash-append h table r)

module _ (hash : String → String) where
  -- After the tokens of a run are revoked no token verifies as that run, at any time; and a token
  -- verifies as another run exactly as it did before.
  pub verify-revoke_for_run :
      (now later : ℕ) (run_id token : String) (table : List RunToken)
      → (verify hash later token (revoke_for_run now run_id table) ≢ some run_id)
        × ((other : String)
            → other ≢ run_id
            → (verify hash later token table ≡ some other)
              ↔ (verify hash later token (revoke_for_run now run_id table) ≡ some other))
  unfolding verify
  verify-revoke_for_run now later run_id token table = (
    λ h. ground (arith, h, find_hash-revoke (hash token) now run_id table, eq_iff run_id run_id),
    λ other ne. (
      λ h.
          ground
            (arith, h, ne, find_hash-revoke (hash token) now run_id table, eq_iff other run_id),
      λ h.
          ground
            (arith, h, ne, find_hash-revoke (hash token) now run_id table, eq_iff other run_id),
    ),
  )

  -- A token that was issued verifies as its run exactly until its time to live has passed.
  pub verify-issue :
      (now later : ℕ) (token run_id : String) (ttl_seconds : ℕ) (table after : List RunToken)
      → issue hash now token run_id ttl_seconds table ≡ some after
      → verify hash later token after
        ≡ (if leb (now + ttl_seconds) later then none else some run_id)
  unfolding verify issue
  verify-issue now later token run_id ttl table after h =
      elim (Bool-cases (any (λ r. r.token_hash == hash token) table)) [
        | inl known ↦ let bad : ⊥ = ground (arith, h, known) in absurd bad
        | inr new ↦
            let row : RunToken = record {
              run_id = run_id;
              token_hash = hash token;
              expires_at = now + ttl;
              revoked_at = none;
            } in
            let e : table ++ row ∷ [] ≡ after = ground (arith, h, new) in
            subst
              (λ t.
                verify hash later token t ≡ (if leb (now + ttl) later then none else some run_id))
              e (rw (find_hash-append (hash token) table row new refl, verify) refl)
      ]
