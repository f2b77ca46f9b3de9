-- ===== src/Users/Laws.antt =====
-- users.py: tokens after a rotation, and after their user was disabled or deleted.
use bastet_agent_os.Prelude.{
  String, ◌≡◌, ◌≢◌, sym, ap, ◌∙◌, eq_iff, ◌==◌, false, not, ◌&&◌, some, List, [], ◌∷◌, ok, any,
  arith, Bool-cases, Option-cases, inl, inr,
}
use bastet_agent_os.Users.{
  Auth, User, find_enabled, update_user, set_enabled, delete_user, verify_user, rotate_token,
}

some-same : {A : Type 0} {x y : A} → some x ≡ some y → x ≡ y
some-same h = cc (h)

-- What verifies without the bootstrap token is the row that the lookup finds.
verify_user-row :
    (hash : String → String) (bootstrap token : String) (users : List User) (a : Auth)
    → token ≢ bootstrap
    → verify_user hash bootstrap token users ≡ some a
    → (u : User) × (find_enabled (hash token) users ≡ some u) × (a.user_id ≡ u.id)
unfolding verify_user
verify_user-row hash bootstrap token users a ne h = elim (Bool-cases (token == "")) [
  | inl e ↦ let bad : ⊥ = cc (rw (verify_user, e) at h) in absurd bad
  | inr e ↦ elim (Bool-cases (token == bootstrap)) [
    | inl b ↦ absurd (ne ((eq_iff token bootstrap).0 b))
    | inr b ↦ elim (Option-cases (find_enabled (hash token) users)) [
      | inl f ↦ let bad : ⊥ = cc (rw (verify_user, e, b, f) at h) in absurd bad
      | inr (u, f) ↦
          let same : some (record { user_id = u.id; name = u.name; role = u.role }) ≡ some a =
            rw (verify_user, e, b, f) at h in
          (u, f, sym (ap (λ x. x.user_id) (some-same same)))
    ]
  ]
]

find_enabled-rotated :
    (h new user_id : String) (users : List User) (u : User)
    → h ≢ new
    → find_enabled h (update_user user_id (λ x. record x { token_hash = new }) users).0 ≡ some u
    → u.id ≢ user_id
unfolding find_enabled update_user
find_enabled-rotated h new user_id [] u ne f = let bad : ⊥ = cc in absurd bad
find_enabled-rotated h new user_id (x ∷ users) u ne f = elim (Bool-cases (x.id == user_id)) [
  | inl e ↦ find_enabled-rotated h new user_id users u ne (ground (arith, f, e, ne, eq_iff new h))
  | inr e ↦ elim (Bool-cases (x.token_hash == h && x.enabled)) [
    | inl b ↦ λ same. ground (arith, f, e, b, same, eq_iff x.id user_id, eq_iff u.id user_id)
    | inr b ↦ find_enabled-rotated h new user_id users u ne (ground (arith, f, e, b))
  ]
]

find_enabled-disabled :
    (h user_id : String) (users : List User) (u : User)
    → find_enabled h (update_user user_id (λ x. record x { enabled = false }) users).0 ≡ some u
    → u.id ≢ user_id
unfolding find_enabled update_user
find_enabled-disabled h user_id [] u f = let bad : ⊥ = cc in absurd bad
find_enabled-disabled h user_id (x ∷ users) u f = elim (Bool-cases (x.id == user_id)) [
  | inl e ↦ find_enabled-disabled h user_id users u (ground (arith, f, e))
  | inr e ↦ elim (Bool-cases (x.token_hash == h && x.enabled)) [
    | inl b ↦ λ same. ground (arith, f, e, b, same, eq_iff x.id user_id, eq_iff u.id user_id)
    | inr b ↦ find_enabled-disabled h user_id users u (ground (arith, f, e, b))
  ]
]

find_enabled-deleted :
    (h user_id : String) (users : List User) (u : User)
    → find_enabled h (delete_user user_id users).0 ≡ some u
    → u.id ≢ user_id
unfolding find_enabled delete_user
find_enabled-deleted h user_id [] u f = let bad : ⊥ = cc in absurd bad
find_enabled-deleted h user_id (x ∷ users) u f = elim (Bool-cases (x.id == user_id)) [
  | inl e ↦ find_enabled-deleted h user_id users u (ground (arith, f, e))
  | inr e ↦ elim (Bool-cases (x.token_hash == h && x.enabled)) [
    | inl b ↦ λ same. ground (arith, f, e, b, same, eq_iff x.id user_id, eq_iff u.id user_id)
    | inr b ↦ find_enabled-deleted h user_id users u (ground (arith, f, e, b))
  ]
]

module _ (hash : String → String) where
  -- After a token of a user was rotated, a token that is not the bootstrap token and does not have the
  -- hash of the new one does not verify as this user.
  pub rotate_token-verify_user :
      (bootstrap user_id new token : String) (users after : List User) (a : Auth)
      → rotate_token hash user_id new users ≡ ok after
      → token ≢ bootstrap
      → hash token ≢ hash new
      → verify_user hash bootstrap token after ≡ some a
      → a.user_id ≢ user_id
  unfolding rotate_token
  rotate_token-verify_user bootstrap user_id new token users after a r nb ne v =
      let (u, f, i) = verify_user-row hash bootstrap token after a nb v in
      elim (Bool-cases (any (λ x. x.id == user_id) users)) [
        | inr m ↦ let bad : ⊥ = cc (rw (rotate_token, m) at r) in absurd bad
        | inl m ↦
            elim (Bool-cases (any (λ x. not (x.id == user_id) && x.token_hash == hash new) users)) [
              | inl k ↦ let bad : ⊥ = cc (rw (rotate_token, m, k) at r) in absurd bad
              | inr k ↦
                  let same : (update_user user_id (λ x. record x { token_hash = hash new }) users).0
                      ≡ after =
                    cc (rw (rotate_token, m, k) at r) in
                  λ e.
                    find_enabled-rotated (hash token) (hash new) user_id users u ne
                      (ap (find_enabled (hash token)) same ∙ f) (sym i ∙ e)
            ]
      ]

  -- After a user was disabled, and after a user was deleted, no token but the bootstrap token verifies
  -- as this user.
  pub set_enabled-verify_user :
      (bootstrap user_id token : String) (users : List User) (a : Auth)
      → token ≢ bootstrap
      → (verify_user hash bootstrap token (set_enabled user_id false users).0 ≡ some a
          → a.user_id ≢ user_id)
        × (verify_user hash bootstrap token (delete_user user_id users).0 ≡ some a
            → a.user_id ≢ user_id)
  unfolding set_enabled
  set_enabled-verify_user bootstrap user_id token users a nb = (
    λ v e.
        let (u, f, i) =
          verify_user-row hash bootstrap token (set_enabled user_id false users).0 a nb v in
        find_enabled-disabled (hash token) user_id users u f (sym i ∙ e),
    λ v e.
        let (u, f, i) = verify_user-row hash bootstrap token (delete_user user_id users).0 a nb v in
        find_enabled-deleted (hash token) user_id users u f (sym i ∙ e),
  )
