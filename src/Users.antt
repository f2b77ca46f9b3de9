-- ===== src/Users.antt =====
-- users.py: the users of the control plane, their roles and their tokens. `hash` stands for SHA-256;
-- tokens and ids come from the system's random source and are arguments.
pub mod Laws
mod Tests
use bastet_agent_os.Prelude.{
  ℕ, String, ◌==◌, Bool, true, false, not, ◌&&◌, ◌||◌, Option, none, some, List, [], ◌∷◌, ◌++◌,
  Result, ok, err, any, leb, contains, if◌then◌else◌,
}

-- `ROLES`: the rank of a role, and none for a word that is no role.
unfoldable pub rank : String → Option ℕ
rank role =
    if role == "viewer"
    then some 0
    else if role == "operator"
    then some 1
    else if role == "admin"
    then some 2
    else none

pub record Auth : Type 0 where
  pub user_id : String
  pub name : String
  pub role : String

-- `none` is the KeyError of a role that does not exist.
unfoldable pub at_least : Auth → String → Option Bool
at_least auth role = elim (rank auth.role) [
  | none ↦ none
  | some mine ↦ elim (rank role) [ none ↦ none | some asked ↦ some (leb asked mine) ]
]

abbrev pub root : Auth
root = record { user_id = "root"; name = "root"; role = "admin" }

pub record User : Type 0 where
  pub id : String
  pub name : String
  pub role : String
  pub token_hash : String
  pub enabled : Bool

pub data UserError : Type 0 where
  unknown_role user_not_found not_unique : UserError

abbrev pub is_role : String → Bool
is_role role = contains role ("viewer" ∷ "operator" ∷ "admin" ∷ [])

-- `SELECT * FROM users WHERE token_hash=? AND enabled=1`
unfoldable pub find_enabled : String → List User → Option User
find_enabled h [] = none
find_enabled h (u ∷ users) =
    let rest = find_enabled h users in if u.token_hash == h && u.enabled then some u else rest

-- `UPDATE users SET ... WHERE id=?`, with the test that a row was found (`id` is the key).
unfoldable pub update_user : String → (User → User) → List User → List User × Bool
update_user user_id f [] = ([], false)
update_user user_id f (u ∷ users) =
    let rest = update_user user_id f users in
    if u.id == user_id then (f u ∷ rest.0, true) else (u ∷ rest.0, rest.1)

unfoldable pub set_role : String → String → List User → Result UserError (List User × Bool)
set_role user_id role users =
    if not (is_role role)
    then err unknown_role
    else ok (update_user user_id (λ u. record u { role = role }) users)

unfoldable pub set_enabled : String → Bool → List User → List User × Bool
set_enabled user_id enabled users = update_user user_id (λ u. record u { enabled = enabled }) users

unfoldable pub delete_user : String → List User → List User × Bool
delete_user user_id [] = ([], false)
delete_user user_id (u ∷ users) =
    let rest = delete_user user_id users in
    if u.id == user_id then (rest.0, true) else (u ∷ rest.0, rest.1)

module _ (hash : String → String) where
  -- The columns `id`, `name` and `token_hash` are unique: `not_unique` is the database's error.
  unfoldable pub create_user :
      String → String → String → String → List User → Result UserError (List User)
  create_user user_id token name role users =
      if not (is_role role)
      then err unknown_role
      else if any (λ u. u.id == user_id || u.name == name || u.token_hash == hash token) users
      then err not_unique
      else ok (
          users
          ++ (record {
            id = user_id;
            name = name;
            role = role;
            token_hash = hash token;
            enabled = true;
          })
            ∷ [])

  unfoldable pub verify_user : String → String → List User → Option Auth
  verify_user bootstrap_token token users =
      if token == ""
      then none
      else if token == bootstrap_token
      then some root
      else elim (find_enabled (hash token) users) [
        | none ↦ none
        | some u ↦ some (record { user_id = u.id; name = u.name; role = u.role })
      ]

  unfoldable pub rotate_token : String → String → List User → Result UserError (List User)
  rotate_token user_id token users =
      if not (any (λ u. u.id == user_id) users)
      then err user_not_found
      else if any (λ u. not (u.id == user_id) && u.token_hash == hash token) users
      then err not_unique
      else ok (update_user user_id (λ u. record u { token_hash = hash token }) users).0
