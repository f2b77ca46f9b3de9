-- ===== src/Users/Tests.antt =====
-- Two users, with the hash that changes nothing.
use bastet_agent_os.Prelude.{String, ◌≡◌, ◌≢◌, refl, eq_iff, true, some, List, [], ◌∷◌, ok, arith}
use bastet_agent_os.Users.{Auth, User, update_user, verify_user, find_enabled, rotate_token}
use bastet_agent_os.Users.Laws.{rotate_token-verify_user}

abbrev hash : String → String
hash token = token

abbrev user : String → String → User
user id token_hash = record {
  id = id;
  name = id;
  role = "operator";
  token_hash = token_hash;
  enabled = true;
}

abbrev bob : String
bob = "bob"

abbrev bob_token : String
bob_token = "b1"

abbrev users : List User
users = user "ann" "a1" ∷ user "bob" "b1" ∷ []

abbrev rotated : List User
rotated = user "ann" "a2" ∷ user "bob" "b1" ∷ []

rotates : rotate_token hash "ann" "a2" users ≡ ok rotated
unfolding rotate_token update_user
rotates = refl

abbrev as_bob : Auth
as_bob = record { user_id = "bob"; name = "bob"; role = "operator" }

serves_bob : verify_user hash "boot" "b1" rotated ≡ some as_bob
unfolding verify_user find_enabled
serves_bob = refl

no_bootstrap : bob_token ≢ "boot"
no_bootstrap h = ground (arith, h, eq_iff "b1" "boot")

not_new : hash "b1" ≢ hash "a2"
not_new h = ground (arith, h, eq_iff "b1" "a2")

rotate_token-verify_user_example : bob ≢ "ann"
rotate_token-verify_user_example =
    rotate_token-verify_user hash "boot" "ann" "a2" "b1" users rotated as_bob rotates no_bootstrap
      not_new serves_bob
