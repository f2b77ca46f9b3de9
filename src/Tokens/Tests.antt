-- ===== src/Tokens/Tests.antt =====
-- The tokens of two runs, with the hash that changes nothing.
use bastet_agent_os.Prelude.{String, ◌≡◌, ◌≢◌, ◌↔◌, refl, List, [], ◌∷◌, ◌++◌, none, some}
use bastet_agent_os.Tokens.{RunToken, issue, verify, revoke_for_run}
use bastet_agent_os.Tokens.Laws.{verify-revoke_for_run}

abbrev hash : String → String
hash token = token

abbrev table : List RunToken
table =
    record { run_id = "r1"; token_hash = "t1"; expires_at = 100; revoked_at = none }
    ∷ record { run_id = "r2"; token_hash = "t2"; expires_at = 100; revoked_at = none }
    ∷ []

verify-revoke_for_run_example :
    (verify hash 6 "t1" (revoke_for_run 5 "r1" table) ≢ some "r1")
    × ((other : String)
        → other ≢ "r1"
        → (verify hash 6 "t1" table ≡ some other)
          ↔ (verify hash 6 "t1" (revoke_for_run 5 "r1" table) ≡ some other))
verify-revoke_for_run_example = verify-revoke_for_run hash 5 6 "r1" "t1" table

abbrev after : List RunToken
after =
    table ++ record { run_id = "r3"; token_hash = "t3"; expires_at = 30; revoked_at = none } ∷ []

issued : issue hash 10 "t3" "r3" 20 table ≡ some after
unfolding issue
issued = refl
