-- ===== src/Governance/Tests.antt =====
-- An agent with a grant of its own in a project that has one too, and two requests at once.
use bastet_agent_os.Prelude.{
  ◌+◌, ◌*◌, ◌-◌, ◌≤◌, ◌<◌, String, ◌≡◌, ◌⊎◌, refl, true, none, some, [], ◌∷◌, ok, arith,
}
use bastet_agent_os.Governance.{
  Grant, Tables, Reservations, scopes_of, resolve_grant, first_grant, best, team_of, text_lt,
  reserved, set_reserved, admit, settle,
}
use bastet_agent_os.Governance.Grants.{no_grant, Found, resolve_grant_lem}
use bastet_agent_os.Governance.Budget.{
  idle, admitted, charged, charged_elsewhere, settled, Traffic-bound,
}

abbrev grant : String → String → String → Grant
grant id scope_type scope_id = record {
  id = id;
  resource_id = "gpt";
  scope_type = scope_type;
  scope_id = scope_id;
  enabled = true;
  expires_at = none;
  priority = 0;
  budget_usd = some 100;
  period = "monthly";
  max_concurrency = none;
  on_exceed = "block";
}

abbrev db : Tables
db = record {
  grants = grant "g1" "project" "p" ∷ grant "g2" "agent" "a" ∷ [];
  projects = record { id = "p"; team_id = "t" } ∷ [];
  jobs = [];
  runs = [];
  usage_ledger = [];
}

abbrev midday : String
midday = "2026-11-26 12:00:00"

-- A grant that expired in the morning serves at midday, since `T` is later than a space.
abbrev expired : Grant
expired = record (grant "g3" "agent" "a") { expires_at = some "2026-11-26T08:00:00+00:00" }

expired_serves :
    resolve_grant midday "gpt" "p" "a" (record db { grants = expired ∷ [] }) ≡ some expired
unfolding resolve_grant first_grant best scopes_of team_of text_lt
expired_serves = refl

resolve_grant_lem_example :
    let scopes = scopes_of "p" "a" db.projects in
    ((resolve_grant midday "gpt" "p" "a" db ≡ none)
      × (no_grant midday "gpt" scopes db.grants ≡ true))
    ⊎ ((g : Grant) × (resolve_grant midday "gpt" "p" "a" db ≡ some g)
        × Found midday "gpt" scopes db.grants g)
resolve_grant_lem_example = resolve_grant_lem midday "gpt" "p" "a" db

abbrev own : Grant
own = grant "g2" "agent" "a"

first_in : admit 25 40 own [] ≡ ok (("g2", 1) ∷ [])
unfolding admit reserved set_reserved
first_in = refl

second_in : admit 25 40 own (("g2", 1) ∷ []) ≡ ok (("g2", 2) ∷ [])
unfolding admit reserved set_reserved
second_in = refl

abbrev two : Reservations
two = ("g2", 2) ∷ []

both_held : 0 < reserved own.id two
unfolding reserved
both_held = ground arith

-- The first of the two costs 30, which is 5 more than was reserved, and another grant of the scope is
-- charged 7.
Traffic-bound_example :
    (0 ≤ reserved own.id (settle own two))
    × (40 + 30 + 7 + (reserved own.id (settle own two) - 0) * 25 ≤ 100 + (0 + (30 - 25) + 7))
Traffic-bound_example = Traffic-bound 25 100 own refl (
    settled (
      charged_elsewhere 7
        (charged 30 (admitted (admitted (idle 40 (ground arith)) first_in) second_in) both_held)))
