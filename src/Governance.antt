-- ===== src/Governance.antt =====
-- governance.py: which grant lets a run use a resource, what was spent under it, and the admission of
-- requests against its budget. Money is a whole number of the smallest unit that the ledger
-- distinguishes, and so is the reserve. The tables are `grants`, `projects`, `jobs`, `runs` and
-- `usage_ledger`.
pub mod Grants
pub mod Budget
mod Tests
use bastet_agent_os.Prelude.{
  ℕ, zero, suc, ◌+◌, ◌*◌, ◌-◌, String, ◌==◌, Bool, true, false, not, ◌&&◌, ◌||◌, Option, none, some,
  List, [], ◌∷◌, ◌++◌, map, Result, ok, err, contains, keep_if, any, leb, ltb, eqb, length,
  if◌then◌else◌, is_some,
}
use bastet_agent_os.Prelude.Text.{codes}

-- A row of `grants`, with the fields that `GrantView` copies.
pub record Grant : Type 0 where
  pub id : String
  pub resource_id : String
  pub scope_type : String
  pub scope_id : String
  pub enabled : Bool
  pub expires_at : Option String
  pub priority : ℕ
  pub budget_usd : Option ℕ
  pub period : String
  pub max_concurrency : Option ℕ
  pub on_exceed : String

pub record Project : Type 0 where
  pub id : String
  pub team_id : String

pub record Job : Type 0 where
  pub id : String
  pub project_id : String

pub record Run : Type 0 where
  pub id : String
  pub job_id : String
  pub agent_id : String
  pub resource_id : String
  pub status : String
  pub accounting_precision : String
  pub cost_usd : ℕ

pub record LedgerEntry : Type 0 where
  pub run_id : String
  pub resource_id : String
  pub at : ℕ
  pub cost_usd : ℕ

pub record Tables : Type 0 where
  pub grants : List Grant
  pub projects : List Project
  pub jobs : List Job
  pub runs : List Run
  pub usage_ledger : List LedgerEntry

-- SQLite's `<` of two texts: the order of their bytes, which is that of the code points.
unfoldable pub text_lt : List ℕ → List ℕ → Bool
text_lt xs [] = false
text_lt [] (y ∷ ys) = true
text_lt (x ∷ xs) (y ∷ ys) = ltb x y || (eqb x y && text_lt xs ys)

-- The WHERE clause of `resolve_grant`; `now` is the text of `datetime('now')`, which has a space where an
-- ISO text has a `T`.
abbrev pub serves : String → String → String → String → Grant → Bool
serves now resource_id scope_type scope_id g =
    g.resource_id == resource_id
    && g.scope_type == scope_type
    && g.scope_id == scope_id
    && g.enabled
    && elim g.expires_at [ none ↦ true | some t ↦ text_lt (codes now) (codes t) ]

-- `ORDER BY priority DESC LIMIT 1`: of equal priorities the first row.
unfoldable pub best : (Grant → Bool) → List Grant → Option Grant
best p [] = none
best p (g ∷ grants) =
    let rest = best p grants in
    if p g
    then elim rest [ none ↦ some g | some h ↦ if leb h.priority g.priority then some g else some h ]
    else rest

unfoldable pub team_of : String → List Project → Option String
team_of project_id [] = none
team_of project_id (p ∷ projects) =
    let rest = team_of project_id projects in if p.id == project_id then some p.team_id else rest

-- The scopes in the order in which they are tried.
unfoldable pub scopes_of : String → String → List Project → List (String × String)
scopes_of project_id agent_id projects =
    ("agent", agent_id)
    ∷ ("project", project_id)
    ∷ elim (team_of project_id projects) [ none ↦ [] | some team ↦ ("team", team) ∷ [] ]

unfoldable pub first_grant : String → String → List (String × String) → List Grant → Option Grant
first_grant now resource_id [] grants = none
first_grant now resource_id ((scope_type, scope_id) ∷ scopes) grants =
    let rest = first_grant now resource_id scopes grants in
    elim (best (serves now resource_id scope_type scope_id) grants) [
      | none ↦ rest
      | some g ↦ some g
    ]

unfoldable pub resolve_grant : String → String → String → String → Tables → Option Grant
resolve_grant now resource_id project_id agent_id db =
    first_grant now resource_id (scopes_of project_id agent_id db.projects) db.grants

-- The runs that a grant's scope governs, joined with their jobs.
abbrev pub governs : Grant → List Project → Run → Job → Bool
governs g projects r j =
    r.job_id == j.id
    && (if g.scope_type == "agent"
        then r.agent_id == g.scope_id
        else if g.scope_type == "project"
        then j.project_id == g.scope_id
        else any (λ p. p.id == j.project_id && p.team_id == g.scope_id) projects)

abbrev pub is_governed : Grant → Tables → Run → Bool
is_governed g db r = any (governs g db.projects r) db.jobs

unfoldable pub sum_of {ℓ} : {A : Type ℓ} → (A → ℕ) → List A → ℕ
sum_of f [] = 0
sum_of f (x ∷ xs) = f x + sum_of f xs

-- `spent_usd`: the ledger since the start of the period (`none` for a lifetime), and the runs whose
-- cost did not come through the gateway. The ids of runs and jobs are keys, so a join adds no rows.
unfoldable pub spent_usd : Option ℕ → Grant → Tables → ℕ
unfolding sum_of
spent_usd period_start g db =
    sum_of (λ l. l.cost_usd)
      (keep_if
        (λ l.
          l.resource_id == g.resource_id
          && any (λ r. r.id == l.run_id && is_governed g db r) db.runs
          && elim period_start [ none ↦ true | some start ↦ leb start l.at ])
        db.usage_ledger)
    + sum_of (λ r. r.cost_usd)
        (keep_if
          (λ r.
            r.resource_id == g.resource_id
            && not (r.accounting_precision == "gateway")
            && is_governed g db r)
          db.runs)

unfoldable pub active_runs : Grant → Tables → ℕ
active_runs g db = length (
    keep_if
      (λ r.
        r.resource_id == g.resource_id
        && contains r.status ("queued" ∷ "running" ∷ "waiting_input" ∷ [])
        && is_governed g db r)
      db.runs)

pub data QuotaError : Type 0 where
  concurrency_reached budget_exhausted : String → QuotaError

-- `dispatch_check`; what `spent_usd` returns is `spent`.
unfoldable pub dispatch_check : ℕ → Grant → Tables → Result QuotaError (Unit {0})
unfolding active_runs
dispatch_check spent g db =
    if elim g.max_concurrency [ none ↦ false | some limit ↦ leb limit (active_runs g db) ]
    then err (concurrency_reached g.on_exceed)
    else if elim g.budget_usd [ none ↦ false | some budget ↦ leb budget spent ]
    then err (budget_exhausted g.on_exceed)
    else ok tt

-- `Reservations._by_grant`: the number of requests in flight for each grant.
abbrev pub Reservations : Type 0
Reservations = List (String × ℕ)

unfoldable pub reserved : String → Reservations → ℕ
reserved id [] = 0
reserved id ((k, n) ∷ by_grant) = let rest = reserved id by_grant in if k == id then n else rest

unfoldable pub set_reserved : String → ℕ → Reservations → Reservations
set_reserved id n [] = (id, n) ∷ []
set_reserved id n ((k, m) ∷ by_grant) =
    let rest = set_reserved id n by_grant in if k == id then (k, n) ∷ by_grant else (k, m) ∷ rest

unfoldable pub admit : ℕ → ℕ → Grant → Reservations → Result QuotaError Reservations
admit reserve_usd spent g by_grant = elim g.budget_usd [
  | none ↦ ok by_grant
  | some budget ↦
      if ltb budget (spent + reserved g.id by_grant * reserve_usd + reserve_usd)
      then err (budget_exhausted g.on_exceed)
      else ok (set_reserved g.id (reserved g.id by_grant + 1) by_grant)
]

unfoldable pub settle : Grant → Reservations → Reservations
settle g by_grant =
    let n = reserved g.id by_grant in
    if is_some g.budget_usd && ltb 0 n then set_reserved g.id (n - 1) by_grant else by_grant
