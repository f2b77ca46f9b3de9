-- ===== src/Lifecycle/Moves.antt =====
-- project_lifecycle.py: the moves that `apply` makes, one and in sequence.
use mathlib.Core.Path.{subst}
use bastet_agent_os.Prelude.{
  String, ◌≡◌, ◌≢◌, ◌⊎◌, inl, inr, refl, sym, ap, ◌∙◌, eq_iff, ◌==◌, true, false, not, ◌&&◌, ◌||◌,
  none, some, List, [], ◌∷◌, map, Result, ok, err, contains, keep_if, IsNodup, All, arith,
  Bool-cases, Option-cases,
}
use bastet_agent_os.Lifecycle.{
  Transition, transitions, internal_transitions, allowed_transitions, statuses, ProjectRow, Db,
  status_in, status_of, with_status, find_transition, moved, apply, unknown_transition,
  wrong_status, LifecycleError,
}

-- The names of the transitions of a table that start from a status.
abbrev from_status : String → List Transition → List String
from_status status ts = map (λ t. t.name) (keep_if (λ t. contains status t.froms) ts)

from_status-none :
    (name status : String) (ts : List Transition)
    → contains name (map (λ t. t.name) ts) ≡ false
    → contains name (from_status status ts) ≡ false
from_status-none name status [] h = refl
from_status-none name status (t ∷ ts) h = ground (arith, h, from_status-none name status ts)

-- In a table of distinct names a name is among them exactly if its transition starts there.
from_status-find :
    (name status : String) (ts : List Transition)
    → IsNodup (map (λ t. t.name) ts)
    → contains name (from_status status ts)
      ≡ elim (find_transition name ts) [ none ↦ false | some t ↦ contains status t.froms ]
unfolding find_transition
from_status-find name status [] d = refl
from_status-find name status (t ∷ ts) (n, d) = elim (Bool-cases (t.name == name)) [
  | inl e ↦
      let same : t.name ≡ name = (eq_iff t.name name).0 e in
      let later : contains name (from_status status ts) ≡ false =
        from_status-none name status ts
          (subst (λ x. contains x (map (λ u. u.name) ts) ≡ false) same n) in
      rw (e) (ground (arith, later, e, eq_iff name t.name))
  | inr e ↦ rw (e) (ground (arith, from_status-find name status ts d, e, eq_iff name t.name))
]

with_internal :
    (status : String) (ts : List Transition)
    → map
        (λ t. t.name)
        (keep_if
          (λ t. contains status t.froms && (true || not (contains t.name internal_transitions)))
          ts)
      ≡ from_status status ts
with_internal status [] = refl
with_internal status (t ∷ ts) = ground (arith, with_internal status ts)

distinct_names : IsNodup (map (λ t. t.name) transitions)
distinct_names = (refl, (refl, (refl, (refl, (refl, (refl, (refl, (refl, (refl, (refl, tt))))))))))

allowed_transitions-find :
    (name status : String)
    → contains name (allowed_transitions status true)
      ≡ elim (find_transition name transitions) [ none ↦ false | some t ↦ contains status t.froms ]
unfolding allowed_transitions
allowed_transitions-find name status =
    ap (contains name) (with_internal status transitions)
    ∙ from_status-find name status transitions distinct_names

-- The three ways that `apply` can go on a project that is there.
apply-cases :
    (db : Db) (project_id name actor from : String)
    → status_of db project_id ≡ ok from
    → ((e : LifecycleError) × (apply db project_id name actor ≡ err e)
        × (contains name (allowed_transitions from true) ≡ false))
      ⊎ ((t : Transition) × (find_transition name transitions ≡ some t)
          × (contains name (allowed_transitions from true) ≡ true)
          × (apply db project_id name actor
              ≡ ok (moved project_id name actor from t.target db, t.target)))
unfolding apply
apply-cases db project_id name actor from h =
    let found = allowed_transitions-find name from in
    elim (Option-cases (find_transition name transitions)) [
      | inl e ↦ inl (unknown_transition name, rw (apply, e) refl, rw (found, e) refl)
      | inr (t, e) ↦ elim (Bool-cases (contains from t.froms)) [
        | inl c ↦ inr (t, e, rw (found, e) c, rw (apply, e, h, c) refl)
        | inr c ↦ inl (wrong_status name t.froms from, rw (apply, e, h, c) refl, rw (found, e) c)
      ]
    ]

status_in-map :
    (project_id to : String) (rows : List ProjectRow) (from : String)
    → (to == "") ≡ false
    → status_in project_id rows ≡ ok from
    → status_in project_id (map (with_status project_id to) rows) ≡ ok to
unfolding status_in
status_in-map project_id to [] from ne h = let bad : ⊥ = cc in absurd bad
status_in-map project_id to (row ∷ rows) from ne h = elim (Bool-cases (row.id == project_id)) [
  | inl e ↦ ground (arith, e, ne)
  | inr e ↦ ground (arith, e, status_in-map project_id to rows from ne (ground (arith, e, h)))
]

status_in-other :
    (project_id to other : String) (rows : List ProjectRow)
    → other ≢ project_id
    → status_in other (map (with_status project_id to) rows) ≡ status_in other rows
unfolding status_in
status_in-other project_id to other [] ne = refl
status_in-other project_id to other (row ∷ rows) ne =
    let apart : row.id ≡ other → row.id ≢ project_id = λ p q. ne (sym p ∙ q) in
    elim (Bool-cases (row.id == project_id)) [
      | inl e ↦ ground (
        arith,
        e,
        apart,
        eq_iff row.id other,
        eq_iff row.id project_id,
        status_in-other project_id to other rows ne,
      )
      | inr e ↦ ground (arith, e, status_in-other project_id to other rows ne)
    ]

find_transition-All :
    (P : Transition → Type 0) (name : String) (t : Transition) (ts : List Transition)
    → All P ts
    → find_transition name ts ≡ some t
    → P t
unfolding find_transition
find_transition-All P name t [] all h = let bad : ⊥ = cc in absurd bad
find_transition-All P name t (u ∷ ts) (p, all) h = elim (Bool-cases (u.name == name)) [
  | inl e ↦ let same : u ≡ t = ground (arith, h, e) in subst P same p
  | inr e ↦ find_transition-All P name t ts all (rw (e) at h)
]

targets_known :
    All (λ u. (contains u.target statuses ≡ true) × ((u.target == "") ≡ false)) transitions
targets_known = (
  (refl, refl),
  (
    (refl, refl),
    (
      (refl, refl),
      (
        (refl, refl),
        (
          (refl, refl),
          ((refl, refl), ((refl, refl), ((refl, refl), ((refl, refl), ((refl, refl), tt))))),
        ),
      ),
    ),
  ),
)

-- Every transition of the table ends in one of the six statuses.
target_known :
    (name : String) (t : Transition)
    → find_transition name transitions ≡ some t
    → (contains t.target statuses ≡ true) × ((t.target == "") ≡ false)
target_known name t h =
    find_transition-All (λ u. (contains u.target statuses ≡ true) × ((u.target == "") ≡ false)) name
      t transitions targets_known h

ok-injective : {E A : Type 0} {x y : A} → ◌≡◌ {A = Result E A} (ok x) (ok y) → x ≡ y
ok-injective h = cc (h)

pub moved-status :
    (db : Db) (project_id name actor to from : String)
    → status_of db project_id ≡ ok from
    → (to == "") ≡ false
    → (status_of (moved project_id name actor from to db) project_id ≡ ok to)
      × ((other : String)
          → other ≢ project_id
          → status_of (moved project_id name actor from to db) other ≡ status_of db other)
      × ((moved project_id name actor from to db).jobs ≡ db.jobs)
unfolding status_of moved
moved-status db project_id name actor to from h ne = (
  status_in-map project_id to db.projects from ne h,
  λ other o. status_in-other project_id to other db.projects o,
  refl,
)

-- On a project that is there, `apply` either raises, and the transition is not allowed in the project's
-- status; or it is allowed, and the project has the status that is returned, which is the target of the
-- transition in the table and one of the six, while the status of every other project and the jobs stay
-- as they were.
pub apply_lem :
    (db : Db) (project_id name actor from : String)
    → status_of db project_id ≡ ok from
    → ((e : LifecycleError) × (apply db project_id name actor ≡ err e)
        × (contains name (allowed_transitions from true) ≡ false))
      ⊎ ((db' : Db) × (t : Transition) × (apply db project_id name actor ≡ ok (db', t.target))
          × (contains name (allowed_transitions from true) ≡ true)
          × (find_transition name transitions ≡ some t)
          × (contains t.target statuses ≡ true)
          × (status_of db' project_id ≡ ok t.target)
          × ((other : String) → other ≢ project_id → status_of db' other ≡ status_of db other)
          × (db'.jobs ≡ db.jobs))
apply_lem db project_id name actor from h = elim (apply-cases db project_id name actor from h) [
  | inl bad ↦ inl bad
  | inr (t, f, c, a) ↦
      let (known, ne) = target_known name t f in
      let (status, others, jobs) = moved-status db project_id name actor t.target from h ne in
      inr (moved project_id name actor from t.target db, t, a, c, f, known, status, others, jobs)
]
