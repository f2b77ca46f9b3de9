-- ===== src/TaskPlan/Removal.antt =====
-- project_lifecycle.py: `clear_undispatched` where a task that stays needs one that goes.
use mathlib.Core.Path.{subst}
use mathlib.Core.List.{Memᴰ}
use bastet_agent_os.Prelude.{
  ℕ, zero, suc, String, ◌≡◌, ◌≢◌, refl, sym, ap, inl, inr, true, false, not, List, [], ◌∷◌, map,
  none, some, ok, err, for_each, any, contains, IsNodup, All, Bool-cases, arith, keep_if, length,
}
use bastet_agent_os.TaskPlan.{
  Plan, Db, has_job, stored, find_plan, task_plan, save_task_plan, clear_rows, clear_undispatched,
}
use bastet_agent_os.TaskPlan.Normalize.{
  RawTask, Task, object, has_needs, PlanError, unknown_dependencies, ids, check_references,
  normalize_task_graph,
}
use bastet_agent_os.TaskPlan.WellFormed.{AreKnown, IsTaskGraph, all_known}
use bastet_agent_os.TaskPlan.Again.{IsNormal, normalize_items-stored}

-- The loop over the references fails at the first task that needs an unknown one.
elsewhere :
    (known : List String) (x : Task) (tasks : List Task) (t : Task) (d : String)
    → Memᴰ t (x ∷ tasks)
    → contains d t.needs ≡ true
    → contains d known ≡ false
    → any (λ d. not (contains d known)) x.needs ≡ false
    → Memᴰ t tasks
elsewhere known x tasks t d (Memᴰ.tail m) c n e = m
elsewhere known x tasks t d (Memᴰ.head p) c n e =
    let here = all_known known x.needs e d (subst (λ (y : Task). contains d y.needs ≡ true) p c) in
    let bad : ⊥ = cc (here, n) in absurd bad

dangling :
    (known : List String) (tasks : List Task) (t : Task) (d : String)
    → All (λ t. contains t.id t.needs ≡ false) tasks
    → Memᴰ t tasks
    → contains d t.needs ≡ true
    → contains d known ≡ false
    → (id : String) × (for_each (check_references known) tasks ≡ err (unknown_dependencies id))
unfolding check_references
dangling known [] t d own m c n = elim m [ ]
dangling known (x ∷ tasks) t d (o, own) m c n =
    elim (Bool-cases (any (λ d. not (contains d known)) x.needs)) [
      | inl e ↦ (x.id, rw e refl)
      | inr e ↦
          let (id, later) =
            dangling known tasks t d own (elsewhere known x tasks t d m c n e) c n in
          (id, rw (e, o) later)
    ]

-- A part of the tasks, as the plan keeps them.
abbrev kept_tasks : List Task → List Task
kept_tasks = keep_if has_job

kept-stored :
    (tasks : List Task) → keep_if has_job (map stored tasks) ≡ map stored (kept_tasks tasks)
kept-stored [] = refl
kept-stored (t ∷ tasks) = elim (Bool-cases (has_job t)) [
  | inl e ↦ simp e (ap (λ ts. stored t ∷ ts) (kept-stored tasks))
  | inr e ↦ simp e (kept-stored tasks)
]

kept-All : (P : Task → Type 0) (tasks : List Task) → All P tasks → All P (kept_tasks tasks)
kept-All P [] h = tt
kept-All P (t ∷ tasks) (p, h) = elim (Bool-cases (has_job t)) [
  | inl e ↦ rw e (p, kept-All P tasks h)
  | inr e ↦ rw e (kept-All P tasks h)
]

kept-absent :
    (id : String) (tasks : List Task)
    → contains id (ids tasks) ≡ false
    → contains id (ids (kept_tasks tasks)) ≡ false
kept-absent id [] h = refl
kept-absent id (t ∷ tasks) h = elim (Bool-cases (has_job t)) [
  | inl e ↦ simp e (ground (arith, h, kept-absent id tasks))
  | inr e ↦ simp e (kept-absent id tasks (ground (arith, h)))
]

kept-distinct : (tasks : List Task) → IsNodup (ids tasks) → IsNodup (ids (kept_tasks tasks))
kept-distinct [] h = tt
kept-distinct (t ∷ tasks) (n, h) = elim (Bool-cases (has_job t)) [
  | inl e ↦ simp e (kept-absent t.id tasks n, kept-distinct tasks h)
  | inr e ↦ simp e (kept-distinct tasks h)
]

kept-member :
    (t : Task) (tasks : List Task) → has_job t ≡ true → Memᴰ t tasks → Memᴰ t (kept_tasks tasks)
kept-member t [] j m = elim m [ ]
kept-member t (x ∷ tasks) j (Memᴰ.head e) =
    simp (subst (λ (y : Task). has_job y ≡ true) e j) (Memᴰ.head e)
kept-member t (x ∷ tasks) j (Memᴰ.tail m) = elim (Bool-cases (has_job x)) [
  | inl e ↦ simp e (Memᴰ.tail (kept-member t tasks j m))
  | inr e ↦ simp e (kept-member t tasks j m)
]

-- Without a dropped task all are kept.
none_dropped :
    (tasks : List Task)
    → length (keep_if (λ t. not (has_job t)) (map stored tasks)) ≡ 0
    → kept_tasks tasks ≡ tasks
none_dropped [] h = refl
none_dropped (t ∷ tasks) h = elim (Bool-cases (has_job t)) [
  | inl e ↦ simp e (ap (λ ts. t ∷ ts) (none_dropped tasks (simp e at h)))
  | inr e ↦ let bad : ⊥ = omega (arith, simp e at h) in absurd bad
]

unused_nothing : (tasks : List Task) → All (λ t. contains t.id [] ≡ false) tasks
unused_nothing [] = tt
unused_nothing (t ∷ tasks) = (refl, unused_nothing tasks)

normalize-dangling :
    (tasks : List Task) (t : Task) (d : String)
    → All IsNormal tasks
    → IsNodup (ids tasks)
    → All (λ t. contains t.id t.needs ≡ false) tasks
    → Memᴰ t tasks
    → contains d t.needs ≡ true
    → contains d (ids tasks) ≡ false
    → (id : String) × (normalize_task_graph (map object (map stored tasks))
        ≡ err (unknown_dependencies id))
unfolding normalize_task_graph
normalize-dangling tasks t d i nd own m c n =
    let (id, e) = dangling (ids tasks) tasks t d own m c n in
    (
      id,
      rw
          (
            normalize_items-stored (any has_needs (map object (map stored tasks))) 0 none [] tasks i
                nd (unused_nothing tasks),
            e,
          )
          refl,
    )

-- A plan as it is read: the project is there, and its tasks are those of a stored task graph.
pub record IsRead (project_id : String) (db : Db) (plan : Plan) (tasks : List Task) : Type 0 where
  pub previous : Plan
  pub found : find_plan project_id db.projects ≡ some previous
  pub read : task_plan project_id db ≡ ok plan
  pub same : plan.tasks ≡ map stored tasks
  pub graph : IsTaskGraph tasks
  pub normal : All IsNormal tasks

dropped_some :
    (tasks : List Task) (d : String)
    → contains d (ids tasks) ≡ true
    → contains d (ids (kept_tasks tasks)) ≡ false
    → length (keep_if (λ t. not (has_job t)) (map stored tasks)) ≢ 0
dropped_some tasks d c n h = let all = ap (λ ts. contains d (ids ts)) (none_dropped tasks h) in cc

known_need : (P : Task → Type 0) (t : Task) (tasks : List Task) → All P tasks → Memᴰ t tasks → P t
known_need P t [] h m = elim m [ ]
known_need P t (x ∷ tasks) (p, h) (Memᴰ.head e) = subst P (sym e) p
known_need P t (x ∷ tasks) (p, h) (Memᴰ.tail m) = known_need P t tasks h m

clear_rows-err :
    (now project_id : String) (plan previous : Plan) (kept : List RawTask) (dropped : ℕ) (db : Db)
    (e : PlanError)
    → find_plan project_id db.projects ≡ some previous
    → normalize_task_graph (map object kept) ≡ err e
    → dropped ≢ 0
    → clear_rows now project_id plan kept dropped db ≡ err e
unfolding clear_rows save_task_plan
clear_rows-err now project_id plan previous kept zero db e f h n = absurd (n refl)
clear_rows-err now project_id plan previous kept (suc k) db e f h n =
    simp (clear_rows, save_task_plan, f, h) refl

-- Where a task with a job needs one without, clearing the proposal raises "unknown dependencies": the
-- tasks without a job cannot be removed.
pub clear_undispatched-dangling :
    (now project_id : String) (db : Db) (plan : Plan) (tasks : List Task) (t : Task) (d : String)
    → IsRead project_id db plan tasks
    → Memᴰ t tasks
    → has_job t ≡ true
    → contains d t.needs ≡ true
    → contains d (ids (kept_tasks tasks)) ≡ false
    → (id : String) × (clear_undispatched now project_id db ≡ err (unknown_dependencies id))
unfolding clear_undispatched
clear_undispatched-dangling now project_id db plan tasks t d r m j c n =
    let known = known_need (AreKnown tasks) t tasks r.graph.known m d c in
    let (id, e) =
      normalize-dangling (kept_tasks tasks) t d (kept-All IsNormal tasks r.normal)
        (kept-distinct tasks r.graph.distinct) (kept-All _ tasks r.graph.no_self)
        (kept-member t tasks j m) c n in
    (
      id,
      simp (clear_undispatched, r.read, r.same)
          (clear_rows-err now project_id plan r.previous (keep_if has_job (map stored tasks)) _ db
            (unknown_dependencies id) r.found (simp (kept-stored tasks) e)
            (dropped_some tasks d known n)),
    )
