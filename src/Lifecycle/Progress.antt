-- ===== src/Lifecycle/Progress.antt =====
-- project_lifecycle.py: `job_progress`, `maybe_complete` and `sync_from_jobs`.
use bastet_agent_os.Prelude.{
  ◌+◌, String, ◌≡◌, ◌≢◌, ◌⊎◌, inl, inr, refl, ap, ◌∙◌, eq_iff, ◌==◌, true, false, not, ◌&&◌, Option,
  none, some, List, [], ◌∷◌, ok, contains, any, arith, eqb, Bool-cases,
}
use bastet_agent_os.Lifecycle.{
  statuses, Db, Job, status_of, find_transition, moved, apply, job_progress, in_flight, plan_of,
  maybe_complete, sync_from_jobs,
}
use bastet_agent_os.Lifecycle.Moves.{moved-status}

-- The five counts of the jobs of a project add up to their number.
job_progress-total :
    (project_id : String) (jobs : List Job)
    → let c = job_progress project_id jobs in
      c.total ≡ c.done + c.active + c.blocked + c.still_open + c.cancelled
unfolding job_progress
job_progress-total project_id [] = refl
job_progress-total project_id (j ∷ jobs) = ground (arith, job_progress-total project_id jobs)

activated :
    (db : Db) (project_id actor from : String)
    → status_of db project_id ≡ ok from
    → contains from ("planning" ∷ "ready" ∷ "paused" ∷ "maintenance" ∷ []) ≡ true
    → apply db project_id "activate" actor
      ≡ ok (moved project_id "activate" actor from "running" db, "running")
unfolding apply find_transition
activated db project_id actor from h c = rw (h, c) refl

completed :
    (db : Db) (project_id actor : String)
    → status_of db project_id ≡ ok "running"
    → apply db project_id "complete" actor
      ≡ ok (moved project_id "complete" actor "running" "maintenance" db, "maintenance")
unfolding apply find_transition
completed db project_id actor h = rw (h) refl

-- Completion by the runner moves a running project whose jobs are all done or cancelled, and it has
-- jobs, to `maintenance`, and leaves any other project that is there as it is.
pub maybe_complete_lem :
    (db : Db) (project_id actor status : String)
    → status_of db project_id ≡ ok status
    → let c = job_progress project_id db.jobs in
      ((status ≡ "running")
        × (c.total ≢ 0)
        × (in_flight c ≡ 0)
        × (maybe_complete db project_id actor
            ≡ ok
                (moved project_id "complete" actor "running" "maintenance" db, some "maintenance")))
      ⊎ ((status ≡ "running" → c.total ≢ 0 → in_flight c ≢ 0)
          × (maybe_complete db project_id actor ≡ ok (db, none)))
unfolding maybe_complete
maybe_complete_lem db project_id actor status h =
    let c = job_progress project_id db.jobs in
    let sum = job_progress-total project_id db.jobs in
    elim (Bool-cases (status == "running")) [
      | inr r ↦
          inr (λ e. ground (arith, r, e, eq_iff status "running"), rw (maybe_complete, h, r) refl)
      | inl r ↦
          let running : status ≡ "running" = (eq_iff status "running").0 r in
          elim (Bool-cases (eqb c.total 0)) [
            | inl t ↦ inr (λ _ n. ground (arith, n, t), rw (maybe_complete, h, r, t) refl)
            | inr t ↦ elim (Bool-cases (eqb (c.done + c.cancelled) c.total)) [
              | inl d ↦ inl (
                running,
                ground (arith, t),
                ground (arith, sum, d),
                rw (maybe_complete, h, r, t, d, completed db project_id actor (h ∙ ap ok running))
                    refl,
              )
              | inr d ↦
                  inr (λ _ _ z. ground (arith, sum, d, z), rw (maybe_complete, h, r, t, d) refl)
            ]
          ]
    ]

-- What a sync does to a project in one of the six statuses.
sync_from_jobs-cases :
    (db : Db) (project_id actor from : String)
    → status_of db project_id ≡ ok from
    → let c = job_progress project_id db.jobs in
      ((contains from ("planning" ∷ "ready" ∷ "paused" ∷ "maintenance" ∷ []) ≡ true)
        × (eqb (in_flight c) 0 ≡ false)
        × (sync_from_jobs db project_id actor
            ≡ ok (moved project_id "activate" actor from "running" db, some "running")))
      ⊎ (((from ≡ "running")
            × (eqb (in_flight c) 0 ≡ true)
            × (sync_from_jobs db project_id actor
                ≡ ok (
                  moved project_id "complete" actor "running" "maintenance" db,
                  some "maintenance",
                )))
          ⊎ ((eqb (in_flight c) 0 ≡ false
                → contains from ("planning" ∷ "ready" ∷ "paused" ∷ "maintenance" ∷ []) ≡ false)
              × (sync_from_jobs db project_id actor ≡ ok (db, none))))
unfolding sync_from_jobs
sync_from_jobs-cases db project_id actor from h =
    let c = job_progress project_id db.jobs in
    let waiting : List String = "planning" ∷ "ready" ∷ "paused" ∷ "maintenance" ∷ [] in
    elim (Bool-cases (from == "closed")) [
      | inl k ↦
          let shut : from ≡ "closed" = (eq_iff from "closed").0 k in
          inr (inr (λ _. ap (λ f. contains f waiting) shut, rw (sync_from_jobs, h, k) refl))
      | inr k ↦ elim (Bool-cases (eqb (in_flight c) 0)) [
        | inr f ↦ elim (Bool-cases (contains from waiting)) [
          | inl w ↦
              inl
                (w, f, rw (sync_from_jobs, h, k, f, w, activated db project_id actor from h w) refl)
          | inr w ↦ inr (inr (λ _. w, rw (sync_from_jobs, h, k, f, w) refl))
        ]
        | inl f ↦ elim (Bool-cases (from == "running" && not (eqb c.total 0))) [
          | inr r ↦ inr (inr (λ g. ground (arith, f, g), rw (sync_from_jobs, h, k, f, r) refl))
          | inl r ↦ elim (Bool-cases (any (λ d. not d) (plan_of project_id db.projects))) [
            | inl p ↦ inr (inr (λ g. ground (arith, f, g), rw (sync_from_jobs, h, k, f, r, p) refl))
            | inr p ↦
                let running : from ≡ "running" = (eq_iff from "running").0 (ground (arith, r)) in
                inr (
                  inl (
                    running,
                    f,
                    rw
                        (
                          sync_from_jobs,
                          h,
                          k,
                          f,
                          r,
                          p,
                          completed db project_id actor (h ∙ ap ok running),
                        )
                        refl,
                  ))
          ]
        ]
      ]
    ]

-- A project that moved by its own status is left alone by the next sync.
sync_from_jobs-still :
    (db : Db) (project_id actor to : String)
    → status_of db project_id ≡ ok to
    → (to == "closed") ≡ false
    → (eqb (in_flight (job_progress project_id db.jobs)) 0 ≡ false
        → contains to ("planning" ∷ "ready" ∷ "paused" ∷ "maintenance" ∷ []) ≡ false)
    → (eqb (in_flight (job_progress project_id db.jobs)) 0 ≡ true → (to == "running") ≡ false)
    → sync_from_jobs db project_id actor ≡ ok (db, none)
sync_from_jobs-still db project_id actor to h k f r =
    elim (sync_from_jobs-cases db project_id actor to h) [
      | inl (w, g, e) ↦ let bad : ⊥ = cc (w, f g) in absurd bad
      | inr (inl (w, g, e)) ↦
          let bad : ⊥ = ground (arith, r g, (eq_iff to "running").1 w) in absurd bad
      | inr (inr (_, e)) ↦ e
    ]

-- A sync of a project in one of the six statuses succeeds; a second one by the same actor changes nothing; and after it
-- a project that has a job in flight and is not closed is running.
pub sync_from_jobs-settles :
    (db : Db) (project_id actor from : String)
    → status_of db project_id ≡ ok from
    → contains from statuses ≡ true
    → (db' : Db) × (r : Option String) × (sync_from_jobs db project_id actor ≡ ok (db', r))
      × (sync_from_jobs db' project_id actor ≡ ok (db', none))
      × (in_flight (job_progress project_id db.jobs) ≢ 0
          → from ≢ "closed"
          → status_of db' project_id ≡ ok "running")
sync_from_jobs-settles db project_id actor from h known =
    elim (sync_from_jobs-cases db project_id actor from h) [
      | inl (w, f, e) ↦
          let db' = moved project_id "activate" actor from "running" db in
          let (s, _, j) = moved-status db project_id "activate" actor "running" from h refl in
          let again =
            sync_from_jobs-still db' project_id actor "running" s refl (λ _. refl)
              (λ g.
                let bad : ⊥ =
                  cc (f, g, ap (λ js. eqb (in_flight (job_progress project_id js)) 0) j) in
                absurd bad) in
          (db', some "running", e, again, λ _ _. s)
      | inr (inl (w, f, e)) ↦
          let db' = moved project_id "complete" actor "running" "maintenance" db in
          let (s, _, j) =
            moved-status db project_id "complete" actor "maintenance" "running" (h ∙ ap ok w)
              refl in
          let again =
            sync_from_jobs-still db' project_id actor "maintenance" s refl
              (λ g.
                let bad : ⊥ =
                  cc (f, g, ap (λ js. eqb (in_flight (job_progress project_id js)) 0) j) in
                absurd bad)
              (λ _. refl) in
          (db', some "maintenance", e, again, λ n. let bad : ⊥ = ground (arith, n, f) in absurd bad)
      | inr (inr (f, e)) ↦ (
        db,
        none,
        e,
        e,
        λ n c.
            let busy : eqb (in_flight (job_progress project_id db.jobs)) 0 ≡ false =
              ground (arith, n) in
            let runs : from ≡ "running" =
              ground (arith, f busy, known, c, eq_iff from "running", eq_iff from "closed") in
            h ∙ ap ok runs,
      )
    ]
