-- ===== src/Maintenance/Laws.antt =====
-- maintenance_mode.py: the fence through entering, waiting and leaving.
use bastet_agent_os.Prelude.{
  List, [], ◌∷◌, contains, contains-head, Bool-cases, inl, inr, refl, eq_iff, false, ℕ, suc, String,
  ◌≡◌, ◌↔◌, true, false, ok, err, arith,
}
use bastet_agent_os.Maintenance.{
  count_in, is_drained, Fence, draining, active_jobs, active_runs, enter, leave,
  require_dispatch_allowed, require_drained,
}

-- None of the words is the status of a row, exactly when their count is 0.
count_in-zero :
    (words statuses : List String)
    → (count_in words statuses ≡ 0)
      ↔ ((w : String) → contains w words ≡ true → contains w statuses ≡ false)
count_in-zero words [] = (λ h w k. refl, λ h. refl)
count_in-zero words (s ∷ statuses) = elim (Bool-cases (contains s words)) [
  | inl e ↦ (
    λ h. let bad : ⊥ = ground (arith, h, e) in absurd bad,
    λ h. let bad : ⊥ = ground (arith, h s e, contains-head s statuses) in absurd bad,
  )
  | inr e ↦
      let (there, back) = count_in-zero words statuses in
      (
        λ h w k. let rest = there (rw (e) at h) w k in ground (arith, rest, k, e, eq_iff w s),
        λ h. rw (e) (back (λ w k. ground (arith, h w k))),
      )
]

-- An update may go ahead exactly while the fence is up, no job is in progress, and no run is queued,
-- running or waiting for input; and then no dispatch is allowed.
pub require_drained_iff :
    (f : Fence)
    → ((require_drained f ≡ ok tt) ↔ (
        (f.lock.enabled ≡ true)
        × (contains "in_progress" f.jobs ≡ false)
        × (contains "queued" f.runs ≡ false)
        × (contains "running" f.runs ≡ false)
        × (contains "waiting_input" f.runs ≡ false)))
      × (require_drained f ≡ ok tt → require_dispatch_allowed f ≡ err draining)
unfolding require_drained require_dispatch_allowed is_drained
require_drained_iff f =
    let (no_jobs, jobs_done) = count_in-zero ("in_progress" ∷ []) f.jobs in
    let (no_runs, runs_done) = count_in-zero ("queued" ∷ "running" ∷ "waiting_input" ∷ []) f.runs in
    (
      (
        λ h.
            let j : active_jobs f ≡ 0 = ground (arith, h) in
            let r : active_runs f ≡ 0 = ground (arith, h) in
            (
              ground (arith, h),
              no_jobs j "in_progress" refl,
              no_runs r "queued" refl,
              no_runs r "running" refl,
              no_runs r "waiting_input" refl,
            ),
        λ (e, j, q, r, w).
            let j' = jobs_done (λ x k. ground (arith, j, k, eq_iff x "in_progress")) in
            let r' = runs_done (λ x k. ground (
              arith,
              q,
              r,
              w,
              k,
              eq_iff x "queued",
              eq_iff x "running",
              eq_iff x "waiting_input",
            )) in
            ground (arith, e, j', r'),
      ),
      λ h. ground (arith, h),
    )

-- A fence that is down has dispatch allowed, and one round of entering and leaving ends with it
-- allowed again, the generation one higher, and the jobs and runs untouched.
pub enter-leave :
    (now later : ℕ) (actor other reason : String) (f : Fence)
    → f.lock.enabled ≡ false
    → let f' = leave later other (enter now actor reason f) in
      (require_dispatch_allowed (enter now actor reason f) ≡ err draining)
      × (require_dispatch_allowed f' ≡ ok tt)
      × (f'.lock.generation ≡ suc f.lock.generation)
      × (f'.jobs ≡ f.jobs)
      × (f'.runs ≡ f.runs)
unfolding enter leave require_dispatch_allowed
enter-leave now later actor other reason f h =
    (ground (arith, h), ground (arith, h), ground (arith, h), ground (arith, h), ground (arith, h))
