-- ===== src/Server/Executor/Policies.antt =====
-- What a trigger does under the policies "Replace" and "Forbid".
use irwandhi_gitops_lab.Base.{
  ◌≤◌, ◌≡◌, ◌↔◌, refl, Bool, true, false, not, none, some, [], ◌∷◌, arith, filter, All,
}
use irwandhi_gitops_lab.Text.{Text, lit, eq_text, eq_text_refl, eq_text_iff}
use irwandhi_gitops_lab.Server.Store.{JobRow, find, update_where}
use irwandhi_gitops_lab.Server.Store.Laws.{filter-update_where}
use irwandhi_gitops_lab.Server.Answer.{ok, error}
use irwandhi_gitops_lab.Server.Jobs.{Jobs, has_id, is_job_of}
use irwandhi_gitops_lab.Server.Executor.{
  Executions, is_running_of, count_running, has_running, request_cancel, trigger_job,
  admin_trigger_job, fire, policy_of,
}

-- The executions that a trigger of a job must not touch.
unfoldable pub rest_of : Text → Executions → Executions
rest_of job_id executions = filter (λ e. not (is_running_of job_id e)) executions

-- Every execution of the job that runs has been asked to stop.
abbrev pub IsCancelled : Text → Executions → Type 0
IsCancelled job_id executions =
    All (λ e. is_running_of job_id e ≡ true → e.cancel_requested ≡ true) executions

request_cancel-IsCancelled :
    (job_id : Text) (executions : Executions)
    → IsCancelled job_id (request_cancel false job_id executions)
unfolding request_cancel update_where is_running_of
request_cancel-IsCancelled job_id [] = tt
request_cancel-IsCancelled job_id (e ∷ es) =
    (λ h. ground (arith, h), request_cancel-IsCancelled job_id es)

rest_of-request_cancel :
    (fault : Bool) (job_id : Text) (executions : Executions)
    → rest_of job_id (request_cancel fault job_id executions) ≡ rest_of job_id executions
unfolding rest_of request_cancel is_running_of
rest_of-request_cancel true job_id executions = refl
rest_of-request_cancel false job_id executions =
    filter-update_where (λ e. not (is_running_of job_id e)) (is_running_of job_id) _ executions
      (λ e h. rw h refl) (λ e. refl)

pub replacing :
    (fault : Bool) (job_id : Text) (executions : Executions)
    → policy_of (lit "Replace") fault job_id executions
      ≡ (request_cancel fault job_id executions, true)
unfolding lit eq_text
replacing fault job_id executions = refl

-- What makes a trigger start no run: the policy "Forbid", and a count that does not fail and finds an
-- execution that runs.
abbrev pub IsBusy : Bool → JobRow → Executions → Type 0
IsBusy fault job executions =
    (job.concurrency_policy ≡ lit "Forbid")
    × (fault ≡ false)
    × (1 ≤ count_running job.id executions)

-- The policy lets a trigger start a run, or is busy.
policy_of-IsBusy :
    (fault : Bool) (job : JobRow) (executions : Executions)
    → ((policy_of job.concurrency_policy fault job.id executions).1 ≡ false)
      ↔ IsBusy fault job executions
unfolding has_running
policy_of-IsBusy true job executions = ground arith
policy_of-IsBusy false job executions =
    ground (arith, eq_text_iff job.concurrency_policy (lit "Forbid"))

module _ (jobs : Jobs) (job : JobRow) (uid : Text) (executions : Executions)
    (found : find (is_job_of uid job.id) jobs ≡ some job) where
  -- Under the policy "Replace" a trigger, by the owner, whose job is read, or by the schedule, leaves
  -- the executions of the job that do not run and those of other jobs as they are, and starts a run;
  -- it asks every execution of the job that runs to stop if its statement does not fail, and leaves
  -- all executions as they are if it does.
  pub trigger-Replace :
      (fault : Bool)
      → job.concurrency_policy ≡ lit "Replace"
      → let (left, answer, started) = trigger_job false fault uid job.id jobs executions in
        (trigger_job false fault uid job.id jobs executions ≡ (
          (fire fault job executions).0,
          ok 200 tt,
          some (record { job = job; triggered_by = lit "manual" }),
        ))
        × (fire fault job executions).1 ≡ some (record { job = job; triggered_by = lit "schedule" })
        × (fault ≡ false → IsCancelled job.id left)
        × (fault ≡ true → left ≡ executions)
        × (rest_of job.id left ≡ rest_of job.id executions)
  unfolding trigger_job fire request_cancel
  trigger-Replace fault replace =
      rw (found, trigger_job, replace, replacing fault job.id executions)
        (
          refl,
          refl,
          λ runs. rw runs (request_cancel-IsCancelled job.id executions),
          λ fails. rw fails refl,
          rest_of-request_cancel fault job.id executions,
        )

  pub refused-Forbid :
      job.concurrency_policy ≡ lit "Forbid"
      → has_running false job.id executions ≡ true
      → trigger_job false false uid job.id jobs executions
        ≡ (executions, error 409 (lit "Job is already running (Forbid policy)"), none)
  unfolding trigger_job
  refused-Forbid forbid running =
      rw (found, trigger_job, forbid, eq_text_refl (lit "Forbid"), running) refl

  -- A trigger by the owner, whose job is read, starts no run exactly if the policy is "Forbid", the
  -- count of the executions that run does not fail, and one of the job runs; it is then answered by
  -- 409 and leaves the executions as they are. The trigger by the schedule starts none in the same
  -- case alone. A trigger by an administrator, whose query reads the job, starts a run in every case.
  pub trigger-Forbid :
      (fault : Bool)
      → find (has_id job.id) jobs ≡ some job
      → let (left, answer, started) = trigger_job false fault uid job.id jobs executions in
        ((started ≡ none) ↔ IsBusy fault job executions)
        × ((fire fault job executions).1 ≡ none ↔ IsBusy fault job executions)
        × (IsBusy fault job executions
            → (left ≡ executions)
              × (answer ≡ error 409 (lit "Job is already running (Forbid policy)")))
        × (admin_trigger_job false job.id jobs executions
            ≡ (ok 200 tt, some (record { job = job; triggered_by = lit "manual" })))
  unfolding trigger_job fire admin_trigger_job
  trigger-Forbid fault known =
      let busy = policy_of-IsBusy fault job executions in
      (
        ground (arith, busy, found),
        ground (arith, busy),
        λ (forbid, runs, some_run). ground (arith, found, forbid, runs, some_run),
        rw (known, admin_trigger_job) refl,
      )
