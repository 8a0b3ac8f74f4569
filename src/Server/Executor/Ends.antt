-- ===== src/Server/Executor/Ends.antt =====
-- What a run leaves in the tables when it ends, and when it is cancelled.
use mathlib.Core.Path.{subst}
use irwandhi_gitops_lab.Base.{
  not, ◌&&◌, Bool-cases, ℕ, ◌-◌, ◌≤◌, ◌<◌, ◌≡◌, ◌≢◌, ◌↔◌, refl, ap, ◌∙◌, Bool, true, false, ◌||◌,
  Option, none, some, [], ◌∷◌, arith, if◌then◌else◌, ltb, length, take, inl, inr, Bool-cases,
}
use irwandhi_gitops_lab.Text.{Text, lit, eq_text, eq_text_iff, ne_of_eq_text}
use irwandhi_gitops_lab.Server.Store.{JobRow, ExecutionRow, find, update_where}
use irwandhi_gitops_lab.Server.Store.Laws.{find-update_where, find-update_where-other, find-meets}
use irwandhi_gitops_lab.Server.Store.Ordering.{length-take}
use irwandhi_gitops_lab.Server.Jobs.{Jobs, is_job_of}
use irwandhi_gitops_lab.Server.Executor.{
  Executions, Outcome, is_running_of, request_cancel, policy_of, trigger_job, fire, watch,
  status_of, finished, written, finish,
}
use irwandhi_gitops_lab.Server.Executor.Policies.{replacing}
use irwandhi_gitops_lab.Server.Executor.Request.{
  Reply, Http, timeout_of, body_of, request_of, body_limit, outcome_of, do_request,
}

-- A row with a given key.
abbrev pub keyed : Text → ExecutionRow → Bool
keyed id e = eq_text e.id id

pub finished-id :
    (t t' : ℕ) (outcome : Outcome) (e : ExecutionRow) → (finished t t' outcome e).id ≡ e.id
unfolding finished
finished-id t t' (Outcome.failed message canceled) e = refl
finished-id t t' (Outcome.responded status body) e = refl

failing : eq_text (lit "failure") (lit "success") ≡ false
unfolding lit eq_text
failing = refl

outcome_of-success :
    (reply : Reply)
    → (status_of (outcome_of reply) ≡ lit "success")
      ↔ ((status : ℕ) × (body : Text) × (reply ≡ Reply.answered status body) × (status < 400))
unfolding status_of outcome_of
outcome_of-success (Reply.unbuilt message) =
    (λ h. absurd (ne_of_eq_text _ (lit "success") failing h), λ p. cc (p.2))
outcome_of-success (Reply.unsent message canceled) =
    (λ h. absurd (ne_of_eq_text _ (lit "success") failing h), λ p. cc (p.2))
outcome_of-success (Reply.answered status body) = elim (Bool-cases (ltb status 400)) [
  | inl low ↦ rw low (λ h. (status, body, refl, ground arith), λ p. refl)
  | inr high ↦ rw high (
    λ h. absurd (ne_of_eq_text _ (lit "success") failing h),
    λ p. let same : p.0 ≡ status = cc (p.2) in let below = p.3 in absurd (ground arith),
  )
]

outcome_of-bounded :
    (reply : Reply) {status : ℕ} {body : Text}
    → outcome_of reply ≡ Outcome.responded status body
    → length body ≤ body_limit
unfolding outcome_of
outcome_of-bounded (Reply.unbuilt message) h = cc
outcome_of-bounded (Reply.unsent message canceled) h = cc
outcome_of-bounded (Reply.answered status received) {body = body} h =
    let kept : take body_limit received ≡ body = cc in
    subst (λ (b : Text). length b ≤ body_limit) kept (length-take body_limit received)

body_of_iff :
    (given : Option Text) (body : Text)
    → (body_of given ≡ some body) ↔ ((given ≡ some body) × (body ≢ []))
unfolding body_of
body_of_iff none body = (λ h. cc, λ p. cc (p.0))
body_of_iff (some []) body = (λ h. cc, λ p. absurd (p.1 (cc (p.0))))
body_of_iff (some (c ∷ s)) body = (λ h. (h, λ e. cc), λ p. p.0)

module _ (http : Http) (job : JobRow) where
  -- A request is never sent without a limit on its time, and carries a body only if the job has one
  -- that is not empty. However it ends, the text that the run writes about a response has at most
  -- 10 000 bytes, and the run is a success exactly if a response with a status below 400 came.
  pub do_request_lem :
      (1 ≤ (request_of http job).timeout_seconds)
      × ((body : Text)
          → (request_of http job).body ≡ some body ↔ ((job.body ≡ some body) × (body ≢ [])))
      × ((status : ℕ) (body : Text)
          → do_request http job ≡ Outcome.responded status body
          → length body ≤ body_limit)
      × ((status_of (do_request http job) ≡ lit "success") ↔ (
          (status : ℕ) × (body : Text) × (http.send (request_of http job)
            ≡ Reply.answered status body)
          × (status < 400)))
  unfolding do_request request_of timeout_of
  do_request_lem = (
    ground arith,
    λ body. body_of_iff job.body body,
    λ status body h. outcome_of-bounded (http.send (request_of http job)) h,
    outcome_of-success (http.send (request_of http job)),
  )

finished_status :
    (t t' : ℕ) (outcome : Outcome) (e : ExecutionRow)
    → (finished t t' outcome e).status ≡ status_of outcome
unfolding finished
finished_status t t' (Outcome.failed message canceled) e = refl
finished_status t t' (Outcome.responded status body) e = refl

finished_duration :
    (t t' : ℕ) (outcome : Outcome) (e : ExecutionRow)
    → (finished t t' outcome e).duration_ms ≡ some (t' - t)
unfolding finished
finished_duration t t' (Outcome.failed message canceled) e = refl
finished_duration t t' (Outcome.responded status body) e = refl

module _ (accepts : Text → Bool) (id : Text) (t t' : ℕ) (outcome : Outcome) where
  ended :
      (executions : Executions) {e : ExecutionRow}
      → find (keyed id) executions ≡ some e
      → find (keyed id) (update_where (keyed id) (finished t t' outcome) executions)
        ≡ some (finished t t' outcome e)
  ended executions {e} found =
      find-update_where (keyed id) (keyed id) (finished t t' outcome) executions
        (λ x. ap (λ i. eq_text i id) (finished-id t t' outcome x))
      ∙ rw (found, find-meets (keyed id) executions found) refl

  -- A run whose last statement is accepted ends its own row, with its outcome and its duration, and
  -- leaves all other rows as they are.
  pub finish_lem :
      (executions : Executions) {e : ExecutionRow}
      → accepts (written outcome) ≡ true
      → find (keyed id) executions ≡ some e
      → let left = finish accepts id t t' outcome executions in
        (find (keyed id) left ≡ some (finished t t' outcome e))
        × ((finished t t' outcome e).status ≡ status_of outcome)
        × ((finished t t' outcome e).duration_ms ≡ some (t' - t))
        × ((other : Text)
            → eq_text id other ≡ false
            → find (keyed other) left ≡ find (keyed other) executions)
  unfolding finish
  finish_lem executions {e} accepted found = rw accepted (
    ended executions found,
    finished_status t t' outcome e,
    finished_duration t t' outcome e,
    λ other apart.
        find-update_where-other (keyed other) (keyed id) (finished t t' outcome) executions
          (λ x h. ground (arith, eq_text_iff x.id other, eq_text_iff x.id id, eq_text_iff id other))
          (λ x. ap (λ i. eq_text i other) (finished-id t t' outcome x)),
  )

pub request_cancel-find :
    (fault : Bool) (job_id id : Text) (executions : Executions) {e : ExecutionRow}
    → find (keyed id) executions ≡ some e
    → find (keyed id) (request_cancel fault job_id executions)
      ≡ some
          (if not fault && is_running_of job_id e then record e { cancel_requested = true } else e)
unfolding request_cancel
request_cancel-find true job_id id executions known = known
request_cancel-find false job_id id executions {e} known =
    find-update_where (keyed id) (is_running_of job_id) (λ e. record e { cancel_requested = true })
      executions (λ x. refl)
    ∙ rw known refl

watch_found :
    (id : Text) (executions : Executions) {e : ExecutionRow}
    → find (keyed id) executions ≡ some e
    → watch false id executions ≡ e.cancel_requested
unfolding watch
watch_found id executions known = rw (watch, known) refl

-- Whether a trigger asks an execution to stop.
abbrev pub asks : Bool → JobRow → ExecutionRow → Bool
asks fault job e =
    eq_text job.concurrency_policy (lit "Replace") && (not fault && is_running_of job.id e)

policy_of-find :
    (fault : Bool) (job : JobRow) (id : Text) (executions : Executions) {e : ExecutionRow}
    → find (keyed id) executions ≡ some e
    → find (keyed id) (policy_of job.concurrency_policy fault job.id executions).0
      ≡ some (if asks fault job e then record e { cancel_requested = true } else e)
policy_of-find fault job id executions {e} known =
    elim (Bool-cases (eq_text job.concurrency_policy (lit "Replace"))) [
      | inl replace ↦
          let same = (eq_text_iff job.concurrency_policy (lit "Replace")).0 replace in
          let left : (policy_of job.concurrency_policy fault job.id executions).0
              ≡ request_cancel fault job.id executions =
            ap (λ (p : Text). (policy_of p fault job.id executions).0) same
            ∙ ap (λ r. r.0) (replacing fault job.id executions) in
          ap (find (keyed id)) left
          ∙ rw replace (request_cancel-find fault job.id id executions known)
      | inr other ↦ rw other (ground (arith, known))
    ]

module _ (jobs : Jobs) (job : JobRow) (uid : Text) (executions : Executions)
    (found : find (is_job_of uid job.id) jobs ≡ some job) where
  -- After a trigger of a job, by its owner, where the job is read, or by the schedule, and under any
  -- policy, the watcher of any run with a row cancels the run's request, at a tick whose query does
  -- not fail, exactly if the run was asked to stop before, or the policy is "Replace", its statement
  -- does not fail, and the row is one of that job and says that it runs.
  pub watch-Replace :
      (fault : Bool) {e : ExecutionRow}
      → find (keyed e.id) executions ≡ some e
      → (watch false e.id (trigger_job false fault uid job.id jobs executions).0
          ≡ (asks fault job e || e.cancel_requested))
        × (watch false e.id (fire fault job executions).0
            ≡ (asks fault job e || e.cancel_requested))
  unfolding trigger_job fire
  watch-Replace fault {e} known =
      let left = (policy_of job.concurrency_policy fault job.id executions).0 in
      let seen : watch false e.id left ≡ (asks fault job e || e.cancel_requested) =
        watch_found e.id left (policy_of-find fault job e.id executions known) ∙ ground arith in
      let same : (trigger_job false fault uid job.id jobs executions).0 ≡ left =
        rw (found, trigger_job) (ground arith) in
      (ap (watch false e.id) same ∙ seen, seen)
