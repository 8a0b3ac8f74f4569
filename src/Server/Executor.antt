-- ===== src/Server/Executor.antt =====
-- The executors of apps/cronpilot-api/executor and apps/cronpilot-worker/executor (the same code but
-- for one entry point), and what starts them: the trigger handlers and the scheduler's callbacks.
pub mod Race
pub mod Policies
pub mod Request
pub mod Ends
pub mod Stuck
use irwandhi_gitops_lab.Base.{
  ℕ, ◌-◌, Bool, true, false, ◌&&◌, Option, none, some, List, [], ◌∷◌, if◌then◌else◌, ltb, filter,
  length,
}
use irwandhi_gitops_lab.Text.{Text, lit, eq_text}
use irwandhi_gitops_lab.Server.Store.{Uuid, JobRow, ExecutionRow, find, update_where}
use irwandhi_gitops_lab.Server.Answer.{Answer, ok, error}
use irwandhi_gitops_lab.Server.Jobs.{Jobs, has_id, is_job_of}

abbrev pub Executions : Type 0
Executions = List ExecutionRow

-- `WHERE job_id=… AND status='running'`.
unfoldable pub is_running_of : Uuid → ExecutionRow → Bool
is_running_of job_id e = eq_text e.job_id job_id && eq_text e.status (lit "running")

unfoldable pub count_running : Uuid → Executions → ℕ
unfolding is_running_of
count_running job_id executions = length (filter (is_running_of job_id) executions)

-- `HasRunning`; where its query fails, the count stays 0.
unfoldable pub has_running : Bool → Uuid → Executions → Bool
unfolding count_running
has_running fault job_id executions =
    let count = if fault then 0 else count_running job_id executions in ltb 0 count

-- `UPDATE executions SET cancel_requested=TRUE WHERE …`, whose error the callers pass over.
unfoldable pub request_cancel : Bool → Uuid → Executions → Executions
unfolding is_running_of
request_cancel fault job_id executions =
    if fault
    then executions
    else update_where (is_running_of job_id) (λ e. record e { cancel_requested = true }) executions

-- A run that was started as a goroutine and has not written its row yet.
pub record Spawned : Type 0 where
  pub job : JobRow
  pub triggered_by : Text

-- The policy of a trigger: what it leaves of the executions, and whether it may run. `fault` says
-- that the statement of the policy fails.
abbrev pub policy_of : Text → Bool → Uuid → Executions → Executions × Bool
policy_of policy fault job_id executions =
    if eq_text policy (lit "Forbid")
    then (if has_running fault job_id executions then (executions, false) else (executions, true))
    else if eq_text policy (lit "Replace")
    then (request_cancel fault job_id executions, true)
    else (executions, true)

-- A statement that reads one row: none where it fails.
abbrev pub read : Bool → (JobRow → Bool) → Jobs → Option JobRow
read unread test jobs = if unread then none else find test jobs

-- `TriggerJob`; `unread` says that the statement that reads the job fails, `fault` that the policy's
-- does (that of "Forbid" does, for one, where the client has closed the connection).
unfoldable pub trigger_job :
    Bool → Bool → Uuid → Uuid → Jobs → Executions → Executions × Answer (Unit {0}) × Option Spawned
unfolding is_job_of has_running request_cancel
trigger_job unread fault uid id jobs executions = elim (read unread (is_job_of uid id) jobs) [
  | none ↦ (executions, error 404 (lit "Job not found"), none)
  | some job ↦
      let (executions', allowed) = policy_of job.concurrency_policy fault job.id executions in
      if allowed
      then (executions', ok 200 tt, some (record { job = job; triggered_by = lit "manual" }))
      else (executions', error 409 (lit "Job is already running (Forbid policy)"), none)
]

-- `AdminTriggerJob`; its query does not read the policy.
unfoldable pub admin_trigger_job :
    Bool → Uuid → Jobs → Executions → Answer (Unit {0}) × Option Spawned
unfolding has_id
admin_trigger_job unread id jobs executions = elim (read unread (has_id id) jobs) [
  | none ↦ (error 404 (lit "Job not found"), none)
  | some job ↦ (ok 200 tt, some (record { job = job; triggered_by = lit "manual" }))
]

-- The callback of `makeRunner`, on the executions; `fault` says that the policy's statement fails.
-- (`cancelFn`, its cancelling in memory, acts on no row.)
unfoldable pub fire : Bool → JobRow → Executions → Executions × Option Spawned
unfolding has_running request_cancel
fire fault job executions =
    let (executions', allowed) = policy_of job.concurrency_policy fault job.id executions in
    (
      executions',
      if allowed then some (record { job = job; triggered_by = lit "schedule" }) else none,
    )

-- The first statement of `run`, where it does not fail; `id` is the key that the table makes. (A run
-- whose first statement fails makes no request and ends.)
unfoldable pub begin : Text → ℕ → Spawned → Executions → Executions
begin id started_at s executions =
    record {
      id = id;
      job_id = s.job.id;
      status = lit "running";
      triggered_by = s.triggered_by;
      started_at = started_at;
      completed_at = none;
      duration_ms = none;
      response_status = none;
      response_body = none;
      error_message = none;
      cancel_requested = false;
    }
    ∷ executions

-- What the watcher of a run reads at a tick: whether it cancels the request. A query that fails
-- leaves that to the next tick.
unfoldable pub watch : Bool → Text → Executions → Bool
watch fault id executions = elim (if fault then none else find (λ e. eq_text e.id id) executions) [
  | none ↦ false
  | some e ↦ e.cancel_requested
]

-- How `doRequest` ends: with an error and whether it is `context.Canceled`, or with the status and
-- the bytes of the response.
pub data Outcome : Type 0 where
  failed : (message : Text) (canceled : Bool) → Outcome
  responded : (status : ℕ) (body : Text) → Outcome

unfoldable pub status_of : Outcome → Text
status_of (Outcome.failed message canceled) = lit "failure"
status_of (Outcome.responded status body) = if ltb status 400 then lit "success" else lit "failure"

-- What the last statement of `run` on its row sets.
unfoldable pub finished : ℕ → ℕ → Outcome → ExecutionRow → ExecutionRow
unfolding status_of
finished started_at completed_at (Outcome.failed message canceled) e = record e {
  status = status_of (Outcome.failed message canceled);
  completed_at = some completed_at;
  duration_ms = some (completed_at - started_at);
  error_message = some (if canceled then lit "replaced by newer execution" else message);
}
finished started_at completed_at (Outcome.responded status body) e = record e {
  status = status_of (Outcome.responded status body);
  completed_at = some completed_at;
  duration_ms = some (completed_at - started_at);
  response_status = some status;
  response_body = some body;
}

-- The text that the statement hands to the database.
unfoldable pub written : Outcome → Text
written (Outcome.failed message canceled) =
    if canceled then lit "replaced by newer execution" else message
written (Outcome.responded status body) = body

-- That statement; the database runs it if the text is one that it accepts, and the run passes over
-- its error if not.
unfoldable pub finish : (Text → Bool) → Text → ℕ → ℕ → Outcome → Executions → Executions
unfolding finished written
finish accepts id started_at completed_at outcome executions =
    if accepts (written outcome)
    then update_where (λ e. eq_text e.id id) (finished started_at completed_at outcome) executions
    else executions

-- The statement of `run` on the job, whose error is passed over too.
unfoldable pub stamp : Bool → JobRow → ℕ → Outcome → Jobs → Jobs
unfolding has_id
stamp fault job completed_at (Outcome.failed message canceled) jobs = jobs
stamp fault job completed_at (Outcome.responded status body) jobs =
    if fault
    then jobs
    else update_where (has_id job.id) (λ j. record j { last_run_at = some completed_at }) jobs
