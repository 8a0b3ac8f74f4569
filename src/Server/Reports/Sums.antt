-- ===== src/Server/Reports/Sums.antt =====
-- The statistics of the jobs and the summary count the same executions.
use irwandhi_gitops_lab.Base.{ℕ, Bool, filter, if◌then◌else◌}
use irwandhi_gitops_lab.Text.{Text, eq_text}
use irwandhi_gitops_lab.Server.Store.{JobRow, ExecutionRow, count_where}
use irwandhi_gitops_lab.Server.Store.Sums.{sum_of}
use irwandhi_gitops_lab.Server.Jobs.{Jobs, is_owned}
use irwandhi_gitops_lab.Server.Jobs.Calls.Refinement.{IsKeyed}
use irwandhi_gitops_lab.Server.Executor.{Executions}
use irwandhi_gitops_lab.Server.Reports.{runs_of}

abbrev as_one : Bool → ℕ
as_one b = if b then 1 else 0

-- The user's jobs that an execution may belong to.
module _ (uid : Text) (e : ExecutionRow) where
  abbrev hits : Jobs → ℕ
  hits jobs = sum_of (λ job. as_one (eq_text e.job_id job.id)) (filter (is_owned uid) jobs)

-- The executions of one job, and of the user's, among those that a test picks.
module _ (uid : Text) (jobs : Jobs) (keyed : IsKeyed jobs) (test : ExecutionRow → Bool) where
  abbrev mine : Jobs
  mine = filter (is_owned uid) jobs

  abbrev picked : Executions → JobRow → ℕ
  picked es job = count_where test (runs_of job es)
