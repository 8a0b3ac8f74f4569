-- ===== src/Server/Reports.antt =====
-- apps/cronpilot-api/handler/report.go, on the tables of jobs and executions: the summary and the
-- statistics of the jobs.
pub mod Timeline
pub mod Groups
pub mod Days
pub mod Chart
pub mod Statuses
pub mod Sums
pub mod Csv
pub mod Reader
pub mod Fields
pub mod Export
use irwandhi_gitops_lab.Base.{
  ℕ, suc, ◌+◌, Bool, true, false, not, ◌&&◌, Option, none, some, List, [], ◌∷◌, if◌then◌else◌, ltb,
  leb, filter, map, length,
}
use irwandhi_gitops_lab.Text.{Text, lit, eq_text}
use irwandhi_gitops_lab.Server.Store.{JobRow, ExecutionRow, count_where, order_by}
use irwandhi_gitops_lab.Server.Answer.{Answer, ok}
use irwandhi_gitops_lab.Server.Jobs.{Jobs, is_owned}
use irwandhi_gitops_lab.Server.Executor.{Executions}
use irwandhi_gitops_lab.Server.Executions.{own, Reading, respond}

-- The floating-point numbers of Go and the averages of the database: `rate s c` is
-- `float64(s) / float64(c) * 100`.
pub record Floats : Type 1 where
  pub Float : Type 0
  pub zero : Float
  pub rate : ℕ → ℕ → Float
  pub average : List ℕ → Float

abbrev pub has_status : Text → ExecutionRow → Bool
has_status status e = eq_text e.status status

unfoldable pub is_with : Text → JobRow → Bool
is_with status job = eq_text job.status status

-- The durations that are not NULL.
unfoldable pub durations : Executions → List ℕ
durations [] = []
durations (e ∷ es) =
    let rest = durations es in elim e.duration_ms [ none ↦ rest | some ms ↦ ms ∷ rest ]

-- `LEFT JOIN executions e ON e.job_id = j.id`.
unfoldable pub runs_of : JobRow → Executions → Executions
runs_of job executions = filter (λ e. eq_text e.job_id job.id) executions

module _ (f : Floats) where
  open f use {Float, zero, rate, average}

  pub record Summary : Type 0 where
    pub total_jobs : ℕ
    pub active_jobs : ℕ
    pub paused_jobs : ℕ
    pub total_executions : ℕ
    pub success_count : ℕ
    pub failure_count : ℕ
    pub running_count : ℕ
    pub success_rate : Float
    pub avg_duration_ms : Float

  unfoldable pub rate_of : ℕ → ℕ → Float
  rate_of successes failures =
      if ltb 0 (successes + failures) then rate successes (successes + failures) else zero

  -- `COALESCE(AVG(…), 0)`.
  unfoldable pub average_of : Executions → Float
  unfolding durations
  average_of es = elim (durations es) [ [] ↦ zero | d ∷ ds ↦ average (d ∷ ds) ]

  -- `ReportSummary`, where both queries run. (One that fails leaves its part of the answer at 0.)
  unfoldable pub report_summary : Text → Jobs → Executions → Answer Summary
  unfolding is_owned is_with own rate_of average_of
  report_summary uid jobs executions =
      let mine = filter (is_owned uid) jobs in
      let rows = own uid jobs executions in
      let successes = count_where (has_status (lit "success")) rows in
      let failures = count_where (has_status (lit "failure")) rows in
      ok 200 (record {
        total_jobs = length mine;
        active_jobs = count_where (is_with (lit "active")) mine;
        paused_jobs = count_where (is_with (lit "paused")) mine;
        total_executions = length rows;
        success_count = successes;
        failure_count = failures;
        running_count = count_where (has_status (lit "running")) rows;
        success_rate = rate_of successes failures;
        avg_duration_ms = average_of rows;
      })

  pub record JobReport : Type 0 where
    pub job_id : Text
    pub job_name : Text
    pub status : Text
    pub cron_expression : Text
    pub total_executions : ℕ
    pub success_count : ℕ
    pub failure_count : ℕ
    pub success_rate : Float
    pub avg_duration_ms : Float
    pub last_run_at : Option ℕ

  unfoldable pub job_report : Executions → JobRow → JobReport
  unfolding runs_of rate_of average_of
  job_report executions job =
      let rows = runs_of job executions in
      let successes = count_where (has_status (lit "success")) rows in
      let failures = count_where (has_status (lit "failure")) rows in
      record {
        job_id = job.id;
        job_name = job.name;
        status = job.status;
        cron_expression = job.cron_expression;
        total_executions = length rows;
        success_count = successes;
        failure_count = failures;
        success_rate = rate_of successes failures;
        avg_duration_ms = average_of rows;
        last_run_at = job.last_run_at;
      }

  -- `ReportJobs`.
  unfoldable pub report_jobs : Text → Reading → Jobs → Executions → Answer (List JobReport)
  unfolding is_owned job_report respond order_by
  report_jobs uid reading jobs executions = respond reading (
      map (job_report executions)
        (order_by (λ x y. leb y.created_at x.created_at) (filter (is_owned uid) jobs)))
