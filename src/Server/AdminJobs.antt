-- ===== src/Server/AdminJobs.antt =====
-- The handlers for jobs of apps/cronpilot-api/handler/admin.go: those of jobs.go without the test on
-- the owner. Neither INSERT nor UPDATE names the column concurrency_policy.
pub mod Tables
pub mod Policy
use irwandhi_gitops_lab.Base.{ℕ, ◌&&◌, Option, none, some, ◌∷◌, is_empty, if◌then◌else◌}
use irwandhi_gitops_lab.Text.{Text, lit, eq_text}
use irwandhi_gitops_lab.Server.Store.{Uuid, JobRow, find, update_where}
use irwandhi_gitops_lab.Server.Answer.{Answer, ok, error}
use irwandhi_gitops_lab.Server.Jobs.{
  JobInput, Jobs, apply_defaults, inserted, set_fields, set_status, has_id, update_row, delete_row,
}

-- The body's `user_id` is empty where the body has none, and is the UUID that it is read as if not.
unfoldable pub admin_create_job :
    Uuid → ℕ → Option (JobInput × Text) → Option Text → Jobs → Jobs × Answer JobRow
unfolding apply_defaults inserted
admin_create_job id now none fault jobs = (jobs, error 400 (lit "user_id required"))
admin_create_job id now (some (b, user_id)) fault jobs =
    if is_empty user_id then (jobs, error 400 (lit "user_id required")) else elim fault [
      | some message ↦ (jobs, error 500 message)
      | none ↦
          let row = record (inserted user_id id now (apply_defaults b)) {
            concurrency_policy = lit "Allow";
          } in
          (row ∷ jobs, ok 201 row)
    ]

unfoldable pub admin_update_job :
    Uuid → ℕ → Option JobInput → Option Text → Jobs → Jobs × Answer JobRow
unfolding apply_defaults set_fields has_id update_row
admin_update_job id now none fault jobs = (jobs, error 400 (lit "Invalid request body"))
admin_update_job id now (some b) fault jobs =
    update_row (has_id id) (set_fields now (apply_defaults b)) (lit "Job not found") fault jobs

unfoldable pub admin_delete_job : Uuid → Option Text → Jobs → Jobs × Answer (Unit {0})
unfolding has_id delete_row
admin_delete_job id fault jobs = delete_row (has_id id) fault jobs

unfoldable pub admin_set_job_status :
    Text → Text → Uuid → ℕ → Option Text → Jobs → Jobs × Answer JobRow
unfolding has_id set_status update_row
admin_set_job_status new required id now fault jobs =
    update_row (λ row. has_id id row && eq_text row.status required) (set_status new now)
      (lit "Job not found or wrong status") fault jobs

unfoldable pub admin_pause_job : Uuid → ℕ → Option Text → Jobs → Jobs × Answer JobRow
unfolding admin_set_job_status
admin_pause_job = admin_set_job_status (lit "paused") (lit "active")

unfoldable pub admin_resume_job : Uuid → ℕ → Option Text → Jobs → Jobs × Answer JobRow
unfolding admin_set_job_status
admin_resume_job = admin_set_job_status (lit "active") (lit "paused")
