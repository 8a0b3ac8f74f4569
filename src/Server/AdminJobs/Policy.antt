-- ===== src/Server/AdminJobs/Policy.antt =====
-- Administrators and the concurrency policy of a job.
use irwandhi_gitops_lab.Base.{
  ℕ, ◌≡◌, refl, Bool, Option, none, some, List, [], ◌∷◌, arith, map, Option-cases, inl, inr,
}
use irwandhi_gitops_lab.Text.{Text}
use irwandhi_gitops_lab.Server.Store.{JobRow, find, update_where}
use irwandhi_gitops_lab.Server.Jobs.{JobInput, Jobs, update_row, set_fields, set_status}
use irwandhi_gitops_lab.Server.AdminJobs.{
  admin_update_job, admin_set_job_status, admin_pause_job, admin_resume_job,
}

abbrev pub policies : Jobs → List Text
policies jobs = map (λ row. row.concurrency_policy) jobs

module _ (test : JobRow → Bool) (set : JobRow → JobRow)
    (keeps : (row : JobRow) → (set row).concurrency_policy ≡ row.concurrency_policy) where
  policies-update_where : (jobs : Jobs) → policies (update_where test set jobs) ≡ policies jobs
  unfolding update_where
  policies-update_where [] = refl
  policies-update_where (row ∷ rows) = ground (arith, policies-update_where rows, keeps row)

  policies-update_row :
      (missing : Text) (fault : Option Text) (jobs : Jobs)
      → policies (update_row test set missing fault jobs).0 ≡ policies jobs
  unfolding update_row
  policies-update_row missing (some fault) jobs = refl
  policies-update_row missing none jobs = elim (Option-cases (find test jobs)) [
    | inl e ↦ rw (e, update_row) refl
    | inr (row, e) ↦ rw (e, update_row) (policies-update_where jobs)
  ]

-- Whatever policy an administrator's update of a job names, and however it ends, every job keeps
-- the policy that it had; so it does when an administrator pauses or resumes a job.
pub policies-admin :
    (id : Text) (now : ℕ) (b : Option JobInput) (fault : Option Text) (jobs : Jobs)
    → (policies (admin_update_job id now b fault jobs).0 ≡ policies jobs)
      × (policies (admin_pause_job id now fault jobs).0 ≡ policies jobs)
      × (policies (admin_resume_job id now fault jobs).0 ≡ policies jobs)
unfolding admin_update_job admin_set_job_status admin_pause_job admin_resume_job set_fields
    set_status
policies-admin id now none fault jobs = (
  refl,
  policies-update_row _ _ (λ row. refl) _ fault jobs,
  policies-update_row _ _ (λ row. refl) _ fault jobs,
)
policies-admin id now (some b) fault jobs = (
  policies-update_row _ _ (λ row. refl) _ fault jobs,
  policies-update_row _ _ (λ row. refl) _ fault jobs,
  policies-update_row _ _ (λ row. refl) _ fault jobs,
)
