-- ===== src/Server/Jobs/Calls/Isolation.antt =====
-- An owner's calls and the jobs of others.
use irwandhi_gitops_lab.Base.{
  ℕ, ◌≡◌, refl, Bool, true, false, not, Option, none, some, arith, filter, Option-cases, inl, inr,
}
use irwandhi_gitops_lab.Text.{Text, eq_text_refl}
use irwandhi_gitops_lab.Server.Store.{JobRow, find}
use irwandhi_gitops_lab.Server.Store.Laws.{filter-update_where, filter-filter}
use irwandhi_gitops_lab.Server.Jobs.{
  Jobs, is_owned, is_job_of, update_row, delete_row, set_fields, set_status, inserted, create_job,
  update_job, delete_job, set_job_status, pause_job, resume_job,
}
use irwandhi_gitops_lab.Server.Jobs.Calls.{Call, run}

unfoldable pub others : Text → Jobs → Jobs
unfolding is_owned
others uid jobs = filter (λ row. not (is_owned uid row)) jobs

module _ (uid : Text) where
  own : (id : Text) (row : JobRow) → is_job_of uid id row ≡ true → not (is_owned uid row) ≡ false
  unfolding is_job_of
  own id row h = ground arith

  others-update_row :
      (test : JobRow → Bool) (set : JobRow → JobRow) (missing : Text) (fault : Option Text)
      (jobs : Jobs)
      → ((row : JobRow) → test row ≡ true → not (is_owned uid row) ≡ false)
      → ((row : JobRow) → not (is_owned uid (set row)) ≡ not (is_owned uid row))
      → others uid (update_row test set missing fault jobs).0 ≡ others uid jobs
  unfolding others update_row
  others-update_row test set missing (some fault) jobs within keeps = refl
  others-update_row test set missing none jobs within keeps = elim (Option-cases (find test jobs)) [
    | inl e ↦ rw (e, update_row) refl
    | inr (row, e) ↦
        rw (e, update_row)
          (filter-update_where (λ row. not (is_owned uid row)) test set jobs within keeps)
  ]

  others-delete_row :
      (test : JobRow → Bool) (fault : Option Text) (jobs : Jobs)
      → ((row : JobRow) → test row ≡ true → not (is_owned uid row) ≡ false)
      → others uid (delete_row test fault jobs).0 ≡ others uid jobs
  unfolding others delete_row
  others-delete_row test (some fault) jobs within = refl
  others-delete_row test none jobs within = elim (Option-cases (find test jobs)) [
    | inl e ↦ rw (e, delete_row) refl
    | inr (row, e) ↦
        rw (e, delete_row) (filter-filter (λ row. not (is_owned uid row)) test jobs within)
  ]

  others-set_job_status :
      (new required id : Text) (now : ℕ) (fault : Option Text) (jobs : Jobs)
      → others uid (set_job_status new required uid id now fault jobs).0 ≡ others uid jobs
  unfolding set_job_status set_status is_owned
  others-set_job_status new required id now fault jobs =
      others-update_row _ _ _ fault jobs (λ row h. own id row (ground arith)) (λ row. refl)

  -- Whatever an owner calls, and however the call ends, the jobs of the others are as before.
  pub others-run :
      (now : ℕ) (call : Call) (jobs : Jobs) → others uid (run uid now call jobs).0 ≡ others uid jobs
  unfolding run others filter inserted create_job update_job delete_job pause_job resume_job
      set_fields is_owned
  others-run now (Call.create id none fault) jobs = refl
  others-run now (Call.create id (some b) (some fault)) jobs = refl
  others-run now (Call.create id (some b) none) jobs = rw (eq_text_refl uid) refl
  others-run now (Call.update id none fault) jobs = refl
  others-run now (Call.update id (some b) fault) jobs =
      others-update_row _ _ _ fault jobs (own id) (λ row. refl)
  others-run now (Call.remove id fault) jobs = others-delete_row _ fault jobs (own id)
  others-run now (Call.pause id fault) jobs = others-set_job_status _ _ id now fault jobs
  others-run now (Call.resume id fault) jobs = others-set_job_status _ _ id now fault jobs
