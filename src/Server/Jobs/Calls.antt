-- ===== src/Server/Jobs/Calls.antt =====
-- The calls of an owner on the table of jobs, as one type, and what they promise: a map from ids to
-- the owner's jobs, on which each call is a few equations.
pub mod Refinement
pub mod Isolation
use irwandhi_gitops_lab.Base.{
  ℕ, Bool, true, false, ◌&&◌, Option, none, some, List, [], ◌∷◌, if◌then◌else◌,
}
use irwandhi_gitops_lab.Text.{Text, lit, eq_text}
use irwandhi_gitops_lab.Server.Store.{JobRow, find}
use irwandhi_gitops_lab.Server.Answer.{Answer, ok, error}
use irwandhi_gitops_lab.Server.Jobs.{
  JobInput, Jobs, apply_defaults, inserted, set_fields, set_status, is_job_of, create_job,
  update_job, delete_job, pause_job, resume_job,
}

pub data Call : Type 0 where
  create update : Text → Option JobInput → Option Text → Call
  remove pause resume : Text → Option Text → Call

unfoldable pub status_code {ℓ} : {A : Type ℓ} → Answer A → ℕ
status_code (ok status value) = status
status_code (error status message) = status

-- The table after a call, and the status of its answer.
unfoldable pub run : Text → ℕ → Call → Jobs → Jobs × ℕ
unfolding create_job update_job delete_job pause_job resume_job status_code
run uid now (Call.create id b fault) jobs =
    let (jobs', answer) = create_job uid id now b fault jobs in (jobs', status_code answer)
run uid now (Call.update id b fault) jobs =
    let (jobs', answer) = update_job uid id now b fault jobs in (jobs', status_code answer)
run uid now (Call.remove id fault) jobs =
    let (jobs', answer) = delete_job uid id fault jobs in (jobs', status_code answer)
run uid now (Call.pause id fault) jobs =
    let (jobs', answer) = pause_job uid id now fault jobs in (jobs', status_code answer)
run uid now (Call.resume id fault) jobs =
    let (jobs', answer) = resume_job uid id now fault jobs in (jobs', status_code answer)

-- The owner's job of an id.
abbrev pub View : Type 0
View = Text → Option JobRow

unfoldable pub view : Text → Jobs → View
view uid jobs id = find (is_job_of uid id) jobs

abbrev put : Text → Option JobRow → View → View
put id row v id' = if eq_text id' id then row else v id'

-- Change the job of an id, if there is one and a test holds of it.
unfoldable pub amend :
    Text → (JobRow → Bool) → (JobRow → Option JobRow) → ℕ → Option Text → View → View × ℕ
amend id allowed change success (some fault) v = (v, 404)
amend id allowed change success none v = elim (v id) [
  | none ↦ (v, 404)
  | some row ↦ if allowed row then (put id (change row) v, success) else (v, 404)
]

unfoldable pub promise : Text → ℕ → Call → View → View × ℕ
unfolding apply_defaults inserted set_fields set_status amend
promise uid now (Call.create id none fault) v = (v, 400)
promise uid now (Call.create id (some b) (some fault)) v = (v, 500)
promise uid now (Call.create id (some b) none) v =
    (put id (some (inserted uid id now (apply_defaults b))) v, 201)
promise uid now (Call.update id none fault) v = (v, 400)
promise uid now (Call.update id (some b) fault) v =
    let b' = apply_defaults b in
    amend id (λ row. true)
      (λ row. some (record (set_fields now b' row) { concurrency_policy = b'.concurrency_policy }))
      200 fault v
promise uid now (Call.remove id fault) v = amend id (λ row. true) (λ row. none) 204 fault v
promise uid now (Call.pause id fault) v =
    amend id (λ row. eq_text row.status (lit "active"))
      (λ row. some (set_status (lit "paused") now row)) 200 fault v
promise uid now (Call.resume id fault) v =
    amend id (λ row. eq_text row.status (lit "paused"))
      (λ row. some (set_status (lit "active") now row)) 200 fault v
