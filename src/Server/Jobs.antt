-- ===== src/Server/Jobs.antt =====
-- apps/cronpilot-api/handler/jobs.go, and the handlers for jobs of handler/admin.go, on the table of
-- jobs. Where a handler runs a statement that may be refused (a text that is too long, a lost
-- connection, an id that is no UUID), `fault` is the error of that statement, or `none` if it runs; the
-- ids are the values that the database reads from the texts of the token and of the path.
pub mod Calls
pub mod Decoding
pub mod Offers
use irwandhi_gitops_lab.Base.{
  ℕ, Bool, true, false, not, ◌&&◌, Option, none, some, List, [], ◌∷◌, if◌then◌else◌, ◌==◌, is_empty,
  filter,
}
use irwandhi_gitops_lab.Text.{Text, lit, eq_text}
use irwandhi_gitops_lab.Server.Store.{Uuid, JobRow, find, update_where}
use irwandhi_gitops_lab.Server.Answer.{Answer, ok, error}

-- `jobInput`; `headers` is the raw JSON, empty where the body has none. (An int that is negative is
-- left out.)
pub record JobInput : Type 0 where
  pub name : Text
  pub description : Text
  pub cron_expression : Text
  pub url : Text
  pub method : Text
  pub headers : Text
  pub body : Option Text
  pub timezone : Text
  pub timeout_seconds : ℕ
  pub concurrency_policy : Text

abbrev default_to : Text → Text → Text
default_to fallback s = if is_empty s then fallback else s

unfoldable pub apply_defaults : JobInput → JobInput
apply_defaults b = record b {
  method = default_to (lit "GET") b.method;
  timezone = default_to (lit "UTC") b.timezone;
  timeout_seconds = if b.timeout_seconds == 0 then 30 else b.timeout_seconds;
  concurrency_policy = default_to (lit "Allow") b.concurrency_policy;
}

unfoldable pub headers_json : JobInput → Text
headers_json b = if is_empty b.headers then lit "{}" else b.headers

unfoldable pub is_owned : Uuid → JobRow → Bool
is_owned uid row = elim row.user_id [ none ↦ false | some owner ↦ eq_text owner uid ]

unfoldable pub has_id : Uuid → JobRow → Bool
has_id id row = eq_text row.id id

-- `WHERE id=$1::uuid AND user_id=$2::uuid`.
unfoldable pub is_job_of : Uuid → Uuid → JobRow → Bool
unfolding is_owned has_id
is_job_of uid id row = has_id id row && is_owned uid row

-- The row of an INSERT; the columns that it does not name have the defaults of the schema.
unfoldable pub inserted : Uuid → Uuid → ℕ → JobInput → JobRow
unfolding headers_json
inserted uid id now b = record {
  id = id;
  user_id = some uid;
  name = b.name;
  description = b.description;
  cron_expression = b.cron_expression;
  url = b.url;
  method = b.method;
  headers = headers_json b;
  body = b.body;
  status = lit "active";
  timezone = b.timezone;
  timeout_seconds = b.timeout_seconds;
  concurrency_policy = b.concurrency_policy;
  last_run_at = none;
  created_at = now;
  updated_at = now;
}

-- What both UPDATEs of a job's fields set.
unfoldable pub set_fields : ℕ → JobInput → JobRow → JobRow
unfolding headers_json
set_fields now b row = record row {
  name = b.name;
  description = b.description;
  cron_expression = b.cron_expression;
  url = b.url;
  method = b.method;
  headers = headers_json b;
  body = b.body;
  timezone = b.timezone;
  timeout_seconds = b.timeout_seconds;
  updated_at = now;
}

unfoldable pub set_status : Text → ℕ → JobRow → JobRow
set_status status now row = record row { status = status; updated_at = now }

abbrev pub Jobs : Type 0
Jobs = List JobRow

-- `UPDATE … WHERE … RETURNING id`, then the row of that id; ids are keys, so it is the row written.
unfoldable pub update_row :
    (JobRow → Bool) → (JobRow → JobRow) → Text → Option Text → Jobs → Jobs × Answer JobRow
update_row test set missing (some fault) jobs = (jobs, error 404 missing)
update_row test set missing none jobs = elim (find test jobs) [
  | none ↦ (jobs, error 404 missing)
  | some row ↦ (update_where test set jobs, ok 200 (set row))
]

-- `DELETE … WHERE`, and the count of its rows.
unfoldable pub delete_row : (JobRow → Bool) → Option Text → Jobs → Jobs × Answer (Unit {0})
delete_row test (some fault) jobs = (jobs, error 404 (lit "Job not found"))
delete_row test none jobs = elim (find test jobs) [
  | none ↦ (jobs, error 404 (lit "Job not found"))
  | some row ↦ (filter (λ r. not (test r)) jobs, ok 204 tt)
]

-- The body is `none` where it cannot be decoded. `id` is the key that the table makes.
unfoldable pub create_job :
    Uuid → Uuid → ℕ → Option JobInput → Option Text → Jobs → Jobs × Answer JobRow
unfolding apply_defaults inserted
create_job uid id now none fault jobs = (jobs, error 400 (lit "Invalid request body"))
create_job uid id now (some b) (some fault) jobs = (jobs, error 500 fault)
create_job uid id now (some b) none jobs =
    let row = inserted uid id now (apply_defaults b) in (row ∷ jobs, ok 201 row)

unfoldable pub update_job :
    Uuid → Uuid → ℕ → Option JobInput → Option Text → Jobs → Jobs × Answer JobRow
unfolding apply_defaults set_fields is_job_of update_row
update_job uid id now none fault jobs = (jobs, error 400 (lit "Invalid request body"))
update_job uid id now (some b) fault jobs =
    let b' = apply_defaults b in
    update_row (is_job_of uid id)
      (λ row. record (set_fields now b' row) { concurrency_policy = b'.concurrency_policy })
      (lit "Job not found") fault jobs

unfoldable pub delete_job : Uuid → Uuid → Option Text → Jobs → Jobs × Answer (Unit {0})
unfolding is_job_of delete_row
delete_job uid id fault jobs = delete_row (is_job_of uid id) fault jobs

-- `setJobStatus`: the new status, and the one that the job must have.
unfoldable pub set_job_status :
    Text → Text → Uuid → Uuid → ℕ → Option Text → Jobs → Jobs × Answer JobRow
unfolding is_job_of set_status update_row
set_job_status new required uid id now fault jobs =
    update_row (λ row. is_job_of uid id row && eq_text row.status required) (set_status new now)
      (lit "Job not found or wrong status") fault jobs

unfoldable pub pause_job : Uuid → Uuid → ℕ → Option Text → Jobs → Jobs × Answer JobRow
unfolding set_job_status
pause_job = set_job_status (lit "paused") (lit "active")

unfoldable pub resume_job : Uuid → Uuid → ℕ → Option Text → Jobs → Jobs × Answer JobRow
unfolding set_job_status
resume_job = set_job_status (lit "active") (lit "paused")
