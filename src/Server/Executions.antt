-- ===== src/Server/Executions.antt =====
-- apps/cronpilot-api/handler/executions.go, on the tables of jobs and executions.
pub mod Visibility
pub mod Listing
use irwandhi_gitops_lab.Base.{
  ℕ, zero, suc, Bool, true, false, ◌&&◌, Option, none, some, List, [], ◌∷◌, if◌then◌else◌, ltb, leb,
  ◌==◌, is_empty, take, drop, filter,
}
use irwandhi_gitops_lab.Text.{Text, lit, eq_text}
use irwandhi_gitops_lab.Server.Store.{Uuid, JobRow, ExecutionRow, find, order_by}
use irwandhi_gitops_lab.Server.Answer.{Answer, ok, error}
use irwandhi_gitops_lab.Server.Jobs.{Jobs, has_id, is_owned}
use irwandhi_gitops_lab.Server.Executor.{Executions}
use irwandhi_gitops_lab.Server.Query.{ℤ, atoi}

pub record Execution : Type 0 where
  pub id : Text
  pub job_id : Text
  pub job_name : Text
  pub status : Text
  pub triggered_by : Text
  pub started_at : ℕ
  pub completed_at : Option ℕ
  pub duration_ms : Option ℕ
  pub response_status : Option ℕ
  pub response_body : Option Text
  pub error_message : Option Text

unfoldable pub shown : Text → ExecutionRow → Execution
shown job_name e = record {
  id = e.id;
  job_id = e.job_id;
  job_name = job_name;
  status = e.status;
  triggered_by = e.triggered_by;
  started_at = e.started_at;
  completed_at = e.completed_at;
  duration_ms = e.duration_ms;
  response_status = e.response_status;
  response_body = e.response_body;
  error_message = e.error_message;
}

-- `JOIN jobs j ON e.job_id = j.id WHERE j.user_id = …`: the name of the execution's job, if it is one
-- of the user's.
unfoldable pub joined : Uuid → Jobs → ExecutionRow → Option Text
unfolding has_id is_owned
joined uid jobs e = elim (find (has_id e.job_id) jobs) [
  | none ↦ none
  | some job ↦ if is_owned uid job then some job.name else none
]

-- The executions that the JOIN and its condition keep.
unfoldable pub is_own : Uuid → Jobs → ExecutionRow → Bool
unfolding joined
is_own uid jobs e = elim (joined uid jobs e) [ none ↦ false | some name ↦ true ]

unfoldable pub own : Uuid → Jobs → Executions → Executions
unfolding is_own
own uid jobs executions = filter (is_own uid jobs) executions

-- The query's rows, where `test` is its further condition.
unfoldable pub select : Uuid → (ExecutionRow → Bool) → Jobs → Executions → List Execution
unfolding joined shown
select uid test jobs [] = []
select uid test jobs (e ∷ es) =
    let rest = select uid test jobs es in
    elim (joined uid jobs e) [
      | none ↦ rest
      | some name ↦ if test e then shown name e ∷ rest else rest
    ]

-- `ORDER BY e.started_at DESC`, and `ASC`.
unfoldable pub newest_first : Execution → Execution → Bool
newest_first x y = leb y.started_at x.started_at

unfoldable pub oldest_first : Execution → Execution → Bool
oldest_first x y = leb x.started_at y.started_at

-- `LIMIT … OFFSET …`. A negative number is an error when the query runs, which yields no row.
unfoldable pub page : ℤ → ℤ → List Execution → List Execution
page (ℤ.pos limit) (ℤ.pos offset) xs = take limit (drop offset xs)
page _ _ xs = []

-- How a query goes: its call is refused; or it yields its rows, all of them or those before an error.
-- The handlers do not ask for that error (`rows.Err`).
pub data Reading : Type 0 where
  refused : (message : Text) → Reading
  whole : Reading
  broken : (rows : ℕ) → Reading

unfoldable pub respond {ℓ} : {A : Type ℓ} → Reading → List A → Answer (List A)
respond (Reading.refused message) xs = error 500 message
respond Reading.whole xs = ok 200 xs
respond (Reading.broken rows) xs = ok 200 (take rows xs)

unfoldable pub limit_of : ℤ → ℤ
limit_of (ℤ.pos zero) = ℤ.pos 50
limit_of limit = limit

-- `AND e.job_id = $2::uuid`, where the query of the request has a job.
unfoldable pub of_job : Text → ExecutionRow → Bool
of_job [] e = true
of_job (c ∷ job_id) e = eq_text e.job_id (c ∷ job_id)

-- `ListExecutions`; the three texts are the query of the request, that of the job, where it is not
-- empty, as the UUID that the database reads it as.
unfoldable pub list_executions :
    Uuid → Text → Text → Text → Reading → Jobs → Executions → Answer (List Execution)
unfolding select of_job newest_first page respond limit_of atoi order_by
list_executions uid job_id limit offset reading jobs executions = respond reading (
    page (limit_of (atoi limit)) (atoi offset)
      (order_by newest_first (select uid (of_job job_id) jobs executions)))

unfoldable pub list_running_executions :
    Uuid → Reading → Jobs → Executions → Answer (List Execution)
unfolding select oldest_first respond order_by
list_running_executions uid reading jobs executions =
    respond reading
      (order_by oldest_first (select uid (λ e. eq_text e.status (lit "running")) jobs executions))

-- `QueryRow` and `Scan`: the first row.
unfoldable pub first_row : List Execution → Answer Execution
first_row [] = error 404 (lit "Execution not found")
first_row (e ∷ es) = ok 200 e

unfoldable pub get_execution : Uuid → Uuid → Jobs → Executions → Answer Execution
unfolding select first_row
get_execution uid id jobs executions = first_row (select uid (λ e. eq_text e.id id) jobs executions)
