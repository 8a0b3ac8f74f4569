-- ===== src/Api/Executions.antt =====
-- apps/cronpilot-frontend/src/api/executions.js.
use irwandhi_gitops_lab.Base.{ℕ, Option, none, some, ◌++◌, if◌then◌else◌}
use irwandhi_gitops_lab.Text.{Text, lit, truthy}
use irwandhi_gitops_lab.Json.{Json, Object, put}
use irwandhi_gitops_lab.Api.{Method, Request, request}

-- `limit = 50`, where the argument is left out.
abbrev default_limit : Option ℕ → ℕ
default_limit none = 50
default_limit (some limit) = limit

-- `if (jobId) params.job_id = jobId`.
with_job : Option Text → Object → Object
unfolding put
with_job none params = params
with_job (some job_id) params =
    if truthy job_id then put (lit "job_id") (Json.str job_id) params else params

unfoldable pub get_executions : Option Text → Option ℕ → Request
unfolding with_job
get_executions job_id limit = record (request Method.get (lit "/executions")) {
  params =
      with_job job_id (Object.entry (lit "limit") (Json.num (default_limit limit)) Object.empty);
}

unfoldable pub get_running_executions : Request
get_running_executions = request Method.get (lit "/executions/running")

unfoldable pub get_execution : Text → Request
get_execution id = request Method.get (lit "/executions/" ++ id)
