-- ===== src/Api/Report.antt =====
-- apps/cronpilot-frontend/src/api/report.js.
use irwandhi_gitops_lab.Base.{ℕ, Option, none, some, [], ◌++◌, if◌then◌else◌, take}
use irwandhi_gitops_lab.Text.{Text, lit, decimal, truthy}
use irwandhi_gitops_lab.Json.{Json, Object}
use irwandhi_gitops_lab.Api.{Method, Request, request}

unfoldable pub get_report_summary : Request
get_report_summary = request Method.get (lit "/report/summary")

-- `days = 30`, where the argument is left out.
abbrev default_days : Option ℕ → ℕ
default_days none = 30
default_days (some days) = days

unfoldable pub get_report_timeline : Option ℕ → Request
get_report_timeline days = record (request Method.get (lit "/report/timeline")) {
  params = Object.entry (lit "days") (Json.num (default_days days)) Object.empty;
}

unfoldable pub get_report_jobs : Request
get_report_jobs = request Method.get (lit "/report/jobs")

-- The request of `downloadCsv`; `encode` is what URLSearchParams makes of a value. (Digits it
-- leaves as they are.)
unfoldable pub csv_request : (Text → Text) → Text → Option ℕ → Request
csv_request encode job_id days = request Method.get (
    lit "/report/executions.csv?days="
    ++ (decimal (default_days days)
        ++ (if truthy job_id then lit "&job_id=" ++ encode job_id else [])))

-- The name of the file that `downloadCsv` saves, at the time that `new Date().toISOString()`
-- writes.
unfoldable pub csv_name : Text → Text
csv_name iso = lit "executions-" ++ (take 10 iso ++ lit ".csv")
