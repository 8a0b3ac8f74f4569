-- ===== src/Server/Reports/Csv.antt =====
-- `ReportCSV` of apps/cronpilot-api/handler/report.go: the text that it writes.
use irwandhi_gitops_lab.Base.{
  ℕ, zero, suc, Bool, false, ◌&&◌, ◌||◌, Option, none, some, List, [], ◌∷◌, ◌++◌, if◌then◌else◌,
  ◌==◌, take,
}
use irwandhi_gitops_lab.Text.{Text, lit, decimal}
use irwandhi_gitops_lab.Server.Store.{order_by}
use irwandhi_gitops_lab.Server.Answer.{Answer, ok, error}
use irwandhi_gitops_lab.Server.Jobs.{Jobs}
use irwandhi_gitops_lab.Server.Executor.{Executions}
use irwandhi_gitops_lab.Server.Executions.{Execution, select, of_job, newest_first, Reading}
use irwandhi_gitops_lab.Server.Query.{ℤ, atoi}
use irwandhi_gitops_lab.Server.Reports.Timeline.{in_window}

-- How Go writes a time by `time.RFC3339`, and the database by `::text`.
pub record Times : Type 0 where
  pub rfc3339 : ℕ → Text
  pub timestamp_text : ℕ → Text

unfoldable pub is_special : ℕ → Bool
is_special c = c == b',' || c == b'"' || c == b'\n' || c == b'\r'

unfoldable pub has_special : Text → Bool
unfolding is_special
has_special [] = false
has_special (c ∷ s) = is_special c || has_special s

unfoldable pub csv_esc : Text → Text
unfolding has_special
csv_esc [] = []
csv_esc (c ∷ s) = if has_special (c ∷ s) then b'"' ∷ (c ∷ s ++ b'"' ∷ []) else c ∷ s

-- `COALESCE(…, '')`.
abbrev pub text_of {ℓ} : {A : Type ℓ} → (A → Text) → Option A → Text
text_of print none = []
text_of print (some a) = print a

-- `if days <= 0 { days = 30 }`.
unfoldable pub positive_days : ℤ → ℕ
positive_days (ℤ.pos zero) = 30
positive_days (ℤ.pos (suc n)) = suc n
positive_days (ℤ.negsuc n) = 30

-- A line of `%s` between commas.
unfoldable pub line : List Text → Text
line [] = b'\n' ∷ []
line (s ∷ []) = s ++ b'\n' ∷ []
line (s ∷ t ∷ r) = s ++ b',' ∷ line (t ∷ r)

abbrev pub csv_columns : List Text
csv_columns =
    lit "execution_id"
    ∷ lit "job_name"
    ∷ lit "status"
    ∷ lit "triggered_by"
    ∷ lit "started_at"
    ∷ lit "completed_at"
    ∷ lit "duration_ms"
    ∷ lit "response_status"
    ∷ lit "error_message"
    ∷ []

module _ (times : Times) where
  open times use {rfc3339, timestamp_text}

  unfoldable pub csv_line : Execution → Text
  unfolding csv_esc line
  csv_line x = line (
      csv_esc x.id
      ∷ csv_esc x.job_name
      ∷ x.status
      ∷ x.triggered_by
      ∷ rfc3339 x.started_at
      ∷ csv_esc (text_of timestamp_text x.completed_at)
      ∷ csv_esc (text_of decimal x.duration_ms)
      ∷ csv_esc (text_of decimal x.response_status)
      ∷ csv_esc (text_of (λ s. s) x.error_message)
      ∷ [])

  unfoldable pub csv_lines : List Execution → Text
  unfolding csv_line
  csv_lines [] = []
  csv_lines (x ∷ xs) = csv_line x ++ csv_lines xs

  -- The rows of the query.
  unfoldable pub csv_rows : Text → Text → Text → ℕ → Jobs → Executions → List Execution
  unfolding select of_job in_window newest_first positive_days atoi order_by
  csv_rows uid days job_id now jobs executions =
      let n = positive_days (atoi days) in
      order_by newest_first (select uid (λ e. in_window now n e && of_job job_id e) jobs executions)

  -- `ReportCSV`; `days` and `job_id` are the query of the request, the latter read as a UUID by the
  -- database where it is not empty.
  unfoldable pub report_csv : Text → Text → Text → ℕ → Reading → Jobs → Executions → Answer Text
  unfolding csv_rows csv_lines
  report_csv uid days job_id now (Reading.refused message) jobs executions = error 500 message
  report_csv uid days job_id now Reading.whole jobs executions =
      ok 200 (line csv_columns ++ csv_lines (csv_rows uid days job_id now jobs executions))
  report_csv uid days job_id now (Reading.broken rows) jobs executions =
      ok 200
        (line csv_columns ++ csv_lines (take rows (csv_rows uid days job_id now jobs executions)))
