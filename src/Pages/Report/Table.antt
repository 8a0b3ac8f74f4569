-- ===== src/Pages/Report/Table.antt =====
-- The table of apps/cronpilot-frontend/src/pages/Report.jsx: how each job has done.
use irwandhi_gitops_lab.Base.{ℕ, List, [], ◌∷◌, ◌++◌, Option, if◌then◌else◌, ltb}
use irwandhi_gitops_lab.Text.{Text, lit, decimal, eq_text}
use irwandhi_gitops_lab.Doubles.{Doubles}
use irwandhi_gitops_lab.Records.{Dates, is_set, text_or}
use irwandhi_gitops_lab.Dom.{Tag, Attr, Node, el, elem, each}
use irwandhi_gitops_lab.Pages.Report.Figures.{duration_text, bar_tone, rate_tone}

-- An entry of `GET /report/jobs`.
pub record JobStats (d : Doubles) : Type 0 where
  pub job_id : Text
  pub job_name : Text
  pub status : Text
  pub cron_expression : Text
  pub total_executions : ℕ
  pub success_count : ℕ
  pub failure_count : ℕ
  pub success_rate : d.Double
  pub avg_duration_ms : d.Double
  pub last_run_at : Option Text

status_tone : Text → Text
status_tone status =
    if eq_text status (lit "active") then lit "text-green-600" else lit "text-gray-400"

module _ {M : Type 0} (d : Doubles) where
  rate_cell : JobStats d → Node M
  rate_cell j =
      if ltb 0 j.total_executions
      then el Tag.div [] (
          el Tag.div [] (
            el Tag.div
              (Attr.tone (bar_tone d j.success_rate)
                ∷ Attr.style (d.print j.success_rate ++ lit "%")
                ∷ [])
              []
            ∷ [])
          ∷ el Tag.span (Attr.tone (rate_tone d j.success_rate) ∷ [])
              (Node.text (d.to_fixed 1 j.success_rate ++ lit "%") ∷ [])
          ∷ [])
      else el Tag.span [] (Node.text (lit "no runs") ∷ [])

  duration_cell : JobStats d → Node M
  duration_cell j =
      if ltb 0 j.total_executions
      then Node.text (duration_text d j.avg_duration_ms)
      else el Tag.span [] (Node.text (lit "—") ∷ [])

  last_run_cell : Dates → JobStats d → Node M
  last_run_cell dates j =
      if is_set j.last_run_at
      then Node.text (dates.distance_to_now (text_or j.last_run_at []))
      else el Tag.span [] (Node.text (lit "never") ∷ [])

  unfoldable pub stats_row : Dates → JobStats d → Node M
  unfolding rate_cell duration_cell last_run_cell status_tone duration_text bar_tone rate_tone
  stats_row dates j = el Tag.tr [] (
      el Tag.td [] (
        el Tag.p [] (Node.text j.job_name ∷ [])
        ∷ el Tag.p (Attr.tone (status_tone j.status) ∷ []) (Node.text j.status ∷ [])
        ∷ [])
      ∷ el Tag.td [] (Node.text j.cron_expression ∷ [])
      ∷ el Tag.td [] (
          el Tag.span [] (Node.text (decimal j.total_executions) ∷ [])
          ∷ el Tag.span [] (
              Node.text (
                lit "("
                ++ (decimal j.success_count ++ (lit "✓ " ++ (decimal j.failure_count ++ lit "✗)"))))
              ∷ [])
          ∷ [])
      ∷ el Tag.td [] (rate_cell j ∷ [])
      ∷ el Tag.td [] (duration_cell j ∷ [])
      ∷ el Tag.td [] (last_run_cell dates j ∷ [])
      ∷ [])

  column : Text → Node M
  column caption = el Tag.th [] (Node.text caption ∷ [])

  unfoldable pub stats_table : Dates → List (JobStats d) → Node M
  unfolding stats_row column
  stats_table dates [] = el Tag.div [] (Node.text (lit "No jobs yet") ∷ [])
  stats_table dates (j ∷ stats) = el Tag.table [] (
      el Tag.thead [] (
        el Tag.tr [] (
          column (lit "Job")
          ∷ column (lit "Schedule")
          ∷ column (lit "Executions")
          ∷ column (lit "Success Rate")
          ∷ column (lit "Avg Duration")
          ∷ column (lit "Last Run")
          ∷ [])
        ∷ [])
      ∷ elem Tag.tbody [] (each (stats_row dates) (j ∷ stats))
      ∷ [])
