-- ===== src/Components/ExecutionTable.antt =====
-- apps/cronpilot-frontend/src/components/ExecutionTable.jsx.
use irwandhi_gitops_lab.Base.{
  ℕ, not, Option, none, some, List, [], ◌∷◌, ◌++◌, if◌then◌else◌, ltb, ◌==◌, take,
}
use irwandhi_gitops_lab.Text.{Text, lit, decimal, truthy}
use irwandhi_gitops_lab.Records.{Execution, Dates}
use irwandhi_gitops_lab.Dom.{Tag, Attr, Node, el, elem, each}
use irwandhi_gitops_lab.Components.StatusBadge.{status_badge}

status_tone : ℕ → Text
status_tone status =
    if ltb status 400 then lit "text-green-600 font-mono" else lit "text-red-600 font-mono"

module _ {M : Type 0} where
  dash : Node M
  dash = Node.text (lit "—")

  duration_cell : Option ℕ → Node M
  duration_cell none = dash
  duration_cell (some ms) = Node.text (decimal ms ++ lit "ms")

  -- `exec.error_message ? … : '—'`.
  error_cell : Option Text → Node M
  error_cell none = dash
  error_cell (some message) =
      if truthy message
      then el Tag.span (Attr.title message ∷ []) (Node.text (take 60 message) ∷ [])
      else dash

  -- `exec.response_status ? … : …`; 0 counts as no status.
  http_cell : Option ℕ → Option Text → Node M
  http_cell none message = error_cell message
  http_cell (some status) message =
      if not (status == 0)
      then el Tag.span (Attr.tone (status_tone status) ∷ []) (Node.text (decimal status) ∷ [])
      else error_cell message

  module _ (dates : Dates) where
    row : Execution → Node M
    row exec = el Tag.tr [] (
        el Tag.td [] (status_badge exec.status ∷ [])
        ∷ el Tag.td (Attr.title (dates.format_long exec.started_at) ∷ [])
            (Node.text (dates.distance_to_now exec.started_at) ∷ [])
        ∷ el Tag.td [] (duration_cell exec.duration_ms ∷ [])
        ∷ el Tag.td [] (http_cell exec.response_status exec.error_message ∷ [])
        ∷ el Tag.td [] (Node.text exec.triggered_by ∷ [])
        ∷ [])

    column : Text → Node M
    column caption = el Tag.th [] (Node.text caption ∷ [])

    unfoldable pub execution_table : List Execution → Node M
    unfolding row column duration_cell http_cell error_cell status_tone dash
    execution_table [] = el Tag.p [] (Node.text (lit "No executions yet.") ∷ [])
    execution_table (exec ∷ executions) = el Tag.div [] (
        el Tag.table [] (
          el Tag.thead [] (
            el Tag.tr [] (
              column (lit "Status")
              ∷ column (lit "Started")
              ∷ column (lit "Duration")
              ∷ column (lit "HTTP")
              ∷ column (lit "Triggered By")
              ∷ [])
            ∷ [])
          ∷ elem Tag.tbody [] (each row (exec ∷ executions))
          ∷ [])
        ∷ [])
