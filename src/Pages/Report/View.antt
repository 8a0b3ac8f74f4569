-- ===== src/Pages/Report/View.antt =====
-- The page of apps/cronpilot-frontend/src/pages/Report.jsx.
pub mod Download
use irwandhi_gitops_lab.Base.{ℕ, Bool, Option, none, some, List, [], ◌∷◌, ◌++◌, if◌then◌else◌}
use irwandhi_gitops_lab.Text.{Text, lit, decimal, read_decimal}
use irwandhi_gitops_lab.Doubles.{Doubles}
use irwandhi_gitops_lab.Records.{Dates}
use irwandhi_gitops_lab.Dom.{Tag, Attr, Node, Nodes, el, elem, each}
use irwandhi_gitops_lab.Pages.Report.{State, Msg}
use irwandhi_gitops_lab.Pages.Report.BarChart.{Day, Mark, bar_chart}
use irwandhi_gitops_lab.Pages.Report.Figures.{duration_text, donut_chart}
use irwandhi_gitops_lab.Pages.Report.Table.{JobStats, stats_table}

-- The answer to `GET /report/summary`.
pub record Summary (d : Doubles) : Type 0 where
  pub total_executions : ℕ
  pub success_count : ℕ
  pub failure_count : ℕ
  pub running_count : ℕ
  pub active_jobs : ℕ
  pub success_rate : d.Double
  pub avg_duration_ms : d.Double

-- `summary?.count ?? '—'` and `summary?.count ?? 0`.
unfoldable pub count_or : {A : Type 0} → (A → ℕ) → Text → Option A → Text
count_or count missing none = missing
count_or count missing (some s) = decimal (count s)

-- `colors[color]`, for the colours that the page passes.
abbrev sky : Text
sky = lit "bg-sky-50 text-sky-600"

abbrev green : Text
green = lit "bg-green-50 text-green-600"

abbrev red : Text
red = lit "bg-red-50 text-red-600"

abbrev amber : Text
amber = lit "bg-amber-50 text-amber-600"

module _ {M : Type 0} where
  stat_card : Text → Text → Text → List Text → Node M
  stat_card label value color sub = el Tag.div [] (
      el Tag.div (Attr.tone color ∷ []) []
      ∷ el Tag.div [] (
          el Tag.p [] (Node.text value ∷ [])
          ∷ el Tag.p [] (Node.text label ∷ [])
          ∷ Node.fragment (each (λ s. el Tag.p [] (Node.text s ∷ [])) sub)
          ∷ [])
      ∷ [])

  count_line : Text → Text → Node M
  count_line caption count =
      el Tag.div []
        (el Tag.span [] (Node.text caption ∷ []) ∷ el Tag.span [] (Node.text count ∷ []) ∷ [])

  -- The marks of the chart without their places, which are in the chart's own module.
  mark : {d : Doubles} → Mark d → Node M
  mark (Mark.rect x y w h fill) = el Tag.rect (Attr.tone fill ∷ []) []
  mark (Mark.label x y s) = Node.text s

  timeline_chart : {d : Doubles} → Option (List (Mark d)) → Node M
  timeline_chart none = el Tag.div [] (Node.text (lit "No data yet") ∷ [])
  timeline_chart (some ms) = elem Tag.svg [] (each mark ms)

module _ (d : Doubles) (dates : Dates) where
  -- `summary?.success_rate ?? 0`, and so for the average.
  rate_of : Option (Summary d) → d.Double
  rate_of none = d.of_ℕ 0
  rate_of (some s) = s.success_rate

  average_text : Option (Summary d) → Text
  average_text none = lit "—"
  average_text (some s) = duration_text d s.avg_duration_ms

  -- The values of the options are numbers, which `Number(e.target.value)` reads back.
  day_option : ℕ → Node Msg
  day_option n =
      el Tag.option (Attr.value (decimal n) ∷ [])
        (Node.text (lit "Last " ++ (decimal n ++ lit " days")) ∷ [])

  job_option : JobStats d → Node Msg
  job_option j = el Tag.option (Attr.value j.job_id ∷ []) (Node.text j.job_name ∷ [])

  controls : State → List (JobStats d) → Node Msg
  controls s stats = el Tag.div [] (
      el Tag.select
        (Attr.value (decimal s.days) ∷ Attr.on_change (λ v. Msg.days_chosen (read_decimal v)) ∷ [])
        (day_option 7 ∷ day_option 14 ∷ day_option 30 ∷ day_option 90 ∷ [])
      ∷ elem Tag.select (Attr.value s.filter_job ∷ Attr.on_change Msg.job_chosen ∷ []) (
          Nodes.cons (el Tag.option (Attr.value [] ∷ []) (Node.text (lit "All jobs") ∷ []))
            (each job_option stats))
      ∷ el Tag.button (Attr.on_click Msg.export ∷ Attr.disabled s.downloading ∷ [])
          (Node.text (if s.downloading then lit "Exporting…" else lit "Export CSV") ∷ [])
      ∷ [])

  cards : Option (Summary d) → Node Msg
  cards summary = el Tag.div [] (
      stat_card (lit "Total Executions") (count_or (λ s. s.total_executions) (lit "—") summary) sky
        []
      ∷ stat_card (lit "Successful") (count_or (λ s. s.success_count) (lit "—") summary) green
          ((d.to_fixed 1 (rate_of summary) ++ lit "% success rate") ∷ [])
      ∷ stat_card (lit "Failed") (count_or (λ s. s.failure_count) (lit "—") summary) red []
      ∷ stat_card (lit "Avg Duration") (average_text summary) amber
          ((count_or (λ s. s.active_jobs) (lit "0") summary ++ lit " active jobs") ∷ [])
      ∷ [])

  overall : Option (Summary d) → Node Msg
  overall summary = el Tag.div [] (
      el Tag.h2 [] (Node.text (lit "Overall Success Rate") ∷ [])
      ∷ donut_chart d (rate_of summary)
      ∷ el Tag.div [] (
          count_line (lit "Success") (count_or (λ s. s.success_count) (lit "0") summary)
          ∷ count_line (lit "Failure") (count_or (λ s. s.failure_count) (lit "0") summary)
          ∷ count_line (lit "Running") (count_or (λ s. s.running_count) (lit "0") summary)
          ∷ [])
      ∷ [])

  timeline_box : List Day → Node Msg
  timeline_box timeline = el Tag.div [] (
      el Tag.div [] (
        el Tag.h2 [] (Node.text (lit "Execution Timeline") ∷ [])
        ∷ el Tag.div [] (
            el Tag.span [] (Node.text (lit "Success") ∷ [])
            ∷ el Tag.span [] (Node.text (lit "Failure") ∷ [])
            ∷ [])
        ∷ [])
      ∷ timeline_chart (bar_chart d timeline)
      ∷ [])

  -- The answers are `none` and empty until they come.
  unfoldable pub report_page : State → Option (Summary d) → List Day → List (JobStats d) → Node Msg
  unfolding controls cards overall timeline_box rate_of average_text day_option job_option stat_card
      count_line mark timeline_chart
  report_page s summary timeline stats = el Tag.div [] (
      el Tag.div [] (
        el Tag.div [] (
          el Tag.h1 [] (Node.text (lit "Reports") ∷ [])
          ∷ el Tag.p [] (Node.text (lit "Execution history and job performance") ∷ [])
          ∷ [])
        ∷ controls s stats
        ∷ [])
      ∷ cards summary
      ∷ el Tag.div [] (timeline_box timeline ∷ overall summary ∷ [])
      ∷ el Tag.div [] (
          el Tag.div [] (el Tag.h2 [] (Node.text (lit "Per-Job Performance") ∷ []) ∷ [])
          ∷ stats_table d dates stats
          ∷ [])
      ∷ [])
