-- ===== src/Pages/Report.antt =====
-- apps/cronpilot-frontend/src/pages/Report.jsx: its queries, its state and the download. The bar
-- chart is in a module of its own.
pub mod BarChart
pub mod Figures
pub mod Table
pub mod View
pub mod Bars
pub mod Labels
use irwandhi_gitops_lab.Base.{ℕ, Bool, true, false, some, List, [], ◌∷◌}
use irwandhi_gitops_lab.Text.{Text, lit}
use irwandhi_gitops_lab.Json.{Json}
use irwandhi_gitops_lab.Api.{Request}
use irwandhi_gitops_lab.Api.Report.{
  get_report_summary, get_report_timeline, get_report_jobs, csv_request,
}
use irwandhi_gitops_lab.Effects.{Key, Effect}

pub record State : Type 0 where
  pub days : ℕ
  pub filter_job : Text
  pub downloading : Bool

unfoldable pub initial : State
initial = record { days = 30; filter_job = []; downloading = false }

unfoldable pub summary_query : Key × Request
summary_query = (Json.str (lit "report-summary") ∷ [], get_report_summary)

unfoldable pub timeline_query : State → Key × Request
timeline_query s =
    (Json.str (lit "report-timeline") ∷ Json.num s.days ∷ [], get_report_timeline (some s.days))

unfoldable pub jobs_query : Key × Request
jobs_query = (Json.str (lit "report-jobs") ∷ [], get_report_jobs)

-- `finished` is the `finally` of `handleDownload`, after the file was saved or an error.
pub data Msg : Type 0 where
  days_chosen : ℕ → Msg
  job_chosen : Text → Msg
  export finished : Msg

unfoldable pub update : (Text → Text) → State → Msg → State × List Effect
update encode s (Msg.days_chosen days) = (record s { days = days }, [])
update encode s (Msg.job_chosen job_id) = (record s { filter_job = job_id }, [])
update encode s Msg.export = (
  record s { downloading = true },
  Effect.call (csv_request encode s.filter_job (some s.days)) ∷ [],
)
update encode s Msg.finished = (record s { downloading = false }, [])
