-- ===== src/Pages/Dashboard.antt =====
-- apps/cronpilot-frontend/src/pages/Dashboard.jsx.
pub mod Timer
use irwandhi_gitops_lab.Base.{
  ℕ, ◌+◌, ◌-◌, ◌/◌, ◌%◌, Bool, true, false, not, Option, none, some, List, [], ◌∷◌, ◌++◌, filter,
  length, take, if◌then◌else◌, ltb, leb, ◌==◌, is_empty,
}
use irwandhi_gitops_lab.Text.{Text, lit, eq_text, decimal}
use irwandhi_gitops_lab.Json.{Json}
use irwandhi_gitops_lab.Api.{Request}
use irwandhi_gitops_lab.Api.Jobs.{get_jobs}
use irwandhi_gitops_lab.Api.Executions.{get_executions, get_running_executions}
use irwandhi_gitops_lab.Records.{Job, Execution, Dates}
use irwandhi_gitops_lab.Effects.{Key}
use irwandhi_gitops_lab.Dom.{Tag, Attr, Node, el, elem, each, when}
use irwandhi_gitops_lab.Components.JobCard.{jobs_key}
use irwandhi_gitops_lab.Components.StatusBadge.{status_badge}

unfoldable pub jobs_query : Key × Request
jobs_query = (jobs_key, get_jobs)

unfoldable pub executions_query : Key × Request
executions_query = (Json.str (lit "executions") ∷ [], get_executions none (some 10))

unfoldable pub running_query : Key × Request
running_query =
    (Json.str (lit "executions") ∷ Json.str (lit "running") ∷ [], get_running_executions)

unfoldable pub count_jobs : Text → List Job → ℕ
count_jobs status jobs = length (filter (λ j. eq_text j.status status) jobs)

unfoldable pub count_failed : List Execution → ℕ
count_failed executions = length (filter (λ e. eq_text e.status (lit "failure")) executions)

-- Whole numbers of seconds: `pos n` is n, and `negsuc n` is -(n + 1).
pub data Seconds : Type 0 where
  pos negsuc : ℕ → Seconds

-- The state of `ElapsedTimer` at a tick: `Math.floor` of the thousandths between two times in
-- milliseconds; the browser's clock may be behind that of the start.
unfoldable pub elapsed : ℕ → ℕ → Seconds
elapsed start now =
    if leb start now
    then Seconds.pos ((now - start) / 1000)
    else Seconds.negsuc ((start - now - 1) / 1000)

-- What the timer shows of it. The remainder of a negative number is negative or zero.
unfoldable pub elapsed_text : Seconds → Text
elapsed_text (Seconds.pos seconds) =
    let m = seconds / 60 in
    let s = seconds % 60 in
    (if ltb 0 m then decimal m ++ lit "m " else []) ++ (decimal s ++ lit "s")
elapsed_text (Seconds.negsuc n) =
    let s = (n + 1) % 60 in (if s == 0 then decimal 0 else lit "-" ++ decimal s) ++ lit "s"

module _ {M : Type 0} where
  stat_card : Text → ℕ → Node M
  stat_card label value =
      el Tag.div []
        (el Tag.p [] (Node.text (decimal value) ∷ []) ∷ el Tag.p [] (Node.text label ∷ []) ∷ [])

  recent_job : Job → Node M
  unfolding status_badge
  recent_job job =
      el Tag.link (Attr.href (lit "/jobs/" ++ job.id) ∷ [])
        (el Tag.span [] (Node.text job.name ∷ []) ∷ status_badge job.status ∷ [])

  -- `timer` is the text of the row's timer.
  module _ (dates : Dates) (timer : Execution → Text) where
    running_row : Execution → Node M
    running_row exec = el Tag.link (Attr.href (lit "/jobs/" ++ exec.job_id) ∷ []) (
        el Tag.div [] (
          el Tag.span [] (Node.text exec.job_name ∷ [])
          ∷ el Tag.span [] (Node.text (lit "via " ++ exec.triggered_by) ∷ [])
          ∷ [])
        ∷ el Tag.div [] (
            el Tag.span [] (el Tag.span [] (Node.text (timer exec) ∷ []) ∷ [])
            ∷ el Tag.span [] (Node.text (dates.distance_to_now exec.started_at) ∷ [])
            ∷ [])
        ∷ [])

    banner : List Execution → Node M
    banner running = when (ltb 0 (length running)) (
        el Tag.div [] (
          el Tag.h2 [] (
            Node.text (
              lit "Running Now — "
              ++ (decimal (length running)
                  ++ (lit " job"
                      ++ ((if ltb 1 (length running) then lit "s" else []) ++ lit " in progress"))))
            ∷ [])
          ∷ elem Tag.div [] (each running_row running)
          ∷ []))

    recent_execution : Execution → Node M
    recent_execution exec = el Tag.div [] (
        el Tag.span [] (Node.text exec.job_name ∷ [])
        ∷ el Tag.div [] (
            status_badge exec.status
            ∷ el Tag.span [] (Node.text (dates.distance_to_now exec.started_at) ∷ [])
            ∷ [])
        ∷ [])

    no_jobs : Node M
    no_jobs = el Tag.div [] (
        el Tag.p [] (Node.text (lit "No jobs yet.") ∷ [])
        ∷ el Tag.link (Attr.href (lit "/jobs/new") ∷ []) (Node.text (lit "Create first job") ∷ [])
        ∷ [])

    unfoldable pub dashboard : List Job → List Execution → List Execution → Node M
    unfolding stat_card recent_job running_row banner recent_execution no_jobs count_jobs
        count_failed
    dashboard jobs executions running = el Tag.div [] (
        el Tag.h1 [] (Node.text (lit "Dashboard") ∷ [])
        ∷ banner running
        ∷ el Tag.div [] (
            stat_card (lit "Total Jobs") (length jobs)
            ∷ stat_card (lit "Active") (count_jobs (lit "active") jobs)
            ∷ stat_card (lit "Paused") (count_jobs (lit "paused") jobs)
            ∷ stat_card (lit "Recent Failures") (count_failed executions)
            ∷ [])
        ∷ el Tag.div [] (
            el Tag.div [] (
              el Tag.div [] (
                el Tag.h2 [] (Node.text (lit "Recent Jobs") ∷ [])
                ∷ el Tag.link (Attr.href (lit "/jobs") ∷ []) (Node.text (lit "View all") ∷ [])
                ∷ [])
              ∷ el Tag.div [] (
                  Node.fragment (each recent_job (take 6 jobs)) ∷ when (is_empty jobs) no_jobs ∷ [])
              ∷ [])
            ∷ el Tag.div [] (
                el Tag.h2 [] (Node.text (lit "Recent Executions") ∷ [])
                ∷ el Tag.div [] (
                    Node.fragment (each recent_execution (take 8 executions))
                    ∷ when (is_empty executions)
                        (el Tag.p [] (Node.text (lit "No executions yet.") ∷ []))
                    ∷ [])
                ∷ [])
            ∷ [])
        ∷ [])
