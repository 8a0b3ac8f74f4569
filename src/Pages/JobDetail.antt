-- ===== src/Pages/JobDetail.antt =====
-- apps/cronpilot-frontend/src/pages/JobDetail.jsx: one job, its executions, and its buttons.
use irwandhi_gitops_lab.Base.{
  Bool, true, false, Option, none, some, List, [], ◌∷◌, ◌++◌, if◌then◌else◌,
}
use irwandhi_gitops_lab.Text.{Text, lit, eq_text, truthy, decimal}
use irwandhi_gitops_lab.Json.{Json}
use irwandhi_gitops_lab.Api.{Request}
use irwandhi_gitops_lab.Api.Jobs.{get_job, pause_job, resume_job, delete_job, trigger_job}
use irwandhi_gitops_lab.Api.Executions.{get_executions}
use irwandhi_gitops_lab.Records.{Job, Execution, Dates, is_set, text_or}
use irwandhi_gitops_lab.Effects.{Key, Effect, Mutation}
use irwandhi_gitops_lab.Dom.{Tag, Attr, Node, el, when}
use irwandhi_gitops_lab.Components.StatusBadge.{status_badge}
use irwandhi_gitops_lab.Components.ExecutionTable.{execution_table}

pub data Click : Type 0 where
  run pause resume remove : Click

abbrev pub job_key : Text → Key
job_key id = Json.str (lit "jobs") ∷ Json.str id ∷ []

abbrev pub executions_key : Text → Key
executions_key id = Json.str (lit "executions") ∷ Json.str id ∷ []

-- The two `useQuery` of the page; the second is made only with an id.
unfoldable pub job_query : Text → Key × Request
job_query id = (job_key id, get_job id)

unfoldable pub executions_query : Text → Key × Request × Bool
executions_query id = (executions_key id, get_executions (some id) none, truthy id)

abbrev pub invalidate : Text → List Effect
invalidate id =
    Effect.invalidate (Json.str (lit "jobs") ∷ []) ∷ Effect.invalidate (executions_key id) ∷ []

-- The handlers; `confirmed` is the user's answer to the question that `remove` asks first.
abbrev pub remove_effects : List Effect
remove_effects = Effect.navigate (lit "/jobs") ∷ []

unfoldable pub on_click : Text → Bool → Click → Option Mutation
on_click id confirmed Click.run =
    some (record { request = trigger_job id; on_success = invalidate id })
on_click id confirmed Click.pause =
    some (record { request = pause_job id; on_success = invalidate id })
on_click id confirmed Click.resume =
    some (record { request = resume_job id; on_success = invalidate id })
on_click id confirmed Click.remove =
    if confirmed
    then some (record { request = delete_job id; on_success = remove_effects })
    else none

abbrev button : Click → Text → Node Click
button c caption = el Tag.button (Attr.on_click c ∷ []) (Node.text caption ∷ [])

-- A caption over a value.
abbrev fact : Text → Node Click → Node Click
fact caption n = el Tag.div [] (el Tag.p [] (Node.text caption ∷ []) ∷ n ∷ [])

abbrev policy_tone : Option Text → Text
policy_tone none = lit "bg-green-100 text-green-700"
policy_tone (some policy) =
    if eq_text policy (lit "Forbid")
    then lit "bg-red-100 text-red-700"
    else if eq_text policy (lit "Replace")
    then lit "bg-amber-100 text-amber-700"
    else lit "bg-green-100 text-green-700"

heading : Text → Job → Node Click
unfolding status_badge
heading id job = el Tag.div [] (
    el Tag.link (Attr.href (lit "/jobs") ∷ []) []
    ∷ el Tag.div [] (
        el Tag.div [] (el Tag.h1 [] (Node.text job.name ∷ []) ∷ status_badge job.status ∷ [])
        ∷ when (is_set job.description) (el Tag.p [] (Node.text (text_or job.description []) ∷ []))
        ∷ [])
    ∷ el Tag.div [] (
        button Click.run (lit "Run Now")
        ∷ when (eq_text job.status (lit "active")) (button Click.pause (lit "Pause"))
        ∷ when (eq_text job.status (lit "paused")) (button Click.resume (lit "Resume"))
        ∷ el Tag.link (Attr.href (lit "/jobs/" ++ (id ++ lit "/edit")) ∷ [])
            (Node.text (lit "Edit") ∷ [])
        ∷ button Click.remove []
        ∷ [])
    ∷ [])

module _ (dates : Dates) where
  schedule_card : Job → Node Click
  schedule_card job = el Tag.div [] (
      el Tag.h3 [] (Node.text (lit "Schedule") ∷ [])
      ∷ fact (lit "Expression") (el Tag.code [] (Node.text job.cron_expression ∷ []))
      ∷ fact (lit "Timezone") (el Tag.p [] (Node.text job.timezone ∷ []))
      ∷ when (is_set job.last_run_at) (
          fact (lit "Last Run")
            (el Tag.p [] (Node.text (dates.format_long (text_or job.last_run_at [])) ∷ [])))
      ∷ fact (lit "Concurrency") (
          el Tag.span (Attr.tone (policy_tone job.concurrency_policy) ∷ [])
            (Node.text (text_or job.concurrency_policy (lit "Allow")) ∷ []))
      ∷ [])

  request_card : Job → Node Click
  request_card job = el Tag.div [] (
      el Tag.h3 [] (Node.text (lit "Request") ∷ [])
      ∷ fact (lit "Endpoint") (
          el Tag.div [] (
            el Tag.span [] (Node.text job.method ∷ [])
            ∷ el Tag.anchor (Attr.href job.url ∷ []) (Node.text job.url ∷ [])
            ∷ []))
      ∷ fact (lit "Timeout") (el Tag.p [] (Node.text (decimal job.timeout_seconds ++ lit "s") ∷ []))
      ∷ when (is_set job.body)
          (fact (lit "Body") (el Tag.pre [] (Node.text (text_or job.body []) ∷ [])))
      ∷ [])

  -- `isLoading` and the two `data` are the query library's; the executions default to none.
  unfoldable pub job_detail : Text → Bool → Option Job → List Execution → Node Click
  unfolding heading schedule_card request_card
  job_detail id true job executions = el Tag.div [] []
  job_detail id false none executions = el Tag.p [] (Node.text (lit "Job not found.") ∷ [])
  job_detail id false (some job) executions = el Tag.div [] (
      heading id job
      ∷ el Tag.div [] (schedule_card job ∷ request_card job ∷ [])
      ∷ el Tag.div [] (
          el Tag.h3 [] (Node.text (lit "Execution History") ∷ [])
          ∷ execution_table dates executions
          ∷ [])
      ∷ [])
