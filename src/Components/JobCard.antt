-- ===== src/Components/JobCard.antt =====
-- apps/cronpilot-frontend/src/components/JobCard.jsx: one job of the list, with its buttons.
pub mod Buttons
use irwandhi_gitops_lab.Base.{
  Bool, true, false, Option, none, some, List, [], ◌∷◌, ◌++◌, if◌then◌else◌,
}
use irwandhi_gitops_lab.Text.{Text, lit, eq_text}
use irwandhi_gitops_lab.Json.{Json}
use irwandhi_gitops_lab.Api.Jobs.{pause_job, resume_job, delete_job, trigger_job}
use irwandhi_gitops_lab.Records.{Job, is_set, text_or}
use irwandhi_gitops_lab.Effects.{Key, Effect, Mutation}
use irwandhi_gitops_lab.Dom.{Tag, Attr, Node, el, when}
use irwandhi_gitops_lab.Components.StatusBadge.{status_badge}

pub data Click : Type 0 where
  run pause resume remove : Click

abbrev pub jobs_key : Key
jobs_key = Json.str (lit "jobs") ∷ []

abbrev pub invalidate : List Effect
invalidate = Effect.invalidate jobs_key ∷ []

-- The handlers; `confirmed` is the user's answer to the question that `remove` asks first.
unfoldable pub on_click : Job → Bool → Click → Option Mutation
on_click job confirmed Click.run =
    some (record { request = trigger_job job.id; on_success = invalidate })
on_click job confirmed Click.pause =
    some (record { request = pause_job job.id; on_success = invalidate })
on_click job confirmed Click.resume =
    some (record { request = resume_job job.id; on_success = invalidate })
on_click job confirmed Click.remove =
    if confirmed
    then some (record { request = delete_job job.id; on_success = invalidate })
    else none

abbrev button : Click → Text → Node Click
button c caption = el Tag.button (Attr.on_click c ∷ []) (Node.text caption ∷ [])

heading : Job → Node Click
unfolding status_badge
heading job = el Tag.div [] (
    el Tag.div [] (
      el Tag.link (Attr.href (lit "/jobs/" ++ job.id) ∷ []) (Node.text job.name ∷ [])
      ∷ when (is_set job.description) (el Tag.p [] (Node.text (text_or job.description []) ∷ []))
      ∷ [])
    ∷ status_badge job.status
    ∷ [])

buttons : Job → Node Click
buttons job = el Tag.div [] (
    button Click.run (lit "Run")
    ∷ when (eq_text job.status (lit "active")) (button Click.pause (lit "Pause"))
    ∷ when (eq_text job.status (lit "paused")) (button Click.resume (lit "Resume"))
    ∷ el Tag.link (Attr.href (lit "/jobs/" ++ (job.id ++ lit "/edit")) ∷ [])
        (Node.text (lit "Edit") ∷ [])
    ∷ button Click.remove []
    ∷ [])

unfoldable pub job_card : Job → Node Click
unfolding heading buttons
job_card job = el Tag.div [] (
    heading job
    ∷ el Tag.div [] (el Tag.code [] (Node.text job.cron_expression ∷ []) ∷ [])
    ∷ el Tag.anchor (Attr.href job.url ∷ []) (el Tag.span [] (Node.text job.url ∷ []) ∷ [])
    ∷ buttons job
    ∷ [])
