-- ===== src/Pages/EditJob.antt =====
-- apps/cronpilot-frontend/src/pages/EditJob.jsx. The form opens on the whole object that the server
-- sent.
use irwandhi_gitops_lab.Base.{Bool, true, false, Option, none, some, List, [], ◌∷◌, ◌++◌}
use irwandhi_gitops_lab.Text.{Text, lit}
use irwandhi_gitops_lab.Json.{Json, Object}
use irwandhi_gitops_lab.Api.{Request}
use irwandhi_gitops_lab.Api.Jobs.{get_job, update_job}
use irwandhi_gitops_lab.Records.{Job}
use irwandhi_gitops_lab.Effects.{Key, Effect, Failure, error_nullish}
use irwandhi_gitops_lab.Dom.{Tag, Node, el}
use irwandhi_gitops_lab.Components.JobCard.{jobs_key}
use irwandhi_gitops_lab.Components.JobForm.{Msg, initial_form, job_form}
use irwandhi_gitops_lab.Pages.JobDetail.{job_key}

unfoldable pub edit_query : Text → Key × Request
edit_query id = (job_key id, get_job id)

-- `initial={job}`.
unfoldable pub opened : Job → Object
opened job = initial_form job.object

unfoldable pub submit : Text → Object → Request
submit id form = update_job id (Json.obj form)

unfoldable pub updated : Text → List Effect
updated id = Effect.invalidate jobs_key ∷ Effect.navigate (lit "/jobs/" ++ id) ∷ []

abbrev error_line : Option Failure → Node Msg
error_line none = Node.nothing
error_line (some err) =
    el Tag.p [] (Node.text (error_nullish err (lit "Failed to update job")) ∷ [])

-- `form` is the state of the form, which is there once the job is.
unfoldable pub edit_job_page : Bool → Option Job → Object → Bool → Option Failure → Node Msg
edit_job_page true job form pending error = el Tag.div [] []
edit_job_page false none form pending error = el Tag.p [] (Node.text (lit "Job not found.") ∷ [])
edit_job_page false (some job) form pending error = el Tag.div [] (
    el Tag.h1 [] (Node.text (lit "Edit Job") ∷ [])
    ∷ el Tag.div [] (job_form form pending ∷ error_line error ∷ [])
    ∷ [])
