-- ===== src/Pages/NewJob.antt =====
-- apps/cronpilot-frontend/src/pages/NewJob.jsx.
use irwandhi_gitops_lab.Base.{Bool, Option, none, some, List, [], ◌∷◌, ◌++◌}
use irwandhi_gitops_lab.Text.{Text, lit}
use irwandhi_gitops_lab.Json.{Json, Object}
use irwandhi_gitops_lab.Api.{Request}
use irwandhi_gitops_lab.Api.Jobs.{create_job}
use irwandhi_gitops_lab.Effects.{Effect, Failure, error_nullish}
use irwandhi_gitops_lab.Dom.{Tag, Node, el}
use irwandhi_gitops_lab.Components.JobCard.{jobs_key}
use irwandhi_gitops_lab.Components.JobForm.{Msg, job_form}

-- `mutation.mutate(data)`, and what follows its success; `id` is that of the job made.
unfoldable pub submit : Object → Request
submit form = create_job (Json.obj form)

unfoldable pub created : Text → List Effect
created id = Effect.invalidate jobs_key ∷ Effect.navigate (lit "/jobs/" ++ id) ∷ []

abbrev error_line : Option Failure → Node Msg
error_line none = Node.nothing
error_line (some err) =
    el Tag.p [] (Node.text (error_nullish err (lit "Failed to create job")) ∷ [])

-- `isPending` and `error` are the query library's.
unfoldable pub new_job_page : Object → Bool → Option Failure → Node Msg
new_job_page form pending error = el Tag.div [] (
    el Tag.h1 [] (Node.text (lit "New Job") ∷ [])
    ∷ el Tag.div [] (job_form form pending ∷ error_line error ∷ [])
    ∷ [])
