-- ===== src/Pages/AdminJobs/Drawer.antt =====
-- The edit drawer of apps/cronpilot-frontend/src/pages/admin/AdminJobs.jsx.
use irwandhi_gitops_lab.Base.{Bool, Option, none, some, [], ◌∷◌}
use irwandhi_gitops_lab.Text.{lit}
use irwandhi_gitops_lab.Json.{Object}
use irwandhi_gitops_lab.Records.{Job, text_or}
use irwandhi_gitops_lab.Effects.{Failure, error_or}
use irwandhi_gitops_lab.Dom.{Tag, Attr, Node, el}
use irwandhi_gitops_lab.Dom.Relabel.{relabel}
use irwandhi_gitops_lab.Components.JobForm as JobForm
use irwandhi_gitops_lab.Pages.AdminJobs.{to_form_initial}

pub data Msg : Type 0 where
  close : Msg
  form : JobForm.Msg → Msg

-- `initial={toFormInitial(editJob)}`: the state with which the form starts, anew for each job.
unfoldable pub opened : Job → Object
opened job = JobForm.initial_form (to_form_initial job.object)

abbrev error_box : Option Failure → Node Msg
error_box none = Node.nothing
error_box (some err) = el Tag.div [] (Node.text (error_or err (lit "Failed to update job")) ∷ [])

unfoldable pub drawer : Option Job → Object → Bool → Option Failure → Node Msg
drawer none state pending error = Node.nothing
drawer (some job) state pending error = el Tag.div [] (
    el Tag.div (Attr.on_click Msg.close ∷ []) []
    ∷ el Tag.div [] (
        el Tag.div [] (
          el Tag.div [] (
            el Tag.h2 [] (Node.text (lit "Edit Job") ∷ [])
            ∷ el Tag.p [] (
                Node.text (lit "Owner: ")
                ∷ el Tag.span [] (Node.text (text_or job.owner_email (lit "no owner")) ∷ [])
                ∷ [])
            ∷ [])
          ∷ el Tag.button (Attr.on_click Msg.close ∷ []) []
          ∷ [])
        ∷ el Tag.div [] (error_box error ∷ relabel Msg.form (JobForm.job_form state pending) ∷ [])
        ∷ [])
    ∷ [])
