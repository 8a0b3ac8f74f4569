-- ===== src/Pages/AdminJobs.antt =====
-- apps/cronpilot-frontend/src/pages/admin/AdminJobs.jsx: the jobs of all users, and the drawer that
-- edits one.
pub mod View
pub mod Drawer
pub mod Laws
use irwandhi_gitops_lab.Base.{
  Bool, true, false, Option, none, some, List, [], ◌∷◌, ◌++◌, filter, if◌then◌else◌,
}
use irwandhi_gitops_lab.Text.{Text, lit, eq_text, truthy}
use irwandhi_gitops_lab.Json.{Json, Object, get, or_else}
use irwandhi_gitops_lab.Api.{Request}
use irwandhi_gitops_lab.Api.Admin.{
  get_all_jobs, get_users, pause_job, resume_job, delete_job, trigger_job, update_job,
}
use irwandhi_gitops_lab.Records.{Job}
use irwandhi_gitops_lab.Effects.{Key, Effect}

unfoldable pub jobs_query : Key × Request
jobs_query = (Json.str (lit "admin-jobs") ∷ [], get_all_jobs)

unfoldable pub users_query : Key × Request
users_query = (Json.str (lit "admin-users") ∷ [], get_users)

abbrev pub invalidate : Effect
invalidate = Effect.invalidate (Json.str (lit "admin-jobs") ∷ [])

pub record State : Type 0 where
  pub filter_user : Text
  pub edit_job : Option Job

unfoldable pub initial : State
initial = record { filter_user = []; edit_job = none }

-- The clicks, the form's `onSubmit` and `onCancel` (which is `close`), and the outcomes of the
-- mutations; a failed update changes only what the query library keeps. `remove` has the user's
-- answer to the question that it asks.
pub data Msg : Type 0 where
  user_chosen : Text → Msg
  trigger edit pause resume : Job → Msg
  remove : Job → Bool → Msg
  close : Msg
  submit : Object → Msg
  done updated : Msg

abbrev update_of : Option Job → Object → List Effect
update_of none form = []
update_of (some job) form = Effect.call (update_job job.id (Json.obj form)) ∷ []

unfoldable pub update : State → Msg → State × List Effect
update s (Msg.user_chosen v) = (record s { filter_user = v }, [])
update s (Msg.trigger job) = (s, Effect.call (trigger_job job.id) ∷ [])
update s (Msg.edit job) = (record s { edit_job = some job }, [])
update s (Msg.pause job) = (s, Effect.call (pause_job job.id) ∷ [])
update s (Msg.resume job) = (s, Effect.call (resume_job job.id) ∷ [])
update s (Msg.remove job confirmed) =
    (s, if confirmed then Effect.call (delete_job job.id) ∷ [] else [])
update s Msg.close = (record s { edit_job = none }, [])
update s (Msg.submit form) = (s, update_of s.edit_job form)
update s Msg.done = (s, invalidate ∷ [])
update s Msg.updated = (record s { edit_job = none }, invalidate ∷ [])

abbrev is_owner : Text → Job → Bool
is_owner user job = elim job.user_id [ none ↦ false | some id ↦ eq_text id user ]

unfoldable pub displayed : Text → List Job → List Job
displayed filter_user jobs = if truthy filter_user then filter (is_owner filter_user) jobs else jobs

-- `toFormInitial`: eight keys, each with its default.
unfoldable pub to_form_initial : Object → Object
to_form_initial job =
    let read = λ (key : Text) (d : Json). or_else (get key job) d in
    Object.entry (lit "name") (read (lit "name") (Json.str [])) (
      Object.entry (lit "description") (read (lit "description") (Json.str [])) (
        Object.entry (lit "cron_expression")
          (read (lit "cron_expression") (Json.str (lit "0 * * * *")))
          (Object.entry (lit "url") (read (lit "url") (Json.str [])) (
            Object.entry (lit "method") (read (lit "method") (Json.str (lit "GET"))) (
              Object.entry (lit "body") (read (lit "body") (Json.str [])) (
                Object.entry (lit "timezone") (read (lit "timezone") (Json.str (lit "UTC"))) (
                  Object.entry (lit "timeout_seconds") (read (lit "timeout_seconds") (Json.num 30))
                    Object.empty)))))))
