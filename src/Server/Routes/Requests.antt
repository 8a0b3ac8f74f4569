-- ===== src/Server/Routes/Requests.antt =====
-- The client's requests (apps/cronpilot-frontend/src/api) with the handlers that they are meant for,
-- and the segments of their paths.
use irwandhi_gitops_lab.Base.{
  arith, Bool, true, leb, ◌&&◌, ◌||◌, ℕ, ◌≡◌, refl, ap, ◌∙◌, false, Option, List, [], ◌∷◌, ◌++◌,
  All, ◌==◌, append-nil, append_assoc,
}
use irwandhi_gitops_lab.Text.{Text}
use irwandhi_gitops_lab.Json.{Json}
use irwandhi_gitops_lab.Api.{Request}
use irwandhi_gitops_lab.Api.Auth as Auth
use irwandhi_gitops_lab.Api.Jobs as Jobs
use irwandhi_gitops_lab.Api.Executions as Executions
use irwandhi_gitops_lab.Api.Report as Report
use irwandhi_gitops_lab.Api.Admin as Admin
use irwandhi_gitops_lab.Server.Routes.{Handler, segments_from}

-- The characters of a UUID as the API writes it, and some more: lower-case letters, digits and "-".
abbrev pub is_id_char : ℕ → Bool
is_id_char c = (leb b'0' c && leb c b'9') || (leb b'a' c && leb c b'z') || (c == b'-')

-- A text that a browser sends as it is, as one segment of a path: it has no character that URLs give a
-- meaning to, and is no ".".
abbrev pub IsSegment : Text → Type 0
IsSegment s = All (λ c. is_id_char c ≡ true) s

no_slash : (c : ℕ) → is_id_char c ≡ true → (c == b'/') ≡ false
no_slash c h = ground (arith, h)

no_query : (c : ℕ) → is_id_char c ≡ true → (c == b'?') ≡ false
no_query c h = ground (arith, h)

pub segments_from-last : (cur s : Text) → IsSegment s → segments_from cur s ≡ (cur ++ s) ∷ []
unfolding segments_from
segments_from-last cur [] h = rw append-nil refl
segments_from-last cur (c ∷ s) (h, hs) =
    rw (no_slash c h, no_query c h)
      (segments_from-last (cur ++ c ∷ []) s hs
        ∙ ap (λ (t : Text). t ∷ []) (append_assoc cur (c ∷ []) s))

pub segments_from-inner :
    (cur s t : Text)
    → IsSegment s
    → segments_from cur (s ++ b'/' ∷ t) ≡ (cur ++ s) ∷ segments_from [] t
unfolding segments_from
segments_from-inner cur [] t h = rw append-nil refl
segments_from-inner cur (c ∷ s) t (h, hs) =
    rw (no_slash c h, no_query c h)
      (segments_from-inner (cur ++ c ∷ []) s t hs
        ∙ ap (λ (u : Text). u ∷ segments_from [] t) (append_assoc cur (c ∷ []) s))

-- The calls whose paths are fixed.
abbrev pub plain_calls :
    (email password next : Text) (body : Json) (chosen : Option Text) (limit days : Option ℕ)
    (encode : Text → Text) (job_id : Text)
    → List (Request × Handler)
plain_calls email password next body chosen limit days encode job_id =
    (Auth.login email password, Handler.login)
    ∷ (Auth.register email password, Handler.register)
    ∷ (Auth.change_password password next, Handler.change_password)
    ∷ (Jobs.get_jobs, Handler.list_jobs)
    ∷ (Jobs.create_job body, Handler.create_job)
    ∷ (Executions.get_executions chosen limit, Handler.list_executions)
    ∷ (Report.get_report_summary, Handler.report_summary)
    ∷ (Report.get_report_timeline days, Handler.report_timeline)
    ∷ (Report.get_report_jobs, Handler.report_jobs)
    ∷ (Report.csv_request encode job_id days, Handler.report_csv)
    ∷ (Admin.get_users, Handler.admin_list_users)
    ∷ (Admin.create_user body, Handler.admin_create_user)
    ∷ (Admin.get_all_jobs, Handler.admin_list_jobs)
    ∷ (Admin.create_job body, Handler.admin_create_job)
    ∷ []

-- The calls about one job, or one account.
abbrev pub calls_on : Text → Json → List (Request × Handler)
calls_on id body =
    (Jobs.get_job id, Handler.get_job)
    ∷ (Jobs.update_job id body, Handler.update_job)
    ∷ (Jobs.delete_job id, Handler.delete_job)
    ∷ (Admin.update_user id body, Handler.admin_update_user)
    ∷ (Admin.delete_user id, Handler.admin_delete_user)
    ∷ (Admin.update_job id body, Handler.admin_update_job)
    ∷ (Admin.delete_job id, Handler.admin_delete_job)
    ∷ []

-- The calls that pause, resume or run one job.
abbrev pub acts_on : Text → List (Request × Handler)
acts_on id =
    (Jobs.pause_job id, Handler.pause_job)
    ∷ (Jobs.resume_job id, Handler.resume_job)
    ∷ (Jobs.trigger_job id, Handler.trigger_job)
    ∷ (Admin.pause_job id, Handler.admin_pause_job)
    ∷ (Admin.resume_job id, Handler.admin_resume_job)
    ∷ (Admin.trigger_job id, Handler.admin_trigger_job)
    ∷ []
