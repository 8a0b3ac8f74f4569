-- ===== src/Server/Jobs/Decoding.antt =====
-- The bodies that the job form sends, and the handlers that decode them.
use irwandhi_gitops_lab.Base.{ℕ, ◌≡◌, ◌≢◌, refl, Option, none, some, List}
use irwandhi_gitops_lab.Text.{Text, lit}
use irwandhi_gitops_lab.Json.{Json, Object, get}
use irwandhi_gitops_lab.Components.JobForm.{Msg, initial_form}
use irwandhi_gitops_lab.Components.JobForm.Fields.{run, last_given, timeout-edited}
use irwandhi_gitops_lab.Server.Store.{JobRow}
use irwandhi_gitops_lab.Server.Answer.{Answer, error}
use irwandhi_gitops_lab.Server.Jobs.{JobInput, Jobs, create_job, update_job}
use irwandhi_gitops_lab.Server.AdminJobs.{admin_update_job}

-- `json.Decoder` on the fields of `jobInput`: a text does not decode into an int.
pub record Decoder : Type 0 where
  pub decode : Object → Option JobInput
  pub text_for_int :
      (form : Object) (s : Text)
      → get (lit "timeout_seconds") form ≡ some (Json.str s)
      → decode form ≡ none

-- Once the timeout has been edited in the form, whatever else is typed before and after, what the
-- form submits is answered by 400 and changes no job: as a new job, as an edit by the owner and as
-- an edit by an administrator.
pub timeout-refused :
    (d : Decoder) (ms : List Msg) (initial : Object)
    → last_given (lit "timeout_seconds") ms ≢ none
    → (uid id : Text) (now : ℕ) (fault : Option Text) (jobs : Jobs)
    → let body = d.decode (run ms (initial_form initial)) in
      let refused : Jobs × Answer JobRow = (jobs, error 400 (lit "Invalid request body")) in
      (create_job uid id now body fault jobs ≡ refused)
      × (update_job uid id now body fault jobs ≡ refused)
      × (admin_update_job id now body fault jobs ≡ refused)
unfolding create_job update_job admin_update_job
timeout-refused d ms initial edited uid id now fault jobs =
    let (s, sent) = timeout-edited ms initial edited in
    rw (d.text_for_int _ s sent) (refl, refl, refl)
