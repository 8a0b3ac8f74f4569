-- ===== src/Tests/Services.antt =====
-- The job handlers and the report's download at concrete inputs.
use mathlib.Core.List.{Memᴰ}
use irwandhi_gitops_lab.Base.{
  ltb, ℕ, ◌+◌, ◌-◌, ◌*◌, ◌/◌, ◌≡◌, ◌↔◌, refl, true, Option, none, some, List, [], ◌∷◌, leb,
}
use irwandhi_gitops_lab.Text.{Text, lit, eq_text}
use irwandhi_gitops_lab.Json.{Json, Object, get}
use irwandhi_gitops_lab.Records.{Job}
use irwandhi_gitops_lab.Doubles.{Doubles}
use irwandhi_gitops_lab.Dom.Actions.{clicks}
use irwandhi_gitops_lab.Tests.Models.{dates}
use irwandhi_gitops_lab.Pages.Report as Report
use irwandhi_gitops_lab.Pages.Report.View.Download as Download
use irwandhi_gitops_lab.Pages.Report.View.Download.{Reach-IsSingle, IsSingle}
use irwandhi_gitops_lab.Components.JobCard.{Click, job_card}
use irwandhi_gitops_lab.Components.JobForm as JobForm
use irwandhi_gitops_lab.Components.JobForm.Fields as Fields
use irwandhi_gitops_lab.Server.Store.{JobRow, find}
use irwandhi_gitops_lab.Server.Answer.{Answer, error}
use irwandhi_gitops_lab.Server.Jobs.{
  JobInput, Jobs, apply_defaults, inserted, create_job, update_job, is_job_of, has_id,
}
use irwandhi_gitops_lab.Server.Jobs.Calls.{Call, run, view, promise}
use irwandhi_gitops_lab.Server.Jobs.Calls.Refinement.{IsKeyed, run-refines}
use irwandhi_gitops_lab.Server.Jobs.Calls.Isolation.{others, others-run}
use irwandhi_gitops_lab.Server.Jobs.Decoding.{Decoder, timeout-refused}
use irwandhi_gitops_lab.Server.Jobs.Offers.{job_card-run}
use irwandhi_gitops_lab.Server.AdminJobs.{admin_update_job, admin_pause_job, admin_resume_job}
use irwandhi_gitops_lab.Server.AdminJobs.Tables.{Reach, Action, IsSound, perform, Reach-IsSound}
use irwandhi_gitops_lab.Server.AdminJobs.Policy.{policies, policies-admin}

abbrev whole : Doubles
whole = record {
  Double = ℕ;
  of_ℕ = λ n. n;
  gt = λ a b. ltb b a;
  add = λ a b. a + b;
  pi = 3;
  ge = λ a b. leb b a;
  mul = λ a b. a * b;
  div = λ a b. a / b;
  sub = λ a b. a - b;
  round = λ a. a;
  to_fixed = λ digits a. (48 + a) ∷ [];
  print = λ a. (48 + a) ∷ [];
}

abbrev as_is : Text → Text
as_is s = s

abbrev exporting : Download.World whole dates
exporting = record { state = record Report.initial { downloading = true }; in_flight = 1 }

exporting-Reach : Download.Reach whole dates as_is exporting
unfolding Report.update Report.initial
exporting-Reach = Download.Reach.next Download.Reach.start (
    Download.Step.clicked (record { state = Report.initial; in_flight = 0 }) Report.Msg.export none
      [] []
      (rw (Download.clicks-report_page whole dates Report.initial none [] []) (Memᴰ.head refl)))

Reach-IsSingle_example : IsSingle whole dates exporting
Reach-IsSingle_example = Reach-IsSingle whole dates as_is exporting-Reach

abbrev nightly : JobInput
nightly = record {
  name = lit "nightly";
  description = [];
  cron_expression = lit "0 2 * * *";
  url = lit "https://example.org";
  method = [];
  headers = [];
  body = none;
  timezone = [];
  timeout_seconds = 0;
  concurrency_policy = lit "Forbid";
}

abbrev pub row : JobRow
row = inserted (lit "ann") (lit "j1") 5 (apply_defaults nightly)

abbrev pub other : JobRow
other = record (inserted (lit "bob") (lit "j2") 6 (apply_defaults nightly)) {
  concurrency_policy = lit "Replace";
}

abbrev pub table : Jobs
table = row ∷ other ∷ []

pub table-IsKeyed : IsKeyed table
unfolding find has_id inserted eq_text lit
table-IsKeyed = (refl, (refl, tt))

run-refines_example :
    ((id : Text)
      → view (lit "ann") (run (lit "ann") 9 (Call.pause (lit "j1") none) table).0 id
        ≡ (promise (lit "ann") 9 (Call.pause (lit "j1") none) (view (lit "ann") table)).0 id)
    × (run (lit "ann") 9 (Call.pause (lit "j1") none) table).1
      ≡ (promise (lit "ann") 9 (Call.pause (lit "j1") none) (view (lit "ann") table)).1
run-refines_example = run-refines (lit "ann") 9 (Call.pause (lit "j1") none) table table-IsKeyed

others-run_example :
    others (lit "ann") (run (lit "ann") 9 (Call.remove (lit "j2") none) table).0
    ≡ others (lit "ann") table
others-run_example = others-run (lit "ann") 9 (Call.remove (lit "j2") none) table

paused-Reach : Reach (
    perform 9
      (Action.pause (lit "j1") none)
      (perform 5 (Action.owned (lit "ann") (Call.create (lit "j1") (some nightly) none)) []))
unfolding find
paused-Reach =
    Reach.next 9 (Action.pause (lit "j1") none)
      (Reach.next 5 (Action.owned (lit "ann") (Call.create (lit "j1") (some nightly) none))
        Reach.start refl)
      tt

Reach-IsSound_example : IsSound (
    perform 9
      (Action.pause (lit "j1") none)
      (perform 5 (Action.owned (lit "ann") (Call.create (lit "j1") (some nightly) none)) []))
Reach-IsSound_example = Reach-IsSound paused-Reach

policies-admin_example :
    (policies (admin_update_job (lit "j1") 9 (some nightly) none table).0 ≡ policies table)
    × (policies (admin_pause_job (lit "j1") 9 none table).0 ≡ policies table)
    × (policies (admin_resume_job (lit "j1") 9 none table).0 ≡ policies table)
policies-admin_example = policies-admin (lit "j1") 9 (some nightly) none table

abbrev edits : List JobForm.Msg
edits = JobForm.Msg.typed (lit "timeout_seconds") (lit "90") ∷ []

abbrev decode_field : Option Json → Option JobInput
decode_field (some (Json.str s)) = none
decode_field _ = some nightly

abbrev decoder : Decoder
decoder = record {
  decode = λ form. decode_field (get (lit "timeout_seconds") form);
  text_for_int = λ form s sent. rw sent refl;
}

abbrev edited : Object
edited = Fields.run edits (JobForm.initial_form Object.empty)

abbrev refused : Jobs × Answer JobRow
refused = (table, error 400 (lit "Invalid request body"))

timeout-refused_example :
    (create_job (lit "ann") (lit "j3") 9 (decoder.decode edited) none table ≡ refused)
    × (update_job (lit "ann") (lit "j3") 9 (decoder.decode edited) none table ≡ refused)
    × (admin_update_job (lit "j3") 9 (decoder.decode edited) none table ≡ refused)
unfolding Fields.last_given lit eq_text
timeout-refused_example =
    timeout-refused decoder edits Object.empty (λ e. cc e) (lit "ann") (lit "j3") 9 none table

abbrev card : Job
card = record {
  id = lit "j1";
  user_id = some (lit "ann");
  name = lit "nightly";
  description = none;
  cron_expression = lit "0 2 * * *";
  url = lit "https://example.org";
  method = lit "GET";
  body = none;
  status = lit "active";
  timezone = lit "UTC";
  timeout_seconds = 30;
  concurrency_policy = some (lit "Forbid");
  last_run_at = none;
  owner_email = none;
  object = Object.empty;
}

job_card-run_example :
    (Memᴰ Click.pause (clicks (job_card card))
      ↔ ((run (lit "ann") 9 (Call.pause (lit "j1") none) table).1 ≡ 200))
    × (Memᴰ Click.resume (clicks (job_card card))
        ↔ ((run (lit "ann") 9 (Call.resume (lit "j1") none) table).1 ≡ 200))
unfolding view find is_job_of inserted lit eq_text
job_card-run_example = job_card-run (lit "ann") 9 table row card table-IsKeyed refl refl
