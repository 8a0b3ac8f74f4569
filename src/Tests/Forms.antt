-- ===== src/Tests/Forms.antt =====
-- The password form, the dialog for accounts, and the form for jobs, at concrete inputs.
use irwandhi_gitops_lab.Base.{false, none, some, List, [], ◌∷◌, ◌≡◌, refl}
use irwandhi_gitops_lab.Text.{lit, eq_text}
use irwandhi_gitops_lab.Json.{Json, Object, get}
use irwandhi_gitops_lab.Records.{Account, Job}
use irwandhi_gitops_lab.Pages.Profile as Profile
use irwandhi_gitops_lab.Components.JobForm as JobForm
use irwandhi_gitops_lab.Pages.EditJob as EditJob
use irwandhi_gitops_lab.Pages.AdminJobs.Drawer as Drawer
use irwandhi_gitops_lab.Pages.AdminJobs.Laws.{opened-drawer}

abbrev typed : Profile.Page
typed = record {
  current = lit "old";
  next = lit "secret";
  confirm = lit "secret";
  success = false;
  field_error = [];
  pending = false;
}

abbrev bob : Account
bob = record {
  id = lit "2";
  email = lit "bob@acme.com";
  role = lit "user";
  job_count = 3;
  created_at = lit "2024-01-01";
}

abbrev sent_object : Object
sent_object =
    Object.entry (lit "timeout_seconds") (Json.num 60)
      (Object.entry (lit "concurrency_policy") (Json.str (lit "Forbid")) Object.empty)

abbrev edits : List JobForm.Msg
edits = JobForm.Msg.typed (lit "timeout_seconds") (lit "90") ∷ []

abbrev nightly : Job
nightly = record {
  id = lit "7";
  user_id = some (lit "2");
  name = lit "Nightly";
  description = none;
  cron_expression = lit "0 0 * * *";
  url = lit "https://acme.com/Sync";
  method = lit "GET";
  body = none;
  status = lit "paused";
  timezone = lit "UTC";
  timeout_seconds = 60;
  concurrency_policy = some (lit "Forbid");
  last_run_at = none;
  owner_email = none;
  object = sent_object;
}

opened-drawer_example :
    (get (lit "concurrency_policy") (EditJob.opened nightly) ≡ some (Json.str (lit "Forbid")))
    × (get (lit "concurrency_policy") (Drawer.opened nightly) ≡ some (Json.str (lit "Allow")))
    × (get (lit "headers") (Drawer.opened nightly) ≡ none)
unfolding get eq_text lit
opened-drawer_example =
    opened-drawer nightly (lit "concurrency_policy") (Json.str (lit "Forbid")) (refl, (refl, tt))
      refl
