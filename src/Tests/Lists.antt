-- ===== src/Tests/Lists.antt =====
-- The list of accounts and the timer of the dashboard at concrete inputs.
use irwandhi_gitops_lab.Base.{arith, ◌≡◌}
use irwandhi_gitops_lab.Text.{lit}
use irwandhi_gitops_lab.Records.{Account}
use irwandhi_gitops_lab.Pages.Dashboard.{elapsed, elapsed_text}
use irwandhi_gitops_lab.Pages.Dashboard.Timer.{read_timer, read_timer-elapsed_text}

abbrev bob : Account
bob = record {
  id = lit "2";
  email = lit "bob@acme.com";
  role = lit "admin";
  job_count = 3;
  created_at = lit "2024-01-01";
}

read_timer-elapsed_text_example : read_timer 0 0 (elapsed_text (elapsed 1000 126500)) ≡ 125
read_timer-elapsed_text_example = read_timer-elapsed_text 1000 126500 (omega arith)
