-- ===== src/Tests/Executions.antt =====
-- Triggers and executions at concrete inputs.
use irwandhi_gitops_lab.Base.{
  ◌≤◌, ◌≡◌, ◌↔◌, true, length, refl, false, none, some, [], ◌∷◌, arith, filter, length-filter-le,
}
use irwandhi_gitops_lab.Text.{lit, eq_text}
use irwandhi_gitops_lab.Server.Store.{ExecutionRow, find}
use irwandhi_gitops_lab.Server.Answer.{ok, error}
use irwandhi_gitops_lab.Server.Jobs.{apply_defaults, inserted, is_job_of, has_id}
use irwandhi_gitops_lab.Server.Executor.{
  Executions, is_running_of, count_running, trigger_job, admin_trigger_job, fire,
}
use irwandhi_gitops_lab.Server.Executor.Race as Race
use irwandhi_gitops_lab.Server.Executor.Race.{World, Reach-IsExclusive, forbid_race}
use irwandhi_gitops_lab.Server.Executor.Policies.{
  IsCancelled, rest_of, IsBusy, trigger-Replace, trigger-Forbid,
}
use irwandhi_gitops_lab.Tests.Services.{row, other, table}

pub row_forbids : row.concurrency_policy ≡ lit "Forbid"
unfolding inserted apply_defaults lit
row_forbids = refl

abbrev pub running : ExecutionRow
running = record {
  id = lit "e1";
  job_id = lit "j1";
  status = lit "running";
  triggered_by = lit "manual";
  started_at = 1000;
  completed_at = none;
  duration_ms = none;
  response_status = none;
  response_body = none;
  error_message = none;
  cancel_requested = false;
}

abbrev fired : World
fired = record {
  executions = (fire false row (running ∷ [])).0;
  spawned = Race.also (fire false row (running ∷ [])).1 [];
}

abbrev pub runs : Executions
runs = running ∷ []

runs-once : count_running row.id runs ≤ 1
unfolding count_running
runs-once = omega (arith, length-filter-le (is_running_of row.id) runs)

Reach-IsExclusive_example : Race.IsExclusive table row row_forbids fired
Reach-IsExclusive_example = Reach-IsExclusive table row row_forbids runs-once (
    Race.Reach.next Race.Reach.start
      (Race.Step.fired (record { executions = runs; spawned = [] }) refl))

pub found_row : find (is_job_of (lit "ann") row.id) table ≡ some row
unfolding find is_job_of inserted lit eq_text
found_row = refl

trigger-Forbid_example :
    ((trigger_job false false (lit "ann") row.id table runs).2 ≡ none ↔ IsBusy false row runs)
    × ((fire false row runs).1 ≡ none ↔ IsBusy false row runs)
    × (IsBusy false row runs
        → ((trigger_job false false (lit "ann") row.id table runs).0 ≡ runs)
          × ((trigger_job false false (lit "ann") row.id table runs).1
              ≡ error 409 (lit "Job is already running (Forbid policy)")))
    × (admin_trigger_job false row.id table runs
        ≡ (ok 200 tt, some (record { job = row; triggered_by = lit "manual" })))
unfolding find has_id inserted lit eq_text
trigger-Forbid_example = trigger-Forbid table row (lit "ann") runs found_row false refl

pub found_other : find (is_job_of (lit "bob") other.id) table ≡ some other
unfolding find is_job_of inserted lit eq_text
found_other = refl

trigger-Replace_example :
    (trigger_job false false (lit "bob") other.id table runs ≡ (
      (fire false other runs).0,
      ok 200 tt,
      some (record { job = other; triggered_by = lit "manual" }),
    ))
    × (fire false other runs).1 ≡ some (record { job = other; triggered_by = lit "schedule" })
    × (false ≡ false
        → IsCancelled other.id (trigger_job false false (lit "bob") other.id table runs).0)
    × (false ≡ true → (trigger_job false false (lit "bob") other.id table runs).0 ≡ runs)
    × (rest_of other.id (trigger_job false false (lit "bob") other.id table runs).0
        ≡ rest_of other.id runs)
trigger-Replace_example = trigger-Replace table other (lit "bob") runs found_other false refl

abbrev quiet : World
quiet = record { executions = []; spawned = [] }

forbid_race_example :
    (length (Race.burst table row row_forbids 3 quiet).spawned ≡ 3)
    × (count_running row.id (
          Race.write table row row_forbids
            (λ n. lit "e")
            (λ n. n)
            (Race.burst table row row_forbids 3 quiet).spawned
            (Race.burst table row row_forbids 3 quiet).executions)
        ≡ 3)
unfolding count_running filter
forbid_race_example = forbid_race table row row_forbids 3 (λ n. lit "e") (λ n. n) [] refl
