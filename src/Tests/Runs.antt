-- ===== src/Tests/Runs.antt =====
-- Runs and their ends at concrete inputs.
use irwandhi_gitops_lab.Base.{
  ◌≡◌, refl, Bool, true, false, not, ◌&&◌, ◌||◌, none, some, [], ◌∷◌, ◌==◌,
}
use irwandhi_gitops_lab.Text.{Text, lit, eq_text}
use irwandhi_gitops_lab.Server.Store.{find}
use irwandhi_gitops_lab.Server.Answer.{error}
use irwandhi_gitops_lab.Server.Jobs.{inserted}
use irwandhi_gitops_lab.Server.Executor.{
  Spawned, begin, written, is_running_of, trigger_job, fire, watch, finish,
}
use irwandhi_gitops_lab.Server.Executor.Request.{Reply, Http, outcome_of, do_request}
use irwandhi_gitops_lab.Server.Executor.Ends.{asks, watch-Replace}
use irwandhi_gitops_lab.Server.Executor.Stuck.{Later, stuck}
use irwandhi_gitops_lab.Tests.Services.{row, other, table}
use irwandhi_gitops_lab.Tests.Executions.{running, runs, row_forbids, found_row, found_other}

-- A server whose answer is one byte 0, and a client that is cancelled.
abbrev zero_byte : Http
zero_byte = record {
  to_upper = λ s. s;
  parse_headers = λ s. none;
  send = λ r. Reply.answered 200 (0 ∷ []);
}

-- A text of the database holds no byte 0.
abbrev no_zero : Text → Bool
no_zero [] = true
no_zero (c ∷ s) = not (c == 0) && no_zero s

runs_now : is_running_of row.id running ≡ true
unfolding is_running_of inserted lit eq_text
runs_now = refl

found_running : find (λ e. eq_text e.id running.id) runs ≡ some running
unfolding find lit eq_text
found_running = refl

abbrev pub spawned : Spawned
spawned = record { job = other; triggered_by = lit "schedule" }

other_id : eq_text (lit "e2") running.id ≡ false
unfolding lit eq_text
other_id = refl

-- The run that is over, and another that begins.
began_other :
    Later running.id
      (finish no_zero running.id 1000 2500 (do_request zero_byte row) runs)
      (begin (lit "e2") 3000 spawned runs)
unfolding finish written do_request outcome_of
began_other = Later.began (lit "e2") 3000 spawned Later.over other_id

stuck_example :
    (finish no_zero running.id 1000 2500 (do_request zero_byte row) runs ≡ runs)
    × (trigger_job false false (lit "ann") row.id table (begin (lit "e2") 3000 spawned runs) ≡ (
      begin (lit "e2") 3000 spawned runs,
      error 409 (lit "Job is already running (Forbid policy)"),
      none,
    ))
    × (fire false row (begin (lit "e2") 3000 spawned runs)
        ≡ (begin (lit "e2") 3000 spawned runs, none))
stuck_example =
    stuck zero_byte no_zero row row 1000 2500 runs (begin (lit "e2") 3000 spawned runs) table
      (lit "ann") found_running runs_now refl refl (began_other) refl found_row row_forbids

watch-Replace_example :
    (watch false running.id (trigger_job false false (lit "bob") other.id table runs).0
      ≡ (asks false other running || running.cancel_requested))
    × (watch false running.id (fire false other runs).0
        ≡ (asks false other running || running.cancel_requested))
watch-Replace_example = watch-Replace table other (lit "bob") runs found_other false found_running
