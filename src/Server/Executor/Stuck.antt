-- ===== src/Server/Executor/Stuck.antt =====
-- A run whose last statement the database refuses.
use mathlib.Core.Path.{subst}
use irwandhi_gitops_lab.Base.{
  not, ◌&&◌, Bool, ℕ, ◌≤◌, ◌≡◌, refl, ap, ◌∙◌, Bool, true, false, none, some, [], ◌∷◌, arith,
  if◌then◌else◌, filter, inl, inr, Bool-cases, take,
}
use irwandhi_gitops_lab.Text.{Text, lit, eq_text, eq_text_refl, eq_text_iff}
use irwandhi_gitops_lab.Server.Store.{JobRow, ExecutionRow, find}
use irwandhi_gitops_lab.Server.Store.Laws.{find-update_where-other}
use irwandhi_gitops_lab.Server.Answer.{error}
use irwandhi_gitops_lab.Server.Jobs.{Jobs, is_job_of}
use irwandhi_gitops_lab.Server.Executor.{
  Executions, Spawned, Outcome, is_running_of, count_running, has_running, request_cancel,
  trigger_job, fire, begin, written, finished, finish,
}
use irwandhi_gitops_lab.Server.Executor.Request.{
  Reply, Http, request_of, body_limit, outcome_of, do_request,
}
use irwandhi_gitops_lab.Server.Executor.Policies.{refused-Forbid}
use irwandhi_gitops_lab.Server.Executor.Ends.{keyed, finished-id, request_cancel-find}

-- What other runs and triggers do to the table once the run of the row `id` is over: rows are made
-- under other keys, other runs end, and runs are asked to stop.
pub data Later (id : Text) (start : Executions) : Executions → Type 0 where
  over : Later id start start
  began :
      {es : Executions} (id' : Text) (t : ℕ) (s : Spawned)
      → Later id start es
      → eq_text id' id ≡ false
      → Later id start (begin id' t s es)
  ended :
      {es : Executions} (accepts : Text → Bool) (id' : Text) (t t' : ℕ) (outcome : Outcome)
      → Later id start es
      → eq_text id' id ≡ false
      → Later id start (finish accepts id' t t' outcome es)
  asked :
      {es : Executions} (fault : Bool) (job_id : Text)
      → Later id start es
      → Later id start (request_cancel fault job_id es)

-- The row under a key is one of a job that runs.
abbrev IsLive : Text → Text → Executions → Type 0
IsLive job_id id es =
    (e : ExecutionRow) × (find (keyed id) es ≡ some e) × (is_running_of job_id e ≡ true)

apart :
    (id id' : Text) (e : ExecutionRow)
    → eq_text id' id ≡ false
    → keyed id e ≡ true
    → keyed id' e ≡ false
apart id id' e h k = elim (Bool-cases (eq_text e.id id')) [
  | inl same ↦ ground (arith, eq_text_iff e.id id, eq_text_iff e.id id', eq_text_iff id' id)
  | inr other ↦ other
]

finish-IsLive :
    (accepts : Text → Bool) (job_id id id' : Text) (t t' : ℕ) (outcome : Outcome) (es : Executions)
    → eq_text id' id ≡ false
    → IsLive job_id id es
    → IsLive job_id id (finish accepts id' t t' outcome es)
unfolding finish
finish-IsLive accepts job_id id id' t t' outcome es other (e, known, live) =
    elim (Bool-cases (accepts (written outcome))) [
      | inl accepted ↦ (
        e,
        rw accepted (
            find-update_where-other (keyed id) (keyed id') (finished t t' outcome) es
              (λ x h. apart id id' x other h)
              (λ x. ap (λ i. eq_text i id) (finished-id t t' outcome x))
            ∙ known),
        live,
      )
      | inr refused ↦ (e, rw refused known, live)
    ]

request_cancel-IsLive :
    (fault : Bool) (job_id job_id' id : Text) (es : Executions)
    → IsLive job_id id es
    → IsLive job_id id (request_cancel fault job_id' es)
unfolding is_running_of
request_cancel-IsLive fault job_id job_id' id es (e, known, live) = (
  if not fault && is_running_of job_id' e then record e { cancel_requested = true } else e,
  request_cancel-find fault job_id' id es known,
  ground arith,
)

Later-IsLive :
    (job_id id : Text) {start es : Executions}
    → IsLive job_id id start
    → Later id start es
    → IsLive job_id id es
unfolding begin find
Later-IsLive job_id id live over = live
Later-IsLive job_id id live (began id' t s later other) =
    let (e, known, runs) = Later-IsLive job_id id live later in (e, rw other known, runs)
Later-IsLive job_id id live (ended {es} accepts id' t t' outcome later other) =
    finish-IsLive accepts job_id id id' t t' outcome es other (Later-IsLive job_id id live later)
Later-IsLive job_id id live (asked {es} fault job_id' later) =
    request_cancel-IsLive fault job_id job_id' id es (Later-IsLive job_id id live later)

-- A row that runs is counted.
count_running-of_find :
    (job_id id : Text) (es : Executions) (e : ExecutionRow)
    → find (keyed id) es ≡ some e
    → is_running_of job_id e ≡ true
    → 1 ≤ count_running job_id es
unfolding count_running find filter
count_running-of_find job_id id [] e known live = cc
count_running-of_find job_id id (x ∷ es) e known live = elim (Bool-cases (is_running_of job_id x)) [
  | inl runs ↦ rw runs (omega arith)
  | inr rests ↦ rw rests (
      count_running-of_find job_id id es e
        (elim (Bool-cases (keyed id x)) [
          | inl hit ↦ let same : x ≡ e = ground arith in cc
          | inr miss ↦ rw (miss, find) at known
        ])
        live)
]

IsLive-has_running :
    (job_id id : Text) (es : Executions) → IsLive job_id id es → has_running false job_id es ≡ true
unfolding has_running
IsLive-has_running job_id id es (e, known, live) =
    ground (arith, count_running-of_find job_id id es e known live)

fire-Forbid :
    (job : JobRow) (es : Executions)
    → job.concurrency_policy ≡ lit "Forbid"
    → has_running false job.id es ≡ true
    → fire false job es ≡ (es, none)
unfolding fire
fire-Forbid job es forbid running = rw (forbid, eq_text_refl (lit "Forbid"), running) refl

-- Where a response comes to a run and the database refuses the text of its first 10 000 bytes, the
-- run's row stays as it was: whatever other runs and triggers do later, if the job's policy is then
-- "Forbid", no trigger by its owner or by the schedule starts a run, if its own statements do not
-- fail.
pub stuck :
    (http : Http) (accepts : Text → Bool) (job row : JobRow) (t t' : ℕ) (es later : Executions)
    (jobs : Jobs) (uid : Text) {e : ExecutionRow} {status : ℕ} {body : Text}
    → find (keyed e.id) es ≡ some e
    → is_running_of job.id e ≡ true
    → http.send (request_of http job) ≡ Reply.answered status body
    → accepts (take body_limit body) ≡ false
    → Later e.id (finish accepts e.id t t' (do_request http job) es) later
    → row.id ≡ job.id
    → find (is_job_of uid row.id) jobs ≡ some row
    → row.concurrency_policy ≡ lit "Forbid"
    → (finish accepts e.id t t' (do_request http job) es ≡ es)
      × (trigger_job false false uid row.id jobs later
          ≡ (later, error 409 (lit "Job is already running (Forbid policy)"), none))
      × (fire false row later ≡ (later, none))
unfolding do_request outcome_of finish written
stuck http accepts job row t t' es later jobs uid {e} known runs came refused reach same found
      forbid =
    let kept : finish accepts e.id t t' (do_request http job) es ≡ es = rw (came, refused) refl in
    let from : Later e.id es later = subst (λ s. Later e.id s later) kept reach in
    let busy : has_running false row.id later ≡ true =
      rw same
        (IsLive-has_running job.id e.id later (Later-IsLive job.id e.id (e, known, runs) from)) in
    (kept, refused-Forbid jobs row uid later found forbid busy, fire-Forbid row later forbid busy)
