-- ===== src/Server/Reports/Statuses.antt =====
-- The statuses of executions, and the summary's counts of them.
use irwandhi_gitops_lab.Base.{
  true, false, ℕ, ◌+◌, ◌≡◌, refl, inl, inr, Bool, true, [], ◌∷◌, arith, filter, length, All,
  if◌then◌else◌, Bool-cases, ltb,
}
use irwandhi_gitops_lab.Text.{Text, lit, eq_text}
use irwandhi_gitops_lab.Server.Store.{ExecutionRow, update_where, count_where}
use irwandhi_gitops_lab.Server.Answer.{ok}
use irwandhi_gitops_lab.Server.Jobs.{Jobs}
use irwandhi_gitops_lab.Server.Executor.{
  Executions, Spawned, Outcome, is_running_of, request_cancel, begin, status_of, finished, written,
  finish,
}
use irwandhi_gitops_lab.Server.Executions.{is_own, own}
use irwandhi_gitops_lab.Server.Reports.{Floats, Summary, has_status, report_summary}

-- The tables that the services can come to: rows are made by runs that begin and changed by runs that
-- end, runs are asked to stop, and the rows of deleted jobs go.
pub data Reach : Executions → Type 0 where
  fresh : Reach []
  began : {es : Executions} (id : Text) (t : ℕ) (s : Spawned) → Reach es → Reach (begin id t s es)
  ended :
      {es : Executions} (accepts : Text → Bool) (id : Text) (t t' : ℕ) (outcome : Outcome)
      → Reach es
      → Reach (finish accepts id t t' outcome es)
  asked :
      {es : Executions} (fault : Bool) (job_id : Text)
      → Reach es
      → Reach (request_cancel fault job_id es)
  dropped : {es : Executions} (keep : ExecutionRow → Bool) → Reach es → Reach (filter keep es)

-- The counts of each status, of a row, add to one.
abbrev as_one : Bool → ℕ
as_one b = if b then 1 else 0

abbrev IsKnown : ExecutionRow → Type 0
IsKnown e =
    as_one (has_status (lit "success") e)
      + as_one (has_status (lit "failure") e)
      + as_one (has_status (lit "running") e)
    ≡ 1

abbrev IsStatus : Text → Type 0
IsStatus s =
    as_one (eq_text s (lit "success"))
      + as_one (eq_text s (lit "failure"))
      + as_one (eq_text s (lit "running"))
    ≡ 1

outcome-IsStatus : (outcome : Outcome) → IsStatus (status_of outcome)
unfolding status_of lit eq_text
outcome-IsStatus (Outcome.failed message canceled) = refl
outcome-IsStatus (Outcome.responded status body) = elim (Bool-cases (ltb status 400)) [
  | inl low ↦ rw low refl
  | inr high ↦ rw high refl
]

finished-IsKnown :
    (t t' : ℕ) (outcome : Outcome) (e : ExecutionRow) → IsKnown (finished t t' outcome e)
unfolding finished
finished-IsKnown t t' (Outcome.failed message canceled) e =
    outcome-IsStatus (Outcome.failed message canceled)
finished-IsKnown t t' (Outcome.responded status body) e =
    outcome-IsStatus (Outcome.responded status body)

running-IsStatus : IsStatus (lit "running")
unfolding lit eq_text
running-IsStatus = refl

update_where-All :
    (P : ExecutionRow → Type 0) (test : ExecutionRow → Bool) (set : ExecutionRow → ExecutionRow)
    (es : Executions)
    → ((e : ExecutionRow) → P e → P (set e))
    → All P es
    → All P (update_where test set es)
unfolding update_where
update_where-All P test set [] keeps h = tt
update_where-All P test set (e ∷ es) keeps (h, hs) = elim (Bool-cases (test e)) [
  | inl hit ↦ rw hit (keeps e h, update_where-All P test set es keeps hs)
  | inr miss ↦ rw miss (h, update_where-All P test set es keeps hs)
]

filter-All :
    (P : ExecutionRow → Type 0) (keep : ExecutionRow → Bool) (es : Executions)
    → All P es
    → All P (filter keep es)
unfolding filter
filter-All P keep [] h = tt
filter-All P keep (e ∷ es) (h, hs) = elim (Bool-cases (keep e)) [
  | inl hit ↦ rw hit (h, filter-All P keep es hs)
  | inr miss ↦ rw miss (filter-All P keep es hs)
]

Reach-IsKnown : {es : Executions} → Reach es → All IsKnown es
unfolding begin request_cancel finish
Reach-IsKnown fresh = tt
Reach-IsKnown (began id t s reach) = (running-IsStatus, Reach-IsKnown reach)
Reach-IsKnown (ended {es} accepts id t t' outcome reach) =
    elim (Bool-cases (accepts (written outcome))) [
      | inl accepted ↦ rw accepted (
          update_where-All IsKnown (λ e. eq_text e.id id) (finished t t' outcome) es
            (λ e h. finished-IsKnown t t' outcome e) (Reach-IsKnown reach))
      | inr refused ↦ rw refused (Reach-IsKnown reach)
    ]
Reach-IsKnown (asked true job_id reach) = Reach-IsKnown reach
Reach-IsKnown (asked {es} false job_id reach) =
    update_where-All IsKnown (is_running_of job_id) (λ e. record e { cancel_requested = true }) es
      (λ e h. h) (Reach-IsKnown reach)
Reach-IsKnown (dropped {es} keep reach) = filter-All IsKnown keep es (Reach-IsKnown reach)

statuses-length :
    (es : Executions)
    → All IsKnown es
    → length es
      ≡ count_where (has_status (lit "success")) es
        + count_where (has_status (lit "failure")) es
        + count_where (has_status (lit "running")) es
unfolding count_where
statuses-length [] h = omega arith
statuses-length (e ∷ es) (h, hs) = let ih = statuses-length es hs in omega arith

-- In every table that the services come to, each execution is counted once in the summary: the
-- successes, the failures and the running ones add up to the total.
pub report_summary-adds :
    (f : Floats) (uid : Text) (jobs : Jobs) {es : Executions}
    → Reach es
    → (s : Summary f) × (report_summary f uid jobs es ≡ ok 200 s)
      × (s.total_executions ≡ s.success_count + s.failure_count + s.running_count)
unfolding report_summary own
report_summary-adds f uid jobs {es} reach = (
  _,
  refl,
  statuses-length (own uid jobs es) (filter-All IsKnown (is_own uid jobs) es (Reach-IsKnown reach)),
)
