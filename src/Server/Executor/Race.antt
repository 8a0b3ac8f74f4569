-- ===== src/Server/Executor/Race.antt =====
-- How many executions of a job run at once under the policy "Forbid".
use irwandhi_gitops_lab.Base.{
  ℕ, zero, suc, ◌+◌, ◌≤◌, ◌≡◌, refl, ap, Bool, true, false, Option, none, some, List, [], ◌∷◌, ◌++◌,
  arith, All, if◌then◌else◌, filter, length,
}
use irwandhi_gitops_lab.Text.{Text, lit, eq_text, eq_text_refl}
use irwandhi_gitops_lab.Server.Store.{JobRow, ExecutionRow, find, update_where}
use irwandhi_gitops_lab.Server.Jobs.{Jobs, is_job_of}
use irwandhi_gitops_lab.Server.Executor.{
  Executions, Spawned, Outcome, is_running_of, count_running, has_running, trigger_job, fire, begin,
  status_of, finished, finish,
}

-- The table of executions, and the runs that have not written their rows yet.
pub record World : Type 0 where
  pub executions : Executions
  pub spawned : List Spawned

abbrev pub also : Option Spawned → List Spawned → List Spawned
also none ss = ss
also (some s) ss = s ∷ ss

finished_status : (outcome : Outcome) → eq_text (status_of outcome) (lit "running") ≡ false
unfolding status_of eq_text lit
finished_status (Outcome.failed message canceled) = refl
finished_status (Outcome.responded status body) = ground arith

finished_lem :
    (job_id : Text) (t t' : ℕ) (outcome : Outcome) (e : ExecutionRow)
    → is_running_of job_id (finished t t' outcome e) ≡ false
unfolding is_running_of finished
finished_lem job_id t t' (Outcome.failed message canceled) e =
    let h = finished_status (Outcome.failed message canceled) in ground arith
finished_lem job_id t t' (Outcome.responded status body) e =
    let h = finished_status (Outcome.responded status body) in ground arith

count-update_where :
    (job_id : Text) (test : ExecutionRow → Bool) (set : ExecutionRow → ExecutionRow)
    (es : Executions)
    → ((e : ExecutionRow) → is_running_of job_id (set e) ≡ false)
    → count_running job_id (update_where test set es) ≤ count_running job_id es
unfolding count_running update_where filter
count-update_where job_id test set [] stops = omega arith
count-update_where job_id test set (e ∷ es) stops =
    ground (arith, count-update_where job_id test set es stops, stops e)

-- A run that ends no longer counts; it adds none.
count-finish :
    (job_id : Text) (accepts : Text → Bool) (id : Text) (t t' : ℕ) (outcome : Outcome)
    (es : Executions)
    → count_running job_id (finish accepts id t t' outcome es) ≤ count_running job_id es
unfolding finish
count-finish job_id accepts id t t' outcome es = ground (
  arith,
  count-update_where job_id (λ e. eq_text e.id id) (finished t t' outcome) es
      (finished_lem job_id t t' outcome),
)

-- A new row counts at most once.
count-begin :
    (job_id id : Text) (t : ℕ) (s : Spawned) (es : Executions)
    → count_running job_id (begin id t s es) ≤ suc (count_running job_id es)
unfolding count_running begin filter
count-begin job_id id t s es = ground arith

-- A policy "Forbid" starts a run only where none is counted.
admitted :
    (job_id : Text) (s : Spawned) (es : Executions)
    → count_running job_id es ≤ 1
    → count_running job_id es
        + length (also (if has_running false job_id es then none else some s) [])
      ≤ 1
unfolding has_running
admitted job_id s es bound = ground arith

length-extract :
    (s : Spawned) (xs ys : List Spawned) → length (xs ++ s ∷ ys) ≡ suc (length (xs ++ ys))
length-extract s [] ys = refl
length-extract s (x ∷ xs) ys = ground (arith, length-extract s xs ys)

module _ (jobs : Jobs) (job : JobRow) (forbid : job.concurrency_policy ≡ lit "Forbid") where
  abbrev pub IsQuiet : World → Type 0
  IsQuiet w = w.spawned ≡ []

  -- Triggers by the owner and by the schedule, where no run is yet to write its row and the count of
  -- the policy does not fail; runs that write their rows, in any order, or that cannot; and runs that
  -- end.
  pub data Step : World → World → Type 0 where
    triggered :
        (w : World) (unread : Bool) (uid : Text)
        → IsQuiet w
        → find (is_job_of uid job.id) jobs ≡ some job
        → Step w (record {
          executions = (trigger_job unread false uid job.id jobs w.executions).0;
          spawned = also (trigger_job unread false uid job.id jobs w.executions).2 w.spawned;
        })
    fired :
        (w : World)
        → IsQuiet w
        → Step w (record {
          executions = (fire false job w.executions).0;
          spawned = also (fire false job w.executions).1 w.spawned;
        })
    began :
        (w : World) (id : Text) (t : ℕ) (s : Spawned) (before after : List Spawned)
        → w.spawned ≡ before ++ s ∷ after
        → Step w (record { executions = begin id t s w.executions; spawned = before ++ after })
    dropped :
        (w : World) (s : Spawned) (before after : List Spawned)
        → w.spawned ≡ before ++ s ∷ after
        → Step w (record w { spawned = before ++ after })
    ended :
        (w : World) (accepts : Text → Bool) (id : Text) (t t' : ℕ) (outcome : Outcome)
        → Step w (record w { executions = finish accepts id t t' outcome w.executions })

  pub data Reach (es : Executions) : World → Type 0 where
    start : Reach es (record { executions = es; spawned = [] })
    next : {w v : World} → Reach es w → Step w v → Reach es v

  fire_forbid :
      (es : Executions)
      → fire false job es ≡ (
        es,
        if has_running false job.id es
            then none
            else some (record { job = job; triggered_by = lit "schedule" }),
      )
  unfolding fire
  fire_forbid es = rw (forbid, eq_text_refl (lit "Forbid")) (ground arith)

  trigger_job_forbid :
      (uid : Text) (es : Executions)
      → find (is_job_of uid job.id) jobs ≡ some job
      → (trigger_job false false uid job.id jobs es).0 ≡ es
        × (trigger_job false false uid job.id jobs es).2 ≡ (
            if has_running false job.id es
            then none
            else some (record { job = job; triggered_by = lit "manual" }))
  unfolding trigger_job
  trigger_job_forbid uid es found =
      rw (found, trigger_job, forbid, eq_text_refl (lit "Forbid")) (ground arith)

  abbrev pub IsExclusive : World → Type 0
  IsExclusive w = count_running job.id w.executions + length w.spawned ≤ 1

  unread-IsExclusive :
      (uid : Text) (w : World)
      → IsExclusive w
      → IsExclusive (record {
        executions = (trigger_job true false uid job.id jobs w.executions).0;
        spawned = also (trigger_job true false uid job.id jobs w.executions).2 w.spawned;
      })
  unfolding trigger_job
  unread-IsExclusive uid w bound = bound

  step-IsExclusive : {w v : World} → Step w v → IsExclusive w → IsExclusive v
  step-IsExclusive (triggered w true uid quiet found) bound = unread-IsExclusive uid w bound
  step-IsExclusive (triggered w false uid quiet found) bound =
      let (same, spawns) = trigger_job_forbid uid w.executions found in
      rw (same, spawns, quiet)
        (admitted job.id (record { job = job; triggered_by = lit "manual" }) w.executions
          (omega arith))
  step-IsExclusive (fired w quiet) bound =
      rw (fire_forbid w.executions, quiet)
        (admitted job.id (record { job = job; triggered_by = lit "schedule" }) w.executions
          (omega arith))
  step-IsExclusive (began w id t s before after waiting) bound = ground (
    arith,
    count-begin job.id id t s w.executions,
    ap length waiting,
    length-extract s before after,
  )
  step-IsExclusive (dropped w s before after waiting) bound =
      ground (arith, ap length waiting, length-extract s before after)
  step-IsExclusive (ended w accepts id t t' outcome) bound =
      ground (arith, count-finish job.id accepts id t t' outcome w.executions)

  -- Under the policy "Forbid", if at most one execution of the job runs at first, and if its
  -- owner and the schedule alone trigger it, each time when no started run is yet to write its row and
  -- the count of the executions that run does not fail, then the executions of the job that run and the
  -- runs that start are together at most one.
  pub Reach-IsExclusive :
      {es : Executions} {w : World} → count_running job.id es ≤ 1 → Reach es w → IsExclusive w
  Reach-IsExclusive bound start = omega arith
  Reach-IsExclusive bound (next reach step) = step-IsExclusive step (Reach-IsExclusive bound reach)

  count-begin-own :
      (id : Text) (t : ℕ) (by : Text) (es : Executions)
      → count_running job.id (begin id t (record { job = job; triggered_by = by }) es)
        ≡ suc (count_running job.id es)
  unfolding count_running begin filter is_running_of
  count-begin-own id t by es = rw (eq_text_refl job.id, eq_text_refl (lit "running")) refl

  fire-free :
      {es : Executions}
      → count_running job.id es ≡ 0
      → fire false job es ≡ (es, some (record { job = job; triggered_by = lit "schedule" }))
  unfolding has_running
  fire-free {es} free = rw (fire_forbid es, free) refl

  -- `n` callbacks of the schedule, before any of their runs has written its row.
  unfoldable pub burst : ℕ → World → World
  burst zero w = w
  burst (suc n) w =
      let v = burst n w in
      record {
        executions = (fire false job v.executions).0;
        spawned = also (fire false job v.executions).1 v.spawned;
      }

  -- Runs write their rows, with the keys that the table makes and at the times that they start.
  unfoldable pub write : (ℕ → Text) → (ℕ → ℕ) → List Spawned → Executions → Executions
  write key time [] es = es
  write key time (s ∷ ss) es = begin (key (length ss)) (time (length ss)) s (write key time ss es)

  burst-free :
      (n : ℕ) (es : Executions)
      → count_running job.id es ≡ 0
      → let w = burst n (record { executions = es; spawned = [] }) in
        (w.executions ≡ es)
        × (length w.spawned ≡ n)
        × All (λ s. s ≡ record { job = job; triggered_by = lit "schedule" }) w.spawned
  unfolding burst
  burst-free zero es free = (refl, refl, tt)
  burst-free (suc n) es free =
      let (same, many, all) = burst-free n es free in
      rw (same, fire-free free) (refl, ap suc many, (refl, all))

  count-write :
      (key : ℕ → Text) (time : ℕ → ℕ) (ss : List Spawned) (es : Executions)
      → All (λ s. s ≡ record { job = job; triggered_by = lit "schedule" }) ss
      → count_running job.id (write key time ss es) ≡ length ss + count_running job.id es
  unfolding write
  count-write key time [] es own = omega arith
  count-write key time (s ∷ ss) es (its, own) = rw its (
      ground (
        arith,
        count-begin-own (key (length ss)) (time (length ss)) (lit "schedule")
            (write key time ss es),
        count-write key time ss es own,
      ))

  -- Under the policy "Forbid", where no execution of the job runs and no count fails: any number of
  -- callbacks of the schedule that come before the first of their runs has written its row each start
  -- a run, and once these have written their rows, as many executions of the job run at once.
  pub forbid_race :
      (n : ℕ) (key : ℕ → Text) (time : ℕ → ℕ) (es : Executions)
      → count_running job.id es ≡ 0
      → let w = burst n (record { executions = es; spawned = [] }) in
        (length w.spawned ≡ n) × (count_running job.id (write key time w.spawned w.executions) ≡ n)
  forbid_race n key time es free =
      let (same, many, own) = burst-free n es free in
      (
        many,
        rw same (
            ground (
              arith,
              count-write key time (burst n (record { executions = es; spawned = [] })).spawned es
                  own,
              many,
              free,
            )),
      )
