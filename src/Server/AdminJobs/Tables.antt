-- ===== src/Server/AdminJobs/Tables.antt =====
-- The tables of jobs that the calls of owners and of administrators lead to.
use irwandhi_gitops_lab.Base.{
  ℕ, ◌≡◌, refl, ◌⊎◌, inl, inr, Bool, not, Option, none, some, [], ◌∷◌, arith, filter, All,
  Option-cases, Bool-cases,
}
use irwandhi_gitops_lab.Text.{Text, lit}
use irwandhi_gitops_lab.Server.Store.{JobRow, find, update_where}
use irwandhi_gitops_lab.Server.Jobs.{
  JobInput, Jobs, has_id, update_row, delete_row, set_fields, set_status, inserted, create_job,
  update_job, delete_job, set_job_status, pause_job, resume_job,
}
use irwandhi_gitops_lab.Server.Jobs.Calls.{Call, run}
use irwandhi_gitops_lab.Server.Jobs.Calls.Refinement.{IsKeyed}
use irwandhi_gitops_lab.Server.AdminJobs.{
  admin_create_job, admin_update_job, admin_delete_job, admin_set_job_status, admin_pause_job,
  admin_resume_job,
}

pub data Action : Type 0 where
  owned : Text → Call → Action
  create : Text → Option (JobInput × Text) → Option Text → Action
  update : Text → Option JobInput → Option Text → Action
  remove pause resume : Text → Option Text → Action

unfoldable pub perform : ℕ → Action → Jobs → Jobs
unfolding run admin_create_job admin_update_job admin_delete_job admin_pause_job admin_resume_job
perform now (Action.owned uid call) jobs = (run uid now call jobs).0
perform now (Action.create id b fault) jobs = (admin_create_job id now b fault jobs).0
perform now (Action.update id b fault) jobs = (admin_update_job id now b fault jobs).0
perform now (Action.remove id fault) jobs = (admin_delete_job id fault jobs).0
perform now (Action.pause id fault) jobs = (admin_pause_job id now fault jobs).0
perform now (Action.resume id fault) jobs = (admin_resume_job id now fault jobs).0

-- The table makes an id that no row has.
abbrev IsFresh : Action → Jobs → Type 0
IsFresh (Action.owned uid (Call.create id b fault)) jobs = find (has_id id) jobs ≡ none
IsFresh (Action.create id b fault) jobs = find (has_id id) jobs ≡ none
IsFresh _ jobs = Unit

pub data Reach : Jobs → Type 0 where
  start : Reach []
  next :
      {jobs : Jobs} (now : ℕ) (action : Action)
      → Reach jobs
      → IsFresh action jobs
      → Reach (perform now action jobs)

abbrev IsKnown : JobRow → Type 0
IsKnown row = (row.status ≡ lit "active") ⊎ (row.status ≡ lit "paused")

abbrev pub IsSound : Jobs → Type 0
IsSound jobs = IsKeyed jobs × All IsKnown jobs

still_free_update :
    (id : Text) (test : JobRow → Bool) (set : JobRow → JobRow) (jobs : Jobs)
    → ((row : JobRow) → (set row).id ≡ row.id)
    → find (has_id id) jobs ≡ none
    → find (has_id id) (update_where test set jobs) ≡ none
unfolding find update_where has_id
still_free_update id test set [] keeps free = refl
still_free_update id test set (row ∷ rows) keeps free =
    ground (arith, still_free_update id test set rows keeps, keeps row, free)

still_free_filter :
    (id : Text) (keep : JobRow → Bool) (jobs : Jobs)
    → find (has_id id) jobs ≡ none
    → find (has_id id) (filter keep jobs) ≡ none
unfolding find filter
still_free_filter id keep [] free = refl
still_free_filter id keep (row ∷ rows) free = ground (arith, still_free_filter id keep rows, free)

filter-IsSound : (keep : JobRow → Bool) (jobs : Jobs) → IsSound jobs → IsSound (filter keep jobs)
unfolding filter
filter-IsSound keep [] s = s
filter-IsSound keep (row ∷ rows) ((free, keyed), (known, knowns)) =
    let (keyed', knowns') = filter-IsSound keep rows (keyed, knowns) in
    elim (Bool-cases (keep row)) [
      | inl e ↦ rw e ((still_free_filter row.id keep rows free, keyed'), (known, knowns'))
      | inr e ↦ rw e (keyed', knowns')
    ]

delete_row-IsSound :
    (test : JobRow → Bool) (fault : Option Text) (jobs : Jobs)
    → IsSound jobs
    → IsSound (delete_row test fault jobs).0
unfolding delete_row
delete_row-IsSound test (some fault) jobs s = s
delete_row-IsSound test none jobs s = elim (Option-cases (find test jobs)) [
  | inl e ↦ rw (e, delete_row) s
  | inr (row, e) ↦ rw (e, delete_row) (filter-IsSound (λ r. not (test r)) jobs s)
]

-- One update, which keeps ids and known statuses.
module _ (test : JobRow → Bool) (set : JobRow → JobRow)
    (keeps : (row : JobRow) → (set row).id ≡ row.id)
    (sound : (row : JobRow) → IsKnown row → IsKnown (set row)) where
  update_where-IsSound : (jobs : Jobs) → IsSound jobs → IsSound (update_where test set jobs)
  unfolding update_where
  update_where-IsSound [] s = s
  update_where-IsSound (row ∷ rows) ((free, keyed), (known, knowns)) =
      let (keyed', knowns') = update_where-IsSound rows (keyed, knowns) in
      elim (Bool-cases (test row)) [
        | inl e ↦
            rw (e, keeps row)
              (
                (still_free_update row.id test set rows keeps free, keyed'),
                (sound row known, knowns'),
              )
        | inr e ↦
            rw e ((still_free_update row.id test set rows keeps free, keyed'), (known, knowns'))
      ]

  update_row-IsSound :
      (missing : Text) (fault : Option Text) (jobs : Jobs)
      → IsSound jobs
      → IsSound (update_row test set missing fault jobs).0
  unfolding update_row
  update_row-IsSound missing (some fault) jobs s = s
  update_row-IsSound missing none jobs s = elim (Option-cases (find test jobs)) [
    | inl e ↦ rw (e, update_row) s
    | inr (row, e) ↦ rw (e, update_row) (update_where-IsSound jobs s)
  ]

run-IsSound :
    (uid : Text) (now : ℕ) (call : Call) (jobs : Jobs)
    → IsFresh (Action.owned uid call) jobs
    → IsSound jobs
    → IsSound (run uid now call jobs).0
unfolding run create_job update_job delete_job pause_job resume_job set_job_status set_fields
    set_status inserted
run-IsSound uid now (Call.create id none fault) jobs fresh s = s
run-IsSound uid now (Call.create id (some b) (some fault)) jobs fresh s = s
run-IsSound uid now (Call.create id (some b) none) jobs fresh (keyed, knowns) =
    ((fresh, keyed), (inl refl, knowns))
run-IsSound uid now (Call.update id none fault) jobs fresh s = s
run-IsSound uid now (Call.update id (some b) fault) jobs fresh s =
    update_row-IsSound _ _ (λ row. refl) (λ row h. h) _ fault jobs s
run-IsSound uid now (Call.remove id fault) jobs fresh s = delete_row-IsSound _ fault jobs s
run-IsSound uid now (Call.pause id fault) jobs fresh s =
    update_row-IsSound _ _ (λ row. refl) (λ row h. inr refl) _ fault jobs s
run-IsSound uid now (Call.resume id fault) jobs fresh s =
    update_row-IsSound _ _ (λ row. refl) (λ row h. inl refl) _ fault jobs s

perform-IsSound :
    (now : ℕ) (action : Action) (jobs : Jobs)
    → IsFresh action jobs
    → IsSound jobs
    → IsSound (perform now action jobs)
unfolding perform admin_create_job admin_update_job admin_delete_job admin_set_job_status
    admin_pause_job admin_resume_job set_fields set_status inserted
perform-IsSound now (Action.owned uid call) jobs fresh s = run-IsSound uid now call jobs fresh s
perform-IsSound now (Action.create id none fault) jobs fresh s = s
perform-IsSound now (Action.create id (some (b, [])) fault) jobs fresh s = s
perform-IsSound now (Action.create id (some (b, c ∷ cs)) (some fault)) jobs fresh s = s
perform-IsSound now (Action.create id (some (b, c ∷ cs)) none) jobs fresh (keyed, knowns) =
    ((fresh, keyed), (inl refl, knowns))
perform-IsSound now (Action.update id none fault) jobs fresh s = s
perform-IsSound now (Action.update id (some b) fault) jobs fresh s =
    update_row-IsSound _ _ (λ row. refl) (λ row h. h) _ fault jobs s
perform-IsSound now (Action.remove id fault) jobs fresh s = delete_row-IsSound _ fault jobs s
perform-IsSound now (Action.pause id fault) jobs fresh s =
    update_row-IsSound _ _ (λ row. refl) (λ row h. inr refl) _ fault jobs s
perform-IsSound now (Action.resume id fault) jobs fresh s =
    update_row-IsSound _ _ (λ row. refl) (λ row h. inl refl) _ fault jobs s

-- Whatever owners and administrators call, in any order, the ids of the table stay distinct and
-- each job stays active or paused, provided that the id of a new job is new.
pub Reach-IsSound : {jobs : Jobs} → Reach jobs → IsSound jobs
Reach-IsSound start = (tt, tt)
Reach-IsSound (next {jobs} now action reach fresh) =
    perform-IsSound now action jobs fresh (Reach-IsSound reach)
