-- ===== src/Server/Executions/Visibility.antt =====
-- On which executions an answer depends.
use mathlib.Core.Path.{subst}
use irwandhi_gitops_lab.Base.{
  ◌≡◌, refl, sym, ap, ◌∙◌, Bool, true, false, none, some, [], ◌∷◌, arith, if◌then◌else◌, filter,
  inl, inr, Bool-cases, Option-cases,
}
use irwandhi_gitops_lab.Text.{Text, lit, eq_text}
use irwandhi_gitops_lab.Server.Store.{JobRow, ExecutionRow, find, order_by}
use irwandhi_gitops_lab.Server.Jobs.{is_job_of, has_id, is_owned, Jobs}
use irwandhi_gitops_lab.Server.Executor.{Executions}
use irwandhi_gitops_lab.Server.Query.{atoi}
use irwandhi_gitops_lab.Server.Executions.{
  shown, joined, select, newest_first, oldest_first, first_row, page, Reading, respond, limit_of,
  of_job, list_executions, list_running_executions, get_execution,
}

pub select_mine :
    (uid : Text) (test : ExecutionRow → Bool) (jobs : Jobs) (e : ExecutionRow) (es : Executions)
    {name : Text}
    → joined uid jobs e ≡ some name
    → select uid test jobs (e ∷ es)
      ≡ (if test e then shown name e ∷ select uid test jobs es else select uid test jobs es)
unfolding select
select_mine uid test jobs e es mine = rw (mine, select) refl

pub select_foreign :
    (uid : Text) (test : ExecutionRow → Bool) (jobs : Jobs) (e : ExecutionRow) (es : Executions)
    → joined uid jobs e ≡ none
    → select uid test jobs (e ∷ es) ≡ select uid test jobs es
unfolding select
select_foreign uid test jobs e es foreign = rw (foreign, select) refl

-- Whether the table has a job of the user's that the execution is of.
unfoldable pub is_of_user : Text → Jobs → ExecutionRow → Bool
is_of_user uid jobs e = elim (find (is_job_of uid e.job_id) jobs) [ none ↦ false | some job ↦ true ]

unfoldable pub of_user : Text → Jobs → Executions → Executions
of_user uid jobs es = filter (is_of_user uid jobs) es

find_narrow :
    (uid id : Text) (jobs : Jobs) (job : JobRow)
    → find (has_id id) jobs ≡ some job
    → is_owned uid job ≡ true
    → find (is_job_of uid id) jobs ≡ some job
unfolding find is_job_of
find_narrow uid id [] job found owned = cc
find_narrow uid id (j ∷ jobs) job found owned = elim (Bool-cases (has_id id j)) [
  | inl hit ↦
      let same : j ≡ job = ground arith in
      let mine : is_owned uid j ≡ true = subst (λ k. is_owned uid k ≡ true) (sym same) owned in
      rw (hit, mine) (ap some same)
  | inr miss ↦ rw miss (find_narrow uid id jobs job (rw (miss, find) at found) owned)
]

pub joined-some :
    (uid : Text) (jobs : Jobs) (e : ExecutionRow) {name : Text}
    → joined uid jobs e ≡ some name
    → (job : JobRow) × (find (has_id e.job_id) jobs ≡ some job)
      × (is_owned uid job ≡ true)
      × (name ≡ job.name)
unfolding joined
joined-some uid jobs e h = elim (Option-cases (find (has_id e.job_id) jobs)) [
  | inl lost ↦ let h' = rw (lost, joined) at h in cc
  | inr (job, found) ↦ let h' = rw (found, joined) at h in (job, found, ground arith, ground arith)
]

joined-is_of_user :
    (uid : Text) (jobs : Jobs) (e : ExecutionRow) {name : Text}
    → joined uid jobs e ≡ some name
    → is_of_user uid jobs e ≡ true
unfolding is_of_user
joined-is_of_user uid jobs e h =
    let (job, found, owned, named) = joined-some uid jobs e h in
    rw (find_narrow uid e.job_id jobs job found owned, is_of_user) refl

select-of_user :
    (uid : Text) (test : ExecutionRow → Bool) (jobs : Jobs) (es : Executions)
    → select uid test jobs (of_user uid jobs es) ≡ select uid test jobs es
unfolding of_user filter
select-of_user uid test jobs [] = refl
select-of_user uid test jobs (e ∷ es) = elim (Option-cases (joined uid jobs e)) [
  | inl foreign ↦ elim (Bool-cases (is_of_user uid jobs e)) [
    | inl kept ↦
        rw
          (
            kept,
            select_foreign uid test jobs e es foreign,
            select_foreign uid test jobs e (of_user uid jobs es) foreign,
          )
          (select-of_user uid test jobs es)
    | inr dropped ↦
        rw (dropped, select_foreign uid test jobs e es foreign) (select-of_user uid test jobs es)
  ]
  | inr (name, mine) ↦
      rw
        (
          joined-is_of_user uid jobs e mine,
          select_mine uid test jobs e es mine,
          select_mine uid test jobs e (of_user uid jobs es) mine,
          select-of_user uid test jobs es,
        )
        refl
]

-- What a user is answered about executions depends only on those of the user's own jobs: where two
-- tables have the same of these, all three handlers answer the same.
pub answers-own :
    (uid : Text) (jobs : Jobs) (es es' : Executions)
    → of_user uid jobs es ≡ of_user uid jobs es'
    → ((job_id limit offset : Text) (reading : Reading)
        → list_executions uid job_id limit offset reading jobs es
          ≡ list_executions uid job_id limit offset reading jobs es')
      × ((reading : Reading)
          → list_running_executions uid reading jobs es
            ≡ list_running_executions uid reading jobs es')
      × ((id : Text) → get_execution uid id jobs es ≡ get_execution uid id jobs es')
unfolding list_executions list_running_executions get_execution
answers-own uid jobs es es' same =
    let alike : (test : ExecutionRow → Bool) → select uid test jobs es ≡ select uid test jobs es' =
      λ test.
        sym (select-of_user uid test jobs es)
        ∙ (ap (select uid test jobs) same ∙ select-of_user uid test jobs es') in
    (
      λ job_id limit offset reading.
          ap
            (λ xs.
              respond reading
                (page (limit_of (atoi limit)) (atoi offset) (order_by newest_first xs)))
            (alike (of_job job_id)),
      λ reading.
          ap (λ xs. respond reading (order_by oldest_first xs))
            (alike (λ e. eq_text e.status (lit "running"))),
      λ id. ap first_row (alike (λ e. eq_text e.id id)),
    )
