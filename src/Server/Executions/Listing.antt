-- ===== src/Server/Executions/Listing.antt =====
-- What the list of executions holds.
use mathlib.Core.Path.{subst}
use mathlib.Core.List.{Memᴰ}
use irwandhi_gitops_lab.Base.{
  ℕ, ◌≤◌, ◌≡◌, refl, ◌⊎◌, true, false, some, List, [], ◌∷◌, arith, All, take, drop, length, inl,
  inr, Bool-cases, Option-cases,
}
use irwandhi_gitops_lab.Text.{Text, eq_text_iff}
use irwandhi_gitops_lab.Server.Store.{JobRow, ExecutionRow, find, order_by}
use irwandhi_gitops_lab.Server.Store.Ordering.{
  All-take, All-drop, All-order_by, length-take, length-take-le, IsOrdered, take-IsOrdered,
  drop-IsOrdered, order_by-IsOrdered,
}
use irwandhi_gitops_lab.Server.Answer.{ok}
use irwandhi_gitops_lab.Server.Jobs.{Jobs, has_id, is_owned}
use irwandhi_gitops_lab.Server.Executor.{Executions}
use irwandhi_gitops_lab.Server.Query.{ℤ, atoi}
use irwandhi_gitops_lab.Server.Executions.Visibility.{select_mine, select_foreign, joined-some}
use irwandhi_gitops_lab.Server.Executions.{
  Execution, shown, joined, select, newest_first, page, Reading, respond, limit_of, of_job,
  list_executions,
}

-- An execution that is shown to a user: a row of the table under the name of its job, which is one of
-- the user's, and which the query of the request names if it names any.
abbrev pub IsShown : Text → Text → Jobs → Executions → Execution → Type 0
IsShown uid job_id jobs es x =
    (e : ExecutionRow) × Memᴰ e es
    × (job : JobRow) × (find (has_id e.job_id) jobs ≡ some job)
    × (is_owned uid job ≡ true)
    × (x ≡ shown job.name e)
    × ((job_id ≡ []) ⊎ (e.job_id ≡ job_id))

IsShown-later :
    (uid job_id : Text) (jobs : Jobs) (e : ExecutionRow) (es : Executions) (xs : List Execution)
    → All (IsShown uid job_id jobs es) xs
    → All (IsShown uid job_id jobs (e ∷ es)) xs
IsShown-later uid job_id jobs e es [] h = tt
IsShown-later uid job_id jobs e es (x ∷ xs) (h, hs) =
    ((h.0, Memᴰ.tail h.1, h.2, h.3, h.4, h.5, h.6), IsShown-later uid job_id jobs e es xs hs)

of_job-eq :
    (job_id : Text) (e : ExecutionRow)
    → of_job job_id e ≡ true
    → (job_id ≡ []) ⊎ (e.job_id ≡ job_id)
unfolding of_job
of_job-eq [] e h = inl refl
of_job-eq (c ∷ job_id) e h = inr ((eq_text_iff e.job_id (c ∷ job_id)).0 h)

select-IsShown :
    (uid job_id : Text) (jobs : Jobs) (es : Executions)
    → All (IsShown uid job_id jobs es) (select uid (of_job job_id) jobs es)
select-IsShown uid job_id jobs [] = unfold select in tt
select-IsShown uid job_id jobs (e ∷ es) = elim (Option-cases (joined uid jobs e)) [
  | inl foreign ↦
      rw (select_foreign uid (of_job job_id) jobs e es foreign)
        (IsShown-later uid job_id jobs e es _ (select-IsShown uid job_id jobs es))
  | inr (name, mine) ↦
      let later = IsShown-later uid job_id jobs e es _ (select-IsShown uid job_id jobs es) in
      let (job, found, owned, named) = joined-some uid jobs e mine in
      rw (select_mine uid (of_job job_id) jobs e es mine) (elim (Bool-cases (of_job job_id e)) [
        | inl fits ↦
            rw fits (
              (e, Memᴰ.head refl, job, found, owned, rw named refl, of_job-eq job_id e fits),
              later,
            )
        | inr misfit ↦ rw misfit later
      ])
]

respond-keeps {κ} :
    (P : List Execution → Type κ) (reading : Reading) {xs ys : List Execution} {code : ℕ}
    → P xs
    → ((n : ℕ) → P (take n xs))
    → respond reading xs ≡ ok code ys
    → P ys
unfolding respond
respond-keeps P (Reading.refused message) h k e = cc
respond-keeps P Reading.whole h k e = subst P (cc) h
respond-keeps P (Reading.broken n) h k e = subst P (cc) (k n)

page-All {κ} :
    (P : Execution → Type κ) (limit offset : ℤ) (xs : List Execution)
    → All P xs
    → All P (page limit offset xs)
unfolding page
page-All P (ℤ.pos l) (ℤ.pos o) xs h = All-take P l (drop o xs) (All-drop P o xs h)
page-All P (ℤ.pos l) (ℤ.negsuc o) xs h = tt
page-All P (ℤ.negsuc l) o xs h = tt

page-IsOrdered :
    (limit offset : ℤ) (xs : List Execution)
    → IsOrdered newest_first xs
    → IsOrdered newest_first (page limit offset xs)
unfolding page
page-IsOrdered (ℤ.pos l) (ℤ.pos o) xs h =
    take-IsOrdered newest_first l (drop o xs) (drop-IsOrdered newest_first o xs h)
page-IsOrdered (ℤ.pos l) (ℤ.negsuc o) xs h = tt
page-IsOrdered (ℤ.negsuc l) o xs h = tt

-- The number of rows that a limit leaves at most.
abbrev pub at_most : ℤ → ℕ
at_most (ℤ.pos limit) = limit
at_most (ℤ.negsuc n) = 0

page-length :
    (limit offset : ℤ) (xs : List Execution) → length (page limit offset xs) ≤ at_most limit
unfolding page
page-length (ℤ.pos l) (ℤ.pos o) xs = length-take l (drop o xs)
page-length (ℤ.pos l) (ℤ.negsuc o) xs = omega arith
page-length (ℤ.negsuc l) o xs = omega arith

newest_first_total : (x y : Execution) → newest_first x y ≡ false → newest_first y x ≡ true
unfolding newest_first
newest_first_total x y h = ground arith

newest_first_trans :
    (x y z : Execution)
    → newest_first x y ≡ true
    → newest_first y z ≡ true
    → newest_first x z ≡ true
unfolding newest_first
newest_first_trans x y z h k = ground arith

-- A list in time order, of executions of the user's jobs, and no longer than asked for.
abbrev pub IsListing : Text → Text → ℤ → Jobs → Executions → List Execution → Type 0
IsListing uid job_id limit jobs es xs =
    All (IsShown uid job_id jobs es) xs × IsOrdered newest_first xs × (length xs ≤ at_most limit)

-- Whatever the query of the request and however its reading goes, a list that is answered holds only
-- rows of the table whose jobs are the user's, and the one named in the query if one is named; it
-- goes from the newest to the oldest, and is no longer than the limit that the query comes to.
pub list_executions-IsListing :
    (uid job_id limit offset : Text) (reading : Reading) (jobs : Jobs) (es : Executions) {code : ℕ}
    {xs : List Execution}
    → list_executions uid job_id limit offset reading jobs es ≡ ok code xs
    → IsListing uid job_id (limit_of (atoi limit)) jobs es xs
unfolding list_executions
list_executions-IsListing uid job_id limit offset reading jobs es h =
    let rows = order_by newest_first (select uid (of_job job_id) jobs es) in
    let asked = page (limit_of (atoi limit)) (atoi offset) rows in
    let kept : IsListing uid job_id (limit_of (atoi limit)) jobs es asked = (
      page-All (IsShown uid job_id jobs es) (limit_of (atoi limit)) (atoi offset) rows (
          All-order_by newest_first (IsShown uid job_id jobs es)
            (select uid (of_job job_id) jobs es) (select-IsShown uid job_id jobs es)),
      page-IsOrdered (limit_of (atoi limit)) (atoi offset) rows (
          order_by-IsOrdered newest_first newest_first_total newest_first_trans
            (select uid (of_job job_id) jobs es)),
      page-length (limit_of (atoi limit)) (atoi offset) rows,
    ) in
    respond-keeps (IsListing uid job_id (limit_of (atoi limit)) jobs es) reading kept
      (λ n. (
        All-take (IsShown uid job_id jobs es) n asked kept.0,
        take-IsOrdered newest_first n asked kept.1,
        omega (arith, length-take-le n asked, kept.2),
      ))
      h
