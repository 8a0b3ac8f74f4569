-- ===== src/Server/Store.antt =====
-- The tables of jobs and executions of apps/cronpilot-api/db/schema.sql, as lists of rows.
pub mod Laws
pub mod Ordering
pub mod Sums
use irwandhi_gitops_lab.Base.{
  ℕ, ◌+◌, Bool, true, false, Option, none, some, List, [], ◌∷◌, if◌then◌else◌,
}
use irwandhi_gitops_lab.Text.{Text}

-- A value of the type uuid, in the one spelling that `::text` gives it, so that two values are the same
-- exactly if their texts are. A statement's `$n::uuid` is such a value: what the database reads from
-- the text that it is given, in whatever spelling; a text that is no UUID makes the statement fail.
abbrev pub Uuid : Type 0
Uuid = Text

-- Times are in milliseconds.
pub record JobRow : Type 0 where
  pub id : Uuid
  pub user_id : Option Uuid
  pub name : Text
  pub description : Text
  pub cron_expression : Text
  pub url : Text
  pub method : Text
  pub headers : Text
  pub body : Option Text
  pub status : Text
  pub timezone : Text
  pub timeout_seconds : ℕ
  pub concurrency_policy : Text
  pub last_run_at : Option ℕ
  pub created_at : ℕ
  pub updated_at : ℕ

pub record ExecutionRow : Type 0 where
  pub id : Uuid
  pub job_id : Uuid
  pub status : Text
  pub triggered_by : Text
  pub started_at : ℕ
  pub completed_at : Option ℕ
  pub duration_ms : Option ℕ
  pub response_status : Option ℕ
  pub response_body : Option Text
  pub error_message : Option Text
  pub cancel_requested : Bool

module _ {ℓ} {A : Type ℓ} where
  -- The first row that a test holds of: `SELECT … WHERE` on a key.
  unfoldable pub find : (A → Bool) → List A → Option A
  find test [] = none
  find test (x ∷ xs) = let rest = find test xs in if test x then some x else rest

  -- `UPDATE … SET … WHERE`.
  unfoldable pub update_where : (A → Bool) → (A → A) → List A → List A
  update_where test set [] = []
  update_where test set (x ∷ xs) =
      let rest = update_where test set xs in (if test x then set x else x) ∷ rest

  -- `COUNT(*) FILTER (WHERE …)`.
  unfoldable pub count_where : (A → Bool) → List A → ℕ
  count_where test [] = 0
  count_where test (x ∷ xs) = let rest = count_where test xs in (if test x then 1 else 0) + rest

  -- `ORDER BY`; `before` says that the first row need not stand behind the second. (Rows that are
  -- alike stand as in the table, which the database does not promise.)
  unfoldable pub insert_row : (A → A → Bool) → A → List A → List A
  insert_row before x [] = x ∷ []
  insert_row before x (y ∷ ys) =
      let rest = insert_row before x ys in if before x y then x ∷ y ∷ ys else y ∷ rest

  unfoldable pub order_by : (A → A → Bool) → List A → List A
  unfolding insert_row
  order_by before [] = []
  order_by before (x ∷ xs) = insert_row before x (order_by before xs)
