-- ===== src/Records.antt =====
-- The records that the server sends, as far as the client reads them; a null field is `none`.
use irwandhi_gitops_lab.Base.{ℕ, Bool, false, Option, none, some, if◌then◌else◌}
use irwandhi_gitops_lab.Text.{Text, truthy}
use irwandhi_gitops_lab.Json.{Object}

-- `object` is the parsed object itself, which the forms spread.
pub record Job : Type 0 where
  pub id : Text
  pub user_id : Option Text
  pub name : Text
  pub description : Option Text
  pub cron_expression : Text
  pub url : Text
  pub method : Text
  pub body : Option Text
  pub status : Text
  pub timezone : Text
  pub timeout_seconds : ℕ
  pub concurrency_policy : Option Text
  pub last_run_at : Option Text
  pub owner_email : Option Text
  pub object : Object

pub record Execution : Type 0 where
  pub id : Text
  pub job_id : Text
  pub job_name : Text
  pub status : Text
  pub triggered_by : Text
  pub started_at : Text
  pub duration_ms : Option ℕ
  pub response_status : Option ℕ
  pub error_message : Option Text

pub record Account : Type 0 where
  pub id : Text
  pub email : Text
  pub role : Text
  pub job_count : ℕ
  pub created_at : Text

-- `!!s` for a text that may be null or missing.
unfoldable pub is_set : Option Text → Bool
is_set none = false
is_set (some s) = truthy s

-- `s || d` for a text that may be null or missing.
unfoldable pub text_or : Option Text → Text → Text
text_or none d = d
text_or (some s) d = if truthy s then s else d

-- The date library: both texts are made from `new Date(s)`.
pub record Dates : Type 0 where
  pub distance_to_now : Text → Text
  pub format_long : Text → Text
