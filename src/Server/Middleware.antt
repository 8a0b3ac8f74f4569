-- ===== src/Server/Middleware.antt =====
-- apps/cronpilot-api/middleware/auth.go: what stands before the handlers.
pub mod Tokens
use irwandhi_gitops_lab.Base.{ℕ, Option, none, some, [], drop, if◌then◌else◌}
use irwandhi_gitops_lab.Text.{Text, lit, eq_text, starts_with}

pub record Claims : Type 0 where
  pub user_id : Text
  pub email : Text
  pub role : Text

-- Either an answer, or the claims with which the request goes on.
pub data Gate : Type 0 where
  refused : ℕ → Text → Gate
  passed : Claims → Gate

-- `r.Header.Get("Authorization")`, empty where the request has none.
abbrev header : Option Text → Text
header none = []
header (some value) = value

-- `parse` is `jwt.ParseWithClaims` with the server's key: the claims of a valid token.
unfoldable pub require_auth : (Text → Option Claims) → Option Text → Gate
require_auth parse authorization =
    if starts_with (header authorization) (lit "Bearer ")
    then elim (parse (drop 7 (header authorization))) [
      | none ↦ Gate.refused 401 (lit "Invalid or expired token")
      | some claims ↦ Gate.passed claims
    ]
    else Gate.refused 401 (lit "Unauthorized")

-- Behind `require_auth`.
unfoldable pub require_admin : Gate → Gate
require_admin (Gate.refused status message) = Gate.refused status message
require_admin (Gate.passed claims) =
    if eq_text claims.role (lit "admin")
    then Gate.passed claims
    else Gate.refused 403 (lit "Forbidden")
