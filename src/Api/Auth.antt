-- ===== src/Api/Auth.antt =====
-- apps/cronpilot-frontend/src/api/auth.js.
use irwandhi_gitops_lab.Text.{Text, lit}
use irwandhi_gitops_lab.Json.{Json, Object}
use irwandhi_gitops_lab.Api.{Method, Request, send}

abbrev pair : Text → Text → Text → Text → Json
pair k v j w = Json.obj (Object.entry k (Json.str v) (Object.entry j (Json.str w) Object.empty))

unfoldable pub login : Text → Text → Request
login email password =
    send Method.post (lit "/auth/login") (pair (lit "email") email (lit "password") password)

unfoldable pub register : Text → Text → Request
register email password =
    send Method.post (lit "/auth/register") (pair (lit "email") email (lit "password") password)

unfoldable pub change_password : Text → Text → Request
change_password current_password new_password =
    send Method.put (lit "/profile/password")
      (pair (lit "current_password") current_password (lit "new_password") new_password)
