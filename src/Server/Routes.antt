-- ===== src/Server/Routes.antt =====
-- The routes of apps/cronpilot-api/main.go, and what stands between a request and its handler.
pub mod Guards
pub mod Requests
pub mod Calls
use mathlib.Core.List.{Memᴰ}
use irwandhi_gitops_lab.Base.{
  ℕ, ◌≡◌, Bool, true, false, not, ◌&&◌, Option, none, some, List, [], ◌∷◌, ◌++◌, if◌then◌else◌,
  ◌==◌, is_empty, filter,
}
use irwandhi_gitops_lab.Text.{Text, lit, eq_text}
use irwandhi_gitops_lab.Api.{Method}
use irwandhi_gitops_lab.Server.Middleware.{Claims, Gate, require_auth, require_admin}

pub data Segment : Type 0 where
  fixed : Text → Segment
  param : Segment

-- The middlewares of the group that a route stands in.
pub data Guard : Type 0 where
  anyone signed_in admin : Guard

pub data Handler : Type 0 where
  health register login : Handler
  list_jobs create_job get_job update_job delete_job pause_job resume_job trigger_job : Handler
  change_password : Handler
  report_summary report_timeline report_jobs report_csv : Handler
  list_executions list_running_executions get_execution : Handler
  admin_list_users admin_create_user admin_update_user admin_delete_user : Handler
  admin_list_jobs admin_create_job admin_update_job admin_delete_job : Handler
  admin_pause_job admin_resume_job admin_trigger_job : Handler

pub record Route : Type 0 where
  pub method : Method
  pub pattern : List Segment
  pub guard : Guard
  pub handler : Handler

-- A route under `/api`.
abbrev pub route : Guard → Method → List Segment → Handler → Route
route guard method pattern handler = record {
  method = method;
  pattern = Segment.fixed (lit "api") ∷ pattern;
  guard = guard;
  handler = handler;
}

abbrev pub one : Text → List Segment
one a = Segment.fixed a ∷ []

abbrev pub two : Text → Text → List Segment
two a b = Segment.fixed a ∷ Segment.fixed b ∷ []

-- `/a/{id}`, and `/a/{id}/b`.
abbrev pub of_id : Text → List Segment
of_id a = Segment.fixed a ∷ Segment.param ∷ []

abbrev pub act : Text → Text → List Segment
act a b = Segment.fixed a ∷ Segment.param ∷ Segment.fixed b ∷ []

abbrev pub public_routes : List Route
public_routes =
    route Guard.anyone Method.get (one (lit "health")) Handler.health
    ∷ route Guard.anyone Method.post (two (lit "auth") (lit "register")) Handler.register
    ∷ route Guard.anyone Method.post (two (lit "auth") (lit "login")) Handler.login
    ∷ []

abbrev pub user_routes : List Route
user_routes =
    route Guard.signed_in Method.get (one (lit "jobs")) Handler.list_jobs
    ∷ route Guard.signed_in Method.post (one (lit "jobs")) Handler.create_job
    ∷ route Guard.signed_in Method.get (of_id (lit "jobs")) Handler.get_job
    ∷ route Guard.signed_in Method.put (of_id (lit "jobs")) Handler.update_job
    ∷ route Guard.signed_in Method.delete (of_id (lit "jobs")) Handler.delete_job
    ∷ route Guard.signed_in Method.post (act (lit "jobs") (lit "pause")) Handler.pause_job
    ∷ route Guard.signed_in Method.post (act (lit "jobs") (lit "resume")) Handler.resume_job
    ∷ route Guard.signed_in Method.post (act (lit "jobs") (lit "trigger")) Handler.trigger_job
    ∷ route Guard.signed_in Method.put (two (lit "profile") (lit "password"))
        Handler.change_password
    ∷ route Guard.signed_in Method.get (two (lit "report") (lit "summary")) Handler.report_summary
    ∷ route Guard.signed_in Method.get (two (lit "report") (lit "timeline")) Handler.report_timeline
    ∷ route Guard.signed_in Method.get (two (lit "report") (lit "jobs")) Handler.report_jobs
    ∷ route Guard.signed_in Method.get (two (lit "report") (lit "executions.csv"))
        Handler.report_csv
    ∷ route Guard.signed_in Method.get (one (lit "executions")) Handler.list_executions
    ∷ route Guard.signed_in Method.get (two (lit "executions") (lit "running"))
        Handler.list_running_executions
    ∷ route Guard.signed_in Method.get (of_id (lit "executions")) Handler.get_execution
    ∷ []

abbrev pub under : Text → List Segment → List Segment
under a pattern = Segment.fixed a ∷ pattern

abbrev pub admin_routes : List Route
admin_routes =
    route Guard.admin Method.get (two (lit "admin") (lit "users")) Handler.admin_list_users
    ∷ route Guard.admin Method.post (two (lit "admin") (lit "users")) Handler.admin_create_user
    ∷ route Guard.admin Method.patch (under (lit "admin") (of_id (lit "users")))
        Handler.admin_update_user
    ∷ route Guard.admin Method.delete (under (lit "admin") (of_id (lit "users")))
        Handler.admin_delete_user
    ∷ route Guard.admin Method.get (two (lit "admin") (lit "jobs")) Handler.admin_list_jobs
    ∷ route Guard.admin Method.post (two (lit "admin") (lit "jobs")) Handler.admin_create_job
    ∷ route Guard.admin Method.put (under (lit "admin") (of_id (lit "jobs")))
        Handler.admin_update_job
    ∷ route Guard.admin Method.delete (under (lit "admin") (of_id (lit "jobs")))
        Handler.admin_delete_job
    ∷ route Guard.admin Method.post (under (lit "admin") (act (lit "jobs") (lit "pause")))
        Handler.admin_pause_job
    ∷ route Guard.admin Method.post (under (lit "admin") (act (lit "jobs") (lit "resume")))
        Handler.admin_resume_job
    ∷ route Guard.admin Method.post (under (lit "admin") (act (lit "jobs") (lit "trigger")))
        Handler.admin_trigger_job
    ∷ []

unfoldable pub routes : List Route
unfolding lit
routes = public_routes ++ (user_routes ++ admin_routes)

-- The segments of a URL's path, which ends where a query begins.
unfoldable pub segments_from : Text → Text → List Text
segments_from cur [] = cur ∷ []
segments_from cur (c ∷ s) =
    let rest = segments_from (if c == b'/' then [] else cur ++ c ∷ []) s in
    if c == b'?' then cur ∷ [] else if c == b'/' then cur ∷ rest else rest

unfoldable pub segments : Text → List Text
unfolding segments_from
segments [] = []
segments (c ∷ s) = segments_from [] s

-- Whether a path is one of a pattern's: `{id}` stands for any one segment.
unfoldable pub fits : List Segment → List Text → Bool
fits [] [] = true
fits (Segment.fixed t ∷ ps) (s ∷ ss) = eq_text t s && fits ps ss
fits (Segment.param ∷ ps) (s ∷ ss) = not (is_empty s) && fits ps ss
fits _ _ = false

unfoldable pub eq_method : Method → Method → Bool
eq_method Method.get Method.get = true
eq_method Method.post Method.post = true
eq_method Method.put Method.put = true
eq_method Method.patch Method.patch = true
eq_method Method.delete Method.delete = true
eq_method _ _ = false

unfoldable pub serves : Method → Text → Route → Bool
unfolding fits segments eq_method
serves method url r = eq_method r.method method && fits r.pattern (segments url)

unfoldable pub is_static : List Segment → Bool
is_static [] = true
is_static (Segment.fixed t ∷ ps) = is_static ps
is_static (Segment.param ∷ ps) = false

-- The router, chi: it takes a route of the request's method and path, and one without parameters
-- before one with.
pub record Mux : Type 0 where
  pub dispatch : List Route → Method → Text → Option Route
  pub only :
      (rs : List Route) (method : Method) (url : Text) (r : Route)
      → dispatch rs method url ≡ some r
      → Memᴰ r rs × (serves method url r ≡ true)
  pub found :
      (rs : List Route) (method : Method) (url : Text) (r : Route)
      → filter (serves method url) rs ≡ r ∷ []
      → dispatch rs method url ≡ some r
  pub static_first :
      (rs : List Route) (method : Method) (url : Text) (r q : Route)
      → filter (serves method url) rs ≡ r ∷ q ∷ []
      → is_static r.pattern ≡ true
      → is_static q.pattern ≡ false
      → dispatch rs method url ≡ some r

-- What becomes of a request before its handler runs.
pub data Reached : Type 0 where
  missing : Reached
  turned_away : ℕ → Text → Reached
  handled : Handler → Option Claims → Reached

unfoldable pub enter : Handler → Gate → Reached
enter h (Gate.refused status message) = Reached.turned_away status message
enter h (Gate.passed claims) = Reached.handled h (some claims)

unfoldable pub guarded : Guard → Handler → Gate → Reached
unfolding enter require_admin
guarded Guard.anyone h gate = Reached.handled h none
guarded Guard.signed_in h gate = enter h gate
guarded Guard.admin h gate = enter h (require_admin gate)

unfoldable pub serve : Mux → (Text → Option Claims) → Method → Text → Option Text → Reached
unfolding guarded require_auth routes
serve mux parse method url authorization = elim (mux.dispatch routes method url) [
  | none ↦ Reached.missing
  | some r ↦ guarded r.guard r.handler (require_auth parse authorization)
]
