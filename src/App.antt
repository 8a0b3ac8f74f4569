-- ===== src/App.antt =====
-- apps/cronpilot-frontend/src/App.jsx: the route table, and where a visit to a page ends.
pub mod Landing
use irwandhi_gitops_lab.Base.{ℕ, zero, suc, Option, none, some, ◌≡◌, ◌++◌}
use irwandhi_gitops_lab.Text.{Text, lit}
use irwandhi_gitops_lab.Session.{Auth}
use irwandhi_gitops_lab.Session.Guards.{Element, shown, redirect, protected_route, admin_route}

pub data Page : Type 0 where
  login register index dashboard jobs new_job profile report admin_jobs admin_users : Page
  job_detail edit_job : Text → Page

-- The `path` of each route, under those of its parents.
unfoldable pub path_of : Page → Text
path_of Page.login = lit "/login"
path_of Page.register = lit "/register"
path_of Page.index = lit "/"
path_of Page.dashboard = lit "/dashboard"
path_of Page.jobs = lit "/jobs"
path_of Page.new_job = lit "/jobs/new"
path_of (Page.job_detail id) = lit "/jobs/" ++ id
path_of (Page.edit_job id) = lit "/jobs/" ++ (id ++ lit "/edit")
path_of Page.profile = lit "/profile"
path_of Page.report = lit "/report"
path_of Page.admin_jobs = lit "/admin/jobs"
path_of Page.admin_users = lit "/admin/users"

-- The element of the route inside `<Layout />`.
inner : Auth → Page → Element Page
inner auth Page.index = redirect (lit "/dashboard")
inner auth Page.admin_jobs = admin_route auth (shown Page.admin_jobs)
inner auth Page.admin_users = admin_route auth (shown Page.admin_users)
inner auth page = shown page

-- Both public routes stand alone; all others are children of `<ProtectedRoute><Layout />`.
unfoldable pub element : Auth → Page → Element Page
unfolding inner
element auth Page.login = shown Page.login
element auth Page.register = shown Page.register
element auth page = protected_route auth (inner auth page)

-- The router, which is a library: the page whose route a path matches. A path with no parameter
-- matches the route that spells it.
pub record Router : Type 0 where
  pub resolve : Text → Option Page
  pub resolve-login : resolve (lit "/login") ≡ some Page.login
  pub resolve-dashboard : resolve (lit "/dashboard") ≡ some Page.dashboard

module _ (router : Router) (auth : Auth) where
  -- Follows redirects; `none` stands for a path without a route, and for too many redirects.
  unfoldable pub visit : ℕ → Page → Option Page
  visit zero page = none
  visit (suc fuel) page = elim (element auth page) [
    | shown p ↦ some p
    | redirect path ↦ elim (router.resolve path) [ none ↦ none | some p ↦ visit fuel p ]
  ]
