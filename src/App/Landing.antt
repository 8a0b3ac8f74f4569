-- ===== src/App/Landing.antt =====
-- Redirects end, and end on a page that the session may see.
use irwandhi_gitops_lab.Base.{ℕ, suc, some, ◌≡◌, ◌≢◌, refl, ◌∙◌, ap, Bool, true, false, arith}
use irwandhi_gitops_lab.Session.{Auth, is_authenticated, is_admin}
use irwandhi_gitops_lab.Session.Guards.{protected_route, admin_route}
use irwandhi_gitops_lab.App.{Page, Router, element, visit}

-- The pages that a session may see.
abbrev pub IsAllowed : Auth → Page → Type 0
IsAllowed auth Page.login = Unit
IsAllowed auth Page.register = Unit
IsAllowed auth Page.admin_jobs = (is_authenticated auth ≡ true) × (is_admin auth ≡ true)
IsAllowed auth Page.admin_users = (is_authenticated auth ≡ true) × (is_admin auth ≡ true)
IsAllowed auth _ = is_authenticated auth ≡ true

-- Where a session's visits end, by whether it is signed in and an administrator's.
abbrev landing : Bool → Bool → Page → Page
landing _ _ Page.login = Page.login
landing _ _ Page.register = Page.register
landing false _ _ = Page.login
landing true _ Page.index = Page.dashboard
landing true false Page.admin_jobs = Page.dashboard
landing true false Page.admin_users = Page.dashboard
landing true _ page = page

visit-landing :
    (router : Router) (auth : Auth) (fuel : ℕ) (page : Page)
    → visit router auth (suc (suc fuel)) page
      ≡ some (landing (is_authenticated auth) (is_admin auth) page)
unfolding visit element protected_route admin_route
visit-landing router auth fuel Page.login = refl
visit-landing router auth fuel page = ground arith

landing-IsAllowed :
    (auth : Auth) (page : Page)
    → let q = landing (is_authenticated auth) (is_admin auth) page in
      IsAllowed auth q × (IsAllowed auth page → page ≢ Page.index → q ≡ page)
landing-IsAllowed auth Page.login = ground arith
landing-IsAllowed auth page = ground arith

-- With fuel for two steps a visit ends, after at most one redirect, on a page that the session may
-- see.
pub visit-IsAllowed :
    (router : Router) (auth : Auth) (fuel : ℕ) (page : Page)
    → (q : Page) × (visit router auth (suc (suc fuel)) page ≡ some q) × IsAllowed auth q
visit-IsAllowed router auth fuel page =
    (_, visit-landing router auth fuel page, (landing-IsAllowed auth page).0)

-- With fuel for two steps, a visit to a page that the session may see ends there, unless it is the
-- index.
pub visit_self :
    (router : Router) (auth : Auth) (fuel : ℕ) (page : Page)
    → IsAllowed auth page
    → page ≢ Page.index
    → visit router auth (suc (suc fuel)) page ≡ some page
visit_self router auth fuel page allowed ne =
    visit-landing router auth fuel page ∙ ap some ((landing-IsAllowed auth page).1 allowed ne)

-- Without a session every page but the two public ones leads to the login page.
pub visit-guest :
    (router : Router) (auth : Auth) (fuel : ℕ) (page : Page)
    → is_authenticated auth ≡ false
    → page ≢ Page.login
    → page ≢ Page.register
    → visit router auth (suc (suc fuel)) page ≡ some Page.login
visit-guest router auth fuel page h a b =
    visit-landing router auth fuel page ∙ ap some (guest page a b)
  where
    guest :
        (page : Page)
        → page ≢ Page.login
        → page ≢ Page.register
        → landing (is_authenticated auth) (is_admin auth) page ≡ Page.login
    guest Page.login a b = absurd (a refl)
    guest Page.register a b = absurd (b refl)
    guest _ a b = rw h
