-- ===== src/Components/Header/Logout.antt =====
-- Signing out.
use irwandhi_gitops_lab.Base.{none, ℕ, suc, false, some, ◌≡◌, ◌≢◌, refl}
use irwandhi_gitops_lab.Text.{lit}
use irwandhi_gitops_lab.Session.{UserCodec, Session, is_authenticated, mount, clear_auth}
use irwandhi_gitops_lab.Session.Sync.{InSync}
use irwandhi_gitops_lab.Api.{Request, sign}
use irwandhi_gitops_lab.App.{Page, Router, visit}
use irwandhi_gitops_lab.App.Landing.{visit-guest}
use irwandhi_gitops_lab.Effects.Perform.{perform, destination}
use irwandhi_gitops_lab.Components.Header.{Click, on_click}

module _ (codec : UserCodec) (router : Router) where
  -- After signing out the session and the storage have no token and no user, a reload of the page
  -- finds the same session, a request is sent as it is, and every
  -- page but the two public ones leads to the login page, where the handler also goes.
  pub logout_lem :
      (s : Session) (r : Request) (page : Page) (fuel : ℕ)
      → page ≢ Page.login
      → page ≢ Page.register
      → let s' = perform codec (on_click Click.logout) s in
        (s'.storage.token ≡ none)
        × (s'.storage.user ≡ none)
        × (s'.auth.token ≡ none)
        × (s'.auth.user ≡ none)
        × (is_authenticated s'.auth ≡ false)
        × InSync codec s'
        × (sign s'.storage.token r ≡ r)
        × (destination (on_click Click.logout) ≡ some (lit "/login"))
        × (visit router s'.auth (suc (suc fuel)) page ≡ some Page.login)
  unfolding perform on_click is_authenticated mount sign destination clear_auth
  logout_lem s r page fuel a b =
      (refl, refl, refl, refl, refl, refl, refl, refl, visit-guest router _ fuel page refl a b)
