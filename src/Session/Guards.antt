-- ===== src/Session/Guards.antt =====
-- `ProtectedRoute` and `AdminRoute` of apps/cronpilot-frontend/src/context/AuthContext.jsx.
use irwandhi_gitops_lab.Base.{not, if◌then◌else◌}
use irwandhi_gitops_lab.Text.{Text, lit}
use irwandhi_gitops_lab.Session.{Auth, is_authenticated, is_admin}

-- What a route's element comes to: a page, or `<Navigate replace>`.
pub data Element (A : Type 0) : Type 0 where
  shown : A → Element A
  redirect : Text → Element A

module _ {A : Type 0} (auth : Auth) where
  unfoldable pub protected_route : Element A → Element A
  protected_route children =
      if is_authenticated auth then children else Element.redirect (lit "/login")

  unfoldable pub admin_route : Element A → Element A
  admin_route children =
      if not (is_authenticated auth)
      then Element.redirect (lit "/login")
      else if not (is_admin auth)
      then Element.redirect (lit "/dashboard")
      else children
