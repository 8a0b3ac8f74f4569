-- ===== src/Components/Layout.antt =====
-- apps/cronpilot-frontend/src/components/Layout.jsx, with the page that its outlet shows.
use irwandhi_gitops_lab.Base.{
  [], ◌∷◌, ◌≡◌, refl, map, Bool-cases, inl, inr, append-nil, Option, none, some,
}
use irwandhi_gitops_lab.Text.{Text}
use irwandhi_gitops_lab.Session.{Auth, is_admin}
use irwandhi_gitops_lab.Dom.{Tag, Node, el, each}
use irwandhi_gitops_lab.Dom.Relabel.{relabel, clicks-relabel}
use irwandhi_gitops_lab.Dom.Actions.{clicks}
use irwandhi_gitops_lab.Components.Sidebar.{sidebar}
use irwandhi_gitops_lab.Components.Header.{Click, header, initial_of, email_of, text_of}

pub data Msg (M : Type 0) : Type 0 where
  of_header : Click → Msg M
  of_page : M → Msg M

clicks-text_of : {M : Type 0} (s : Option Text) → clicks (text_of {M = M} s) ≡ []
unfolding clicks
clicks-text_of none = refl
clicks-text_of (some s) = refl

clicks-header :
    (upper : Text → Text) (auth : Auth)
    → clicks (header upper auth) ≡ Click.refresh ∷ Click.logout ∷ []
unfolding clicks header
clicks-header upper auth =
    rw (clicks-text_of (initial_of upper (email_of auth.user)), clicks-text_of (email_of auth.user))
      refl

module _ {M : Type 0} (upper : Text → Text) (auth : Auth) where
  unfoldable pub layout : Node M → Node (Msg M)
  layout outlet = el Tag.div [] (
      sidebar auth
      ∷ el Tag.div [] (
          relabel Msg.of_header (header upper auth)
          ∷ el Tag.main [] (relabel Msg.of_page outlet ∷ [])
          ∷ [])
      ∷ [])

  clicks-sidebar : clicks (sidebar {M = Msg M} auth) ≡ []
  unfolding clicks sidebar each
  clicks-sidebar = elim (Bool-cases (is_admin auth)) [ inl e ↦ rw e refl | inr e ↦ rw e refl ]

  -- In the layout a user can refresh, sign out, and do what the page offers.
  pub clicks-layout :
      (outlet : Node M)
      → clicks (layout outlet)
        ≡ Msg.of_header Click.refresh ∷ Msg.of_header Click.logout ∷ map Msg.of_page (clicks outlet)
  unfolding layout clicks
  clicks-layout outlet =
      rw
        (
          clicks-sidebar,
          clicks-relabel Msg.of_header (header upper auth),
          clicks-header upper auth,
          clicks-relabel Msg.of_page outlet,
        )
        (simp append-nil)
