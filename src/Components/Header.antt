-- ===== src/Components/Header.antt =====
-- apps/cronpilot-frontend/src/components/Header.jsx.
pub mod Logout
use irwandhi_gitops_lab.Base.{Option, none, some, List, [], ◌∷◌, take}
use irwandhi_gitops_lab.Text.{Text, lit}
use irwandhi_gitops_lab.Session.{User, Auth}
use irwandhi_gitops_lab.Effects.{Effect}
use irwandhi_gitops_lab.Dom.{Tag, Attr, Node, el}

pub data Click : Type 0 where
  refresh logout : Click

unfoldable pub on_click : Click → List Effect
on_click Click.refresh = Effect.invalidate_all ∷ []
on_click Click.logout =
    Effect.clear_auth ∷ Effect.clear_queries ∷ Effect.navigate_replace (lit "/login") ∷ []

-- `user?.email`.
abbrev pub email_of : Option User → Option Text
email_of none = none
email_of (some u) = u.email

abbrev pub text_of : {M : Type 0} → Option Text → Node M
text_of none = Node.nothing
text_of (some s) = Node.text s

-- `email?.[0]?.toUpperCase()`, with the case mapping `upper` of Unicode. An empty text has no first
-- unit.
unfoldable pub initial_of : (Text → Text) → Option Text → Option Text
initial_of upper none = none
initial_of upper (some []) = none
initial_of upper (some (c ∷ s)) = some (upper (c ∷ []))

abbrev profile_path : Text
profile_path = lit "/profile"

unfoldable pub header : (Text → Text) → Auth → Node Click
header upper auth = el Tag.div [] (
    el Tag.link (Attr.href profile_path ∷ []) (
      el Tag.div [] (text_of (initial_of upper (email_of auth.user)) ∷ [])
      ∷ text_of (email_of auth.user)
      ∷ [])
    ∷ el Tag.div [] (
        el Tag.link (Attr.href profile_path ∷ Attr.title (lit "Profile") ∷ []) []
        ∷ el Tag.button (Attr.on_click Click.refresh ∷ Attr.title (lit "Refresh") ∷ []) []
        ∷ el Tag.button (Attr.on_click Click.logout ∷ Attr.title (lit "Logout") ∷ []) []
        ∷ [])
    ∷ [])
