-- ===== src/Components/Sidebar.antt =====
-- apps/cronpilot-frontend/src/components/Sidebar.jsx.
pub mod Links
use irwandhi_gitops_lab.Base.{List, [], ◌∷◌}
use irwandhi_gitops_lab.Text.{Text, lit}
use irwandhi_gitops_lab.Session.{Auth, is_admin}
use irwandhi_gitops_lab.Dom.{Tag, Attr, Node, el, elem, each, when}

-- The path and the label of each item.
unfoldable pub nav_items : List (Text × Text)
nav_items =
    (lit "/dashboard", lit "Dashboard")
    ∷ (lit "/jobs", lit "Jobs")
    ∷ (lit "/jobs/new", lit "New Job")
    ∷ (lit "/report", lit "Reports")
    ∷ []

unfoldable pub admin_items : List (Text × Text)
admin_items = (lit "/admin/jobs", lit "All Jobs") ∷ (lit "/admin/users", lit "Users") ∷ []

nav_item : {M : Type 0} → Text × Text → Node M
nav_item (to, label) = el Tag.link (Attr.href to ∷ []) (Node.text label ∷ [])

unfoldable pub sidebar : {M : Type 0} → Auth → Node M
unfolding nav_items admin_items nav_item
sidebar auth = el Tag.div [] (
    el Tag.div [] (
      el Tag.div [] (el Tag.span [] (Node.text (lit "CronPilot") ∷ []) ∷ [])
      ∷ el Tag.p [] (Node.text (lit "Cron-as-a-Service") ∷ [])
      ∷ [])
    ∷ elem Tag.nav [] (each nav_item nav_items)
    ∷ when (is_admin auth) (
        el Tag.div [] (
          el Tag.div [] (el Tag.span [] (Node.text (lit "Admin") ∷ []) ∷ [])
          ∷ elem Tag.div [] (each nav_item admin_items)
          ∷ []))
    ∷ el Tag.div [] (el Tag.p [] (Node.text (lit "v1.0.0") ∷ []) ∷ [])
    ∷ [])
