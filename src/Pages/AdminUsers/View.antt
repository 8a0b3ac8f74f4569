-- ===== src/Pages/AdminUsers/View.antt =====
-- What `AdminUsers` of apps/cronpilot-frontend/src/pages/admin/AdminUsers.jsx renders.
use irwandhi_gitops_lab.Base.{Bool, true, false, Option, none, some, List, [], ◌∷◌, if◌then◌else◌}
use irwandhi_gitops_lab.Text.{Text, lit, eq_text, decimal}
use irwandhi_gitops_lab.Records.{Account, Dates}
use irwandhi_gitops_lab.Session.{User}
use irwandhi_gitops_lab.Dom.{Tag, Attr, Node, el, elem, each, when}
use irwandhi_gitops_lab.Pages.AdminUsers.{State, Mode}
use irwandhi_gitops_lab.Pages.AdminUsers.Modal as Modal

-- Clicks on the page, and messages of the dialog.
pub data Click : Type 0 where
  add : Click
  edit remove : Account → Click

unfoldable pub role_badge : {M : Type 0} → Text → Node M
role_badge role =
    if eq_text role (lit "admin")
    then el Tag.span (Attr.tone (lit "bg-amber-100 text-amber-700") ∷ [])
        (Node.text (lit "admin") ∷ [])
    else el Tag.span (Attr.tone (lit "bg-gray-100 text-gray-600") ∷ [])
        (Node.text (lit "user") ∷ [])

-- `u.id === me?.id`.
unfoldable pub is_me : Option User → Account → Bool
is_me none u = false
is_me (some me) u = elim me.id [ none ↦ false | some id ↦ eq_text u.id id ]

abbrev column : Text → Node Click
column caption = el Tag.th [] (Node.text caption ∷ [])

module _ (dates : Dates) (me : Option User) where
  unfoldable pub row : Account → Node Click
  row u = el Tag.tr [] (
      el Tag.td []
        (Node.text u.email ∷ when (is_me me u) (el Tag.span [] (Node.text (lit "(you)") ∷ [])) ∷ [])
      ∷ el Tag.td [] (role_badge u.role ∷ [])
      ∷ el Tag.td [] (Node.text (decimal u.job_count) ∷ [])
      ∷ el Tag.td [] (Node.text (dates.distance_to_now u.created_at) ∷ [])
      ∷ el Tag.td [] (
          el Tag.div [] (
            el Tag.button (Attr.on_click (Click.edit u) ∷ Attr.title (lit "Edit") ∷ []) []
            ∷ el Tag.button
                (Attr.disabled (is_me me u)
                  ∷ Attr.on_click (Click.remove u)
                  ∷ Attr.title (lit "Delete")
                  ∷ [])
                []
            ∷ [])
          ∷ [])
      ∷ [])

  accounts : Bool → List Account → Node Click
  accounts true users = el Tag.div [] (Node.text (lit "Loading…") ∷ [])
  accounts false users = el Tag.table [] (
      el Tag.thead [] (
        el Tag.tr [] (
          column (lit "Email")
          ∷ column (lit "Role")
          ∷ column (lit "Jobs")
          ∷ column (lit "Joined")
          ∷ column (lit "Actions")
          ∷ [])
        ∷ [])
      ∷ elem Tag.tbody [] (each row users)
      ∷ [])

  -- The page below the dialog; `isLoading` is the query library's.
  unfoldable pub users_page : Bool → List Account → Node Click
  unfolding accounts row
  users_page loading users = el Tag.div [] (
      el Tag.div [] (
        el Tag.h1 [] (Node.text (lit "Users") ∷ [])
        ∷ el Tag.p [] (Node.text (lit "Manage all CronPilot accounts") ∷ [])
        ∷ el Tag.button (Attr.on_click Click.add ∷ []) (Node.text (lit "Add User") ∷ [])
        ∷ [])
      ∷ el Tag.div [] (accounts loading users ∷ [])
      ∷ [])

-- `initial={modal.data}`.
abbrev pub data_of : Mode → Option Account
data_of Mode.create = none
data_of (Mode.edit u) = some u

unfoldable pub dialog : State → Modal.Form → Bool → Node Modal.Msg
dialog s form loading = elim s.modal [
  | none ↦ Node.nothing
  | some mode ↦ Modal.user_modal (data_of mode) form loading s.modal_err
]
