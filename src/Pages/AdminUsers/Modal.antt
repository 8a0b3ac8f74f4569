-- ===== src/Pages/AdminUsers/Modal.antt =====
-- `UserModal` of apps/cronpilot-frontend/src/pages/admin/AdminUsers.jsx: the dialog's form, and
-- what it hands to `onSave`.
use irwandhi_gitops_lab.Base.{Bool, true, false, not, Option, none, some, [], ◌∷◌, if◌then◌else◌}
use irwandhi_gitops_lab.Text.{Text, lit, truthy}
use irwandhi_gitops_lab.Json.{Json, Object}
use irwandhi_gitops_lab.Records.{Account}
use irwandhi_gitops_lab.Dom.{Tag, Attr, Node, el, when}

pub record Form : Type 0 where
  pub email : Text
  pub password : Text
  pub role : Text

unfoldable pub empty_form : Form
empty_form = record { email = []; password = []; role = lit "user" }

-- `!!initial?.id`.
unfoldable pub is_edit : Option Account → Bool
is_edit none = false
is_edit (some u) = truthy u.id

unfoldable pub opened : Option Account → Form
unfolding empty_form
opened none = empty_form
opened (some u) =
    if truthy u.id then record { email = u.email; password = []; role = u.role } else empty_form

pub data Msg : Type 0 where
  email_typed password_typed role_typed : Text → Msg
  submit close : Msg

unfoldable pub update : Form → Msg → Form
update form (Msg.email_typed v) = record form { email = v }
update form (Msg.password_typed v) = record form { password = v }
update form (Msg.role_typed v) = record form { role = v }
update form Msg.submit = form
update form Msg.close = form

-- The object that `handleSubmit` hands to `onSave`.
unfoldable pub payload : Bool → Form → Object
payload true form = Object.entry (lit "role") (Json.str form.role) (
    if truthy form.password
    then Object.entry (lit "password") (Json.str form.password) Object.empty
    else Object.empty)
payload false form = Object.entry (lit "email") (Json.str form.email) (
    Object.entry (lit "password") (Json.str form.password)
      (Object.entry (lit "role") (Json.str form.role) Object.empty))

email_field : Form → Node Msg
email_field form = el Tag.div [] (
    el Tag.label [] (Node.text (lit "Email") ∷ [])
    ∷ el Tag.input
        (Attr.kind (lit "email")
          ∷ Attr.required true
          ∷ Attr.value form.email
          ∷ Attr.on_change Msg.email_typed
          ∷ Attr.placeholder (lit "user@example.com")
          ∷ [])
        []
    ∷ [])

password_field : Bool → Form → Node Msg
password_field edit form = el Tag.div [] (
    el Tag.label [] (
      Node.text (if edit then lit "New Password" else lit "Password")
      ∷ when edit (el Tag.span [] (Node.text (lit "(leave blank to keep)") ∷ []))
      ∷ [])
    ∷ el Tag.input
        (Attr.kind (lit "password")
          ∷ Attr.value form.password
          ∷ Attr.min_length (if edit then 0 else 6)
          ∷ Attr.required (not edit)
          ∷ Attr.on_change Msg.password_typed
          ∷ Attr.placeholder
              (if edit then lit "Leave blank to keep current" else lit "At least 6 characters")
          ∷ [])
        []
    ∷ [])

role_field : Form → Node Msg
role_field form = el Tag.div [] (
    el Tag.label [] (Node.text (lit "Role") ∷ [])
    ∷ el Tag.select (Attr.value form.role ∷ Attr.on_change Msg.role_typed ∷ []) (
        el Tag.option (Attr.value (lit "user") ∷ []) (Node.text (lit "user") ∷ [])
        ∷ el Tag.option (Attr.value (lit "admin") ∷ []) (Node.text (lit "admin") ∷ [])
        ∷ [])
    ∷ [])

buttons : Bool → Bool → Node Msg
buttons edit loading = el Tag.div [] (
    el Tag.button (Attr.kind (lit "button") ∷ Attr.on_click Msg.close ∷ [])
      (Node.text (lit "Cancel") ∷ [])
    ∷ el Tag.button (Attr.kind (lit "submit") ∷ Attr.disabled loading ∷ []) (
        Node.text (
          if loading
          then lit "Saving…"
          else (if edit then lit "Save changes" else lit "Create user"))
        ∷ [])
    ∷ [])

unfoldable pub user_modal : Option Account → Form → Bool → Text → Node Msg
unfolding is_edit email_field password_field role_field buttons
user_modal account form loading error =
    let edit = is_edit account in
    el Tag.div [] (
      el Tag.div [] (
        el Tag.h2 [] (Node.text (if edit then lit "Edit User" else lit "New User") ∷ [])
        ∷ el Tag.button (Attr.on_click Msg.close ∷ []) []
        ∷ [])
      ∷ el Tag.form (Attr.on_submit Msg.submit ∷ []) (
          when (truthy error) (el Tag.p [] (Node.text error ∷ []))
          ∷ when (not edit) (email_field form)
          ∷ password_field edit form
          ∷ role_field form
          ∷ buttons edit loading
          ∷ [])
      ∷ [])
