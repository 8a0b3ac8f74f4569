-- ===== src/Pages/Profile.antt =====
-- apps/cronpilot-frontend/src/pages/Profile.jsx: the account and the form that changes its
-- password.
pub mod Flow
use irwandhi_gitops_lab.Base.{
  Bool, true, false, not, Option, none, some, List, [], ◌∷◌, ◌≡◌, if◌then◌else◌, ltb, length,
}
use irwandhi_gitops_lab.Text.{Text, lit, eq_text, truthy}
use irwandhi_gitops_lab.Session.{User, Auth}
use irwandhi_gitops_lab.Api.Auth.{change_password}
use irwandhi_gitops_lab.Effects.{Effect, Failure, error_or}
use irwandhi_gitops_lab.Dom.{Tag, Attr, Node, el, when}
use irwandhi_gitops_lab.Components.Header.{initial_of, email_of, text_of}

-- The fields, the two messages below them, and whether the mutation is pending.
pub record Page : Type 0 where
  pub current : Text
  pub next : Text
  pub confirm : Text
  pub success : Bool
  pub field_error : Text
  pub pending : Bool

unfoldable pub blank : Page
blank = record {
  current = [];
  next = [];
  confirm = [];
  success = false;
  field_error = [];
  pending = false;
}

-- `changed` and `failed` are the outcomes of the mutation; `timed_out` is the timer that a success
-- starts.
pub data Msg : Type 0 where
  current_typed next_typed confirm_typed : Text → Msg
  submit changed timed_out : Msg
  failed : Failure → Msg

-- The tests of `handleSubmit`; `mutate` makes the mutation pending.
checked : Page → Page × List Effect
checked p =
    if not (eq_text p.next p.confirm)
    then (record p { field_error = lit "New passwords do not match" }, [])
    else if ltb (length p.next) 6
    then (record p { field_error = lit "New password must be at least 6 characters" }, [])
    else (record p { pending = true }, Effect.call (change_password p.current p.next) ∷ [])

unfoldable pub update : Page → Msg → Page × List Effect
unfolding checked
update p (Msg.current_typed v) = (record p { current = v }, [])
update p (Msg.next_typed v) = (record p { next = v }, [])
update p (Msg.confirm_typed v) = (record p { confirm = v }, [])
update p Msg.submit = checked (record p { field_error = []; success = false })
update p Msg.changed =
    (record p { success = true; current = []; next = []; confirm = []; pending = false }, [])
update p Msg.timed_out = (record p { success = false }, [])
update p (Msg.failed err) =
    (record p { field_error = error_or err (lit "Failed to update password"); pending = false }, [])

password_field : Text → Text → (Text → Msg) → Node Msg
password_field caption v typed = el Tag.div [] (
    el Tag.label [] (Node.text caption ∷ [])
    ∷ el Tag.input
        (Attr.kind (lit "password") ∷ Attr.required true ∷ Attr.value v ∷ Attr.on_change typed ∷ [])
        []
    ∷ [])

abbrev role_of : Option User → Option Text
role_of none = none
role_of (some u) = u.role

account_card : (Text → Text) → Auth → Node Msg
account_card upper auth = el Tag.div [] (
    el Tag.h2 [] (Node.text (lit "Account") ∷ [])
    ∷ el Tag.div [] (
        el Tag.div [] (text_of (initial_of upper (email_of auth.user)) ∷ [])
        ∷ el Tag.div [] (
            el Tag.p [] (text_of (email_of auth.user) ∷ [])
            ∷ el Tag.p [] (text_of (role_of auth.user) ∷ [])
            ∷ [])
        ∷ [])
    ∷ [])

password_form : Page → Node Msg
password_form p = el Tag.form (Attr.on_submit Msg.submit ∷ []) (
    password_field (lit "Current Password") p.current Msg.current_typed
    ∷ password_field (lit "New Password") p.next Msg.next_typed
    ∷ password_field (lit "Confirm New Password") p.confirm Msg.confirm_typed
    ∷ when (truthy p.field_error) (el Tag.p [] (Node.text p.field_error ∷ []))
    ∷ when p.success (el Tag.div [] (Node.text (lit "Password updated successfully") ∷ []))
    ∷ el Tag.div [] (
        el Tag.button (Attr.kind (lit "submit") ∷ Attr.disabled p.pending ∷ [])
          (Node.text (if p.pending then lit "Updating…" else lit "Update Password") ∷ [])
        ∷ [])
    ∷ [])

-- `upper` is the case mapping of Unicode.
unfoldable pub profile_page : (Text → Text) → Auth → Page → Node Msg
unfolding password_field account_card password_form
profile_page upper auth p = el Tag.div [] (
    el Tag.h1 [] (Node.text (lit "Profile") ∷ [])
    ∷ el Tag.p [] (Node.text (lit "Manage your account settings") ∷ [])
    ∷ account_card upper auth
    ∷ el Tag.div [] (
        el Tag.div [] (el Tag.h2 [] (Node.text (lit "Change Password") ∷ []) ∷ [])
        ∷ password_form p
        ∷ [])
    ∷ [])
