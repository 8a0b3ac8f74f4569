-- ===== src/Pages/AdminUsers/Flow.antt =====
-- What the dialog sends, who can be removed, and what late answers do.
use mathlib.Core.Path.{fun_ext}
use irwandhi_gitops_lab.Base.{
  true, false, Option, none, some, List, [], ◌∷◌, ◌≡◌, refl, arith, if◌then◌else◌, Bool-cases, inl,
  inr, append-nil,
}
use irwandhi_gitops_lab.Text.{lit, eq_text, truthy}
use irwandhi_gitops_lab.Json.{Json, Object, get}
use irwandhi_gitops_lab.Api.Admin.{create_user, update_user}
use irwandhi_gitops_lab.Records.{Account, Dates}
use irwandhi_gitops_lab.Effects.{Effect, Failure, error_or}
use irwandhi_gitops_lab.Session.{User}
use irwandhi_gitops_lab.Dom.Actions.{clicks, clicks-when, clicks_all-each, gather}
use irwandhi_gitops_lab.Pages.AdminUsers.{State, Mode, Msg, update}
use irwandhi_gitops_lab.Pages.AdminUsers.Modal.{Form, is_edit, payload}
use irwandhi_gitops_lab.Pages.AdminUsers.View.{Click, is_me, role_badge, row, users_page, data_of}

-- The request of an edit never holds an email, and holds a password exactly when one was typed;
-- that of a new account holds all three fields.
pub payload_lem :
    (form : Form)
    → (get (lit "email") (payload true form) ≡ none)
      × (get (lit "role") (payload true form) ≡ some (Json.str form.role))
      × (get (lit "password") (payload true form)
          ≡ (if truthy form.password then some (Json.str form.password) else none))
      × (get (lit "email") (payload false form) ≡ some (Json.str form.email))
      × (get (lit "role") (payload false form) ≡ some (Json.str form.role))
      × (get (lit "password") (payload false form) ≡ some (Json.str form.password))
unfolding payload get eq_text lit
payload_lem form = elim (Bool-cases (truthy form.password)) [
  | inl typed ↦ rw typed (refl, refl, refl, refl, refl, refl)
  | inr blank ↦ rw blank (refl, refl, refl, refl, refl, refl)
]

-- A save makes a new account where the dialog was opened to make one, and changes the account that
-- the dialog was opened on where it was opened on one whose id is not empty; this clears the last
-- error.
pub save_lem :
    (s : State) (u : Account) (form : Form)
    → truthy u.id ≡ true
    → let creating = (update s Msg.open_create).0 in
      let editing = (update s (Msg.open_edit u)).0 in
      let made = payload (is_edit (data_of Mode.create)) form in
      let changed = payload (is_edit (data_of (Mode.edit u))) form in
      ((update creating (Msg.save made)).1 ≡ Effect.call (create_user (Json.obj made)) ∷ [])
      × ((update editing (Msg.save changed)).1
          ≡ Effect.call (update_user u.id (Json.obj changed)) ∷ [])
      × (made ≡ payload false form)
      × (changed ≡ payload true form)
      × ((update editing (Msg.save changed)).0.modal_err ≡ [])
unfolding update is_edit
save_lem s u form h = (refl, refl, refl, rw h, refl)

clicks-row :
    (dates : Dates) (me : Option User) (u : Account)
    → clicks (row dates me u) ≡ Click.edit u ∷ (if is_me me u then [] else Click.remove u ∷ [])
unfolding clicks row role_badge
clicks-row dates me u = simp clicks-when (ground arith)

-- Once the accounts are loaded, the page offers to add an account, to edit each, and to remove each
-- but the user's own.
pub clicks-users_page :
    (dates : Dates) (me : Option User) (users : List Account)
    → clicks (users_page dates me false users)
      ≡ Click.add
        ∷ gather (λ u. Click.edit u ∷ (if is_me me u then [] else Click.remove u ∷ [])) users
unfolding clicks users_page
clicks-users_page dates me users =
    rw (clicks_all-each (row dates me) users, fun_ext (clicks-row dates me)) (simp append-nil)

-- A new account's answer that comes after the dialog was closed and opened on another account
-- closes that dialog; a failure shows its error in it.
pub late_answer :
    (s : State) (u : Account) (new : Object) (err : Failure)
    → let sent = (update (update s Msg.open_create).0 (Msg.save new)).0 in
      let other = (update (update sent Msg.close).0 (Msg.open_edit u)).0 in
      (other.modal ≡ some (Mode.edit u))
      × ((update other Msg.created).0.modal ≡ none)
      × ((update other (Msg.create_failed err)).0.modal ≡ some (Mode.edit u))
      × ((update other (Msg.create_failed err)).0.modal_err
          ≡ error_or err (lit "Failed to create user"))
unfolding update
late_answer s u new err = (refl, refl, refl, refl)
