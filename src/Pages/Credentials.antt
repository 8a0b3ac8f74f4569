-- ===== src/Pages/Credentials.antt =====
-- What apps/cronpilot-frontend/src/pages/Login.jsx and
-- apps/cronpilot-frontend/src/pages/Register.jsx share: the two fields, the handler of the form,
-- and its error line.
pub mod Flow
use irwandhi_gitops_lab.Base.{
  Bool, true, false, Option, none, some, List, [], ◌∷◌, ◌++◌, ◌≡◌, if◌then◌else◌,
}
use irwandhi_gitops_lab.Text.{Text, lit, truthy}
use irwandhi_gitops_lab.Session.{User}
use irwandhi_gitops_lab.Api.{Request}
use irwandhi_gitops_lab.Effects.{Effect, Failure, error_or}
use irwandhi_gitops_lab.Dom.{Tag, Attr, Node, el, when}

pub record Form : Type 0 where
  pub email : Text
  pub password : Text
  pub error : Text
  pub loading : Bool

unfoldable pub blank : Form
blank = record { email = []; password = []; error = []; loading = false }

-- `answered` and `failed` are the two outcomes of the request that `submit` makes.
pub data Msg : Type 0 where
  email_typed password_typed : Text → Msg
  submit : Msg
  answered : Option Text → Option User → Msg
  failed : Failure → Msg

-- `handle_submit` up to its `await` is `submit`; the rest, with `finally`, is the two outcomes.
module _ (send : Text → Text → Request) (fallback : Text) where
  unfoldable pub update : Form → Msg → Form × List Effect
  update form (Msg.email_typed value) = (record form { email = value }, [])
  update form (Msg.password_typed value) = (record form { password = value }, [])
  update form Msg.submit =
      (record form { error = []; loading = true }, Effect.call (send form.email form.password) ∷ [])
  update form (Msg.answered token user) = (
    record form { loading = false },
    Effect.set_auth token user ∷ Effect.navigate_replace (lit "/dashboard") ∷ [],
  )
  update form (Msg.failed err) =
      (record form { error = error_or err fallback; loading = false }, [])

-- `{error && <div>{error}</div>}`.
abbrev pub error_line : Form → Node Msg
error_line form = when (truthy form.error) (el Tag.div [] (Node.text form.error ∷ []))

abbrev pub field : Text → Text → (Text → Msg) → List (Attr Msg) → Node Msg
field caption v typed attrs = el Tag.div [] (
    el Tag.label [] (Node.text caption ∷ [])
    ∷ el Tag.input (Attr.required true ∷ Attr.value v ∷ Attr.on_change typed ∷ attrs) []
    ∷ [])

abbrev pub submit_button : Form → Text → Text → Node Msg
submit_button form busy idle =
    el Tag.button (Attr.kind (lit "submit") ∷ Attr.disabled form.loading ∷ [])
      (Node.text (if form.loading then busy else idle) ∷ [])
