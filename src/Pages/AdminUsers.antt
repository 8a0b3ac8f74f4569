-- ===== src/Pages/AdminUsers.antt =====
-- apps/cronpilot-frontend/src/pages/admin/AdminUsers.jsx: the accounts, and the dialog that makes
-- and edits them.
pub mod Modal
pub mod View
pub mod Flow
use irwandhi_gitops_lab.Base.{
  Bool, true, false, Option, none, some, List, [], ◌∷◌, ◌++◌, if◌then◌else◌,
}
use irwandhi_gitops_lab.Text.{Text, lit}
use irwandhi_gitops_lab.Json.{Json, Object}
use irwandhi_gitops_lab.Api.{Request}
use irwandhi_gitops_lab.Api.Admin.{get_users, create_user, update_user, delete_user}
use irwandhi_gitops_lab.Records.{Account}
use irwandhi_gitops_lab.Effects.{Key, Effect, Failure, error_or, Mutation}

unfoldable pub users_query : Key × Request
users_query = (Json.str (lit "admin-users") ∷ [], get_users)

abbrev pub invalidate : Effect
invalidate = Effect.invalidate (Json.str (lit "admin-users") ∷ [])

-- `null | { mode: 'create' | 'edit', data? }` is an option of this.
pub data Mode : Type 0 where
  create : Mode
  edit : Account → Mode

pub record State : Type 0 where
  pub modal : Option Mode
  pub modal_err : Text

unfoldable pub initial : State
initial = record { modal = none; modal_err = [] }

-- The clicks, the dialog's `onSave` and `onClose`, and the outcomes of the three mutations.
-- `remove` has the user's answer to the question that it asks.
pub data Msg : Type 0 where
  open_create close : Msg
  open_edit : Account → Msg
  save : Object → Msg
  remove : Account → Bool → Msg
  created updated removed : Msg
  create_failed update_failed remove_failed : Failure → Msg

-- `handleSave`; with no dialog open it throws.
unfoldable pub handle_save : Option Mode → Object → Option Request
handle_save none payload = none
handle_save (some Mode.create) payload = some (create_user (Json.obj payload))
handle_save (some (Mode.edit u)) payload = some (update_user u.id (Json.obj payload))

abbrev calls : Option Request → List Effect
calls none = []
calls (some r) = Effect.call r ∷ []

unfoldable pub update : State → Msg → State × List Effect
unfolding handle_save
update s Msg.open_create = (record { modal = some Mode.create; modal_err = [] }, [])
update s (Msg.open_edit u) = (record { modal = some (Mode.edit u); modal_err = [] }, [])
update s Msg.close = (record s { modal = none }, [])
update s (Msg.save payload) = (record s { modal_err = [] }, calls (handle_save s.modal payload))
update s (Msg.remove u confirmed) =
    (s, if confirmed then Effect.call (delete_user u.id) ∷ [] else [])
update s Msg.created = (record s { modal = none }, invalidate ∷ [])
update s Msg.updated = (record s { modal = none }, invalidate ∷ [])
update s Msg.removed = (s, invalidate ∷ [])
update s (Msg.create_failed err) =
    (record s { modal_err = error_or err (lit "Failed to create user") }, [])
update s (Msg.update_failed err) =
    (record s { modal_err = error_or err (lit "Failed to update user") }, [])
update s (Msg.remove_failed err) =
    (s, Effect.alert (error_or err (lit "Failed to delete user")) ∷ [])
