-- ===== src/Session.antt =====
-- apps/cronpilot-frontend/src/context/AuthContext.jsx: the signed-in user, kept in the provider's
-- state and in localStorage.
pub mod Sync
pub mod Guards
use irwandhi_gitops_lab.Base.{Bool, true, false, Option, none, some, ◌≡◌, ◌&&◌}
use irwandhi_gitops_lab.Text.{Text, lit, eq_text, truthy}

-- What `?.` reads of the user object; a property that is missing is `none`.
pub record User : Type 0 where
  pub id : Option Text
  pub email : Option Text
  pub role : Option Text

-- `JSON.stringify` and `JSON.parse` on users. `parse` is `none` where it throws or returns null;
-- the text "undefined" is no JSON.
pub record UserCodec : Type 0 where
  pub stringify : User → Text
  pub parse : Text → Option User
  pub parse-stringify : (u : User) → parse (stringify u) ≡ some u
  pub parse-undefined : parse (lit "undefined") ≡ none

-- The two keys of localStorage that the client uses.
pub record Storage : Type 0 where
  pub token : Option Text
  pub user : Option Text

-- The provider's state.
pub record Auth : Type 0 where
  pub token : Option Text
  pub user : Option User

pub record Session : Type 0 where
  pub storage : Storage
  pub auth : Auth

-- The string conversion that `setItem` makes of its value.
abbrev pub stored : Option Text → Text
stored none = lit "undefined"
stored (some s) = s

unfoldable pub is_authenticated : Auth → Bool
is_authenticated auth = elim auth.token [ none ↦ false | some t ↦ truthy t ]

abbrev role_of : Option User → Option Text
role_of none = none
role_of (some u) = u.role

abbrev is_text : Option Text → Text → Bool
is_text none t = false
is_text (some s) t = eq_text s t

unfoldable pub is_admin : Auth → Bool
is_admin auth = is_text (role_of auth.user) (lit "admin")

module _ (codec : UserCodec) where
  abbrev parse_item : Option Text → Option User
  parse_item none = none
  parse_item (some s) = codec.parse s

  abbrev stringify_user : Option User → Text
  stringify_user none = lit "undefined"
  stringify_user (some u) = codec.stringify u

  -- The initialisers of the two `useState`: what a page load makes of the storage.
  unfoldable pub mount : Storage → Auth
  mount storage = record { token = storage.token; user = parse_item storage.user }

  unfoldable pub load : Storage → Session
  unfolding mount
  load storage = record { storage = storage; auth = mount storage }

  unfoldable pub set_auth : Option Text → Option User → Session → Session
  set_auth token user s = record {
    storage = record { token = some (stored token); user = some (stringify_user user) };
    auth = record { token = token; user = user };
  }

unfoldable pub clear_auth : Session → Session
clear_auth s = record {
  storage = record { token = none; user = none };
  auth = record { token = none; user = none };
}
