-- ===== src/Server/Users.antt =====
-- The handlers for accounts of apps/cronpilot-api/handler/auth.go and admin.go, on the table of users.
-- A body is `none` where it cannot be decoded; `fault` says that a statement fails for a reason other
-- than a repeated email. Tokens are those of their users, with the ids that the table has.
pub mod Credentials
pub mod Admins
pub mod Passwords
use irwandhi_gitops_lab.Base.{
  ℕ, Bool, true, false, not, ◌&&◌, ◌||◌, ◌≡◌, ◌≤◌, Option, none, some, List, [], ◌∷◌, if◌then◌else◌,
  ◌==◌, ltb, is_empty, filter, length,
}
use irwandhi_gitops_lab.Text.{Text, lit, eq_text}
use irwandhi_gitops_lab.Server.Store.{Uuid, JobRow, find, update_where}
use irwandhi_gitops_lab.Server.Answer.{Answer, ok, error}
use irwandhi_gitops_lab.Server.Jobs.{Jobs, is_owned}

pub record UserRow : Type 0 where
  pub id : Uuid
  pub email : Text
  pub password_hash : Text
  pub role : Text

abbrev pub Users : Type 0
Users = List UserRow

-- The libraries: `bcrypt.GenerateFromPassword`, which refuses what is longer than 72 bytes, and
-- `bcrypt.CompareHashAndPassword`; `strings.ToLower(strings.TrimSpace(s))`; the bytes of a text in
-- UTF-8, which are no fewer than its UTF-16 units.
pub record Libraries : Type 0 where
  pub generate : Text → Option Text
  pub compare : Text → Text → Bool
  pub normalize : Text → Text
  pub count_bytes : Text → ℕ
  pub compare-generate :
      (password hash : Text) → generate password ≡ some hash → compare hash password ≡ true
  pub length_le_bytes : (s : Text) → length s ≤ count_bytes s

-- What a sign-in answers: the user in the token and beside it.
pub record Signed : Type 0 where
  pub id : Text
  pub email : Text
  pub role : Text

unfoldable pub has_email : Text → UserRow → Bool
has_email email u = eq_text u.email email

unfoldable pub is_user : Uuid → UserRow → Bool
is_user id u = eq_text u.id id

-- `role='admin' AND id != …`.
unfoldable pub is_other_admin : Uuid → UserRow → Bool
unfolding is_user
is_other_admin id u = eq_text u.role (lit "admin") && not (is_user id u)

abbrev signed_as : UserRow → Signed
signed_as u = record { id = u.id; email = u.email; role = u.role }

-- `if body.Role == "" { body.Role = "user" }`, and the test on the role.
abbrev role_of : Text → Text
role_of sent = if is_empty sent then lit "user" else sent

abbrev is_invalid : Text → Bool
is_invalid role = not (eq_text role (lit "user")) && not (eq_text role (lit "admin"))

abbrev demotes : Option Text → Bool
demotes none = false
demotes (some role) = eq_text role (lit "user")

abbrev sets_nothing : Option Text → Option Text → Bool
sets_nothing (some role) password = false
sets_nothing none none = true
sets_nothing none (some p) = is_empty p

module _ (l : Libraries) where
  -- `INSERT INTO users`; the emails of the table are unique.
  insert_user : UserRow → Bool → Answer Signed → Answer Signed → Users → Users × Answer Signed
  unfolding has_email
  insert_user u fault repeated failed users =
      if fault then (users, failed) else elim (find (has_email u.email) users) [
        | none ↦ (u ∷ users, ok 201 (signed_as u))
        | some other ↦ (users, repeated)
      ]

  -- `Register`; `id` is the key that the table makes.
  unfoldable pub register : Text → Option (Text × Text) → Bool → Users → Users × Answer Signed
  unfolding insert_user
  register id none fault users = (users, error 400 (lit "Invalid request body"))
  register id (some (typed, password)) fault users =
      let email = l.normalize typed in
      if is_empty email || is_empty password
      then (users, error 400 (lit "Email and password required"))
      else if ltb (l.count_bytes password) 6
      then (users, error 400 (lit "Password must be at least 6 characters"))
      else elim (l.generate password) [
        | none ↦ (users, error 500 (lit "Internal server error"))
        | some hash ↦
            insert_user (record { id = id; email = email; password_hash = hash; role = lit "user" })
              fault (error 409 (lit "Email already registered"))
              (error 500 (lit "Internal server error")) users
      ]

  unfoldable pub login : Option (Text × Text) → Users → Answer Signed
  unfolding has_email
  login none users = error 400 (lit "Invalid request body")
  login (some (typed, password)) users =
      let email = l.normalize typed in
      if is_empty email || is_empty password
      then error 400 (lit "Email and password required")
      else elim (find (has_email email) users) [
        | none ↦ error 401 (lit "Invalid credentials")
        | some u ↦
            if l.compare u.password_hash password
            then ok 200 (signed_as u)
            else error 401 (lit "Invalid credentials")
      ]

  unfoldable pub change_password :
      Text → Option (Text × Text) → Bool → Users → Users × Answer (Unit {0})
  unfolding is_user
  change_password id none fault users = (users, error 400 (lit "Invalid request body"))
  change_password id (some (current, new)) fault users =
      if is_empty current || is_empty new
      then (users, error 400 (lit "current_password and new_password required"))
      else if ltb (l.count_bytes new) 6
      then (users, error 400 (lit "New password must be at least 6 characters"))
      else elim (find (is_user id) users) [
        | none ↦ (users, error 404 (lit "User not found"))
        | some u ↦
            if l.compare u.password_hash current
            then elim (l.generate new) [
              | none ↦ (users, error 500 (lit "Internal server error"))
              | some hash ↦ if fault then (users, error 500 (lit "Internal server error")) else (
                update_where (is_user id) (λ r. record r { password_hash = hash }) users,
                ok 200 tt,
              )
            ]
            else (users, error 401 (lit "Current password is incorrect"))
      ]

  -- `hash, _ := …`: the hash of a password that bcrypt refuses is the empty text.
  hash_or_empty : Text → Text
  hash_or_empty password = elim (l.generate password) [ none ↦ [] | some hash ↦ hash ]

  -- The body has the email, the password and the role.
  unfoldable pub admin_create_user :
      Text → Option (Text × Text × Text) → Bool → Users → Users × Answer Signed
  unfolding insert_user hash_or_empty
  admin_create_user id none fault users = (users, error 400 (lit "Email and password required"))
  admin_create_user id (some (email, password, sent)) fault users =
      if is_empty email || is_empty password
      then (users, error 400 (lit "Email and password required"))
      else if is_invalid (role_of sent)
      then (users, error 400 (lit "Invalid role"))
      else insert_user
          (record {
            id = id;
            email = email;
            password_hash = hash_or_empty password;
            role = role_of sent;
          })
          fault (error 409 (lit "Email already registered"))
          (error 409 (lit "Email already registered")) users

  -- The `SET` of the update: the role, if the body has one, and the hash, if its password is not empty.
  set_user : Option Text → Option Text → UserRow → UserRow
  unfolding hash_or_empty
  set_user role password u = record u {
    role = elim role [ none ↦ u.role | some r ↦ r ];
    password_hash = elim password [
      | none ↦ u.password_hash
      | some p ↦ if is_empty p then u.password_hash else hash_or_empty p
    ];
  }

  -- `uncounted` says that the query for the other administrators fails: the count stays 0. The id is
  -- the value that the database reads from the path.
  unfoldable pub admin_update_user :
      Uuid → Option (Option Text × Option Text) → Bool → Bool → Users → Users × Answer Signed
  unfolding is_user is_other_admin set_user
  admin_update_user id none uncounted fault users = (users, error 400 (lit "Invalid request body"))
  admin_update_user id (some (role, password)) uncounted fault users =
      let count = if uncounted then 0 else length (filter (is_other_admin id) users) in
      if demotes role && (count == 0)
      then (users, error 400 (lit "Cannot demote the only admin"))
      else if sets_nothing role password
      then (users, error 400 (lit "Nothing to update"))
      else if fault
      then (users, error 404 (lit "User not found"))
      else elim (find (is_user id) users) [
        | none ↦ (users, error 404 (lit "User not found"))
        | some u ↦ (
          update_where (is_user id) (set_user role password) users,
          ok 200 (signed_as (set_user role password u)),
        )
      ]

-- `AdminDeleteUser` by the user `me`. `sent` is the text in the path, which the handler compares with
-- the token's as a text; `cast` reads a text as a UUID, in any of its spellings, and has none where it
-- is not one. The jobs of a deleted user go with it (`ON DELETE CASCADE`).
unfoldable pub admin_delete_user :
    (Text → Option Uuid) → Uuid → Text → Bool → Users × Jobs → (Users × Jobs) × Answer (Unit {0})
unfolding is_user is_owned
admin_delete_user cast me sent fault (users, jobs) =
    if eq_text sent me
    then ((users, jobs), error 400 (lit "Cannot delete your own account"))
    else elim (if fault then none else cast sent) [
      | none ↦ ((users, jobs), error 404 (lit "User not found"))
      | some id ↦ elim (find (is_user id) users) [
        | none ↦ ((users, jobs), error 404 (lit "User not found"))
        | some u ↦ (
          (filter (λ r. not (is_user id r)) users, filter (λ row. not (is_owned id row)) jobs),
          ok 204 tt,
        )
      ]
    ]
