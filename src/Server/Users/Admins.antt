-- ===== src/Server/Users/Admins.antt =====
-- The handlers for accounts leave an administrator.
use irwandhi_gitops_lab.Base.{
  if◌then◌else◌, ◌≡◌, ◌≢◌, refl, sym, ◌∙◌, Bool, true, false, ◌||◌, not, Option, none, some, [],
  ◌∷◌, arith, ◌==◌, filter, length, Bool-cases, Option-cases, inl, inr,
}
use irwandhi_gitops_lab.Text.{Text, lit, eq_text, eq_text_refl, eq_text_iff}
use irwandhi_gitops_lab.Server.Store.{Uuid, find, update_where}
use irwandhi_gitops_lab.Server.Answer.{ok}
use irwandhi_gitops_lab.Server.Jobs.{Jobs}
use irwandhi_gitops_lab.Server.Users.{
  UserRow, Users, Libraries, is_user, is_other_admin, insert_user, register, change_password,
  admin_create_user, admin_update_user, admin_delete_user, set_user, demotes,
}

abbrev pub is_admin : UserRow → Bool
is_admin u = eq_text u.role (lit "admin")

unfoldable pub has_admin : Users → Bool
has_admin [] = false
has_admin (u ∷ us) = let rest = has_admin us in is_admin u || rest

-- An update that takes nobody's role of administrator.
kept_by_update :
    (test : UserRow → Bool) (set : UserRow → UserRow) (users : Users)
    → ((u : UserRow) → is_admin u ≡ true → is_admin (set u) ≡ true)
    → has_admin users ≡ true
    → has_admin (update_where test set users) ≡ true
unfolding has_admin update_where
kept_by_update test set [] keeps h = h
kept_by_update test set (u ∷ us) keeps h =
    ground (arith, kept_by_update test set us keeps, keeps u, h)

-- An update of one user, where another is an administrator.
kept_by_other :
    (id : Text) (set : UserRow → UserRow) (users : Users)
    → length (filter (is_other_admin id) users) == 0 ≡ false
    → has_admin (update_where (is_user id) set users) ≡ true
unfolding has_admin update_where is_other_admin filter
kept_by_other id set [] h = cc
kept_by_other id set (u ∷ us) h = ground (arith, kept_by_other id set us, h)

-- A deletion of one user by another who is an administrator.
kept_by_delete :
    (me id : Text) (admin : UserRow) (users : Users)
    → me ≢ id
    → find (is_user me) users ≡ some admin
    → is_admin admin ≡ true
    → has_admin (filter (λ u. not (is_user id u)) users) ≡ true
unfolding has_admin filter find is_user
kept_by_delete me id admin [] ne found h = cc
kept_by_delete me id admin (u ∷ us) ne found h = elim (Bool-cases (eq_text u.id me)) [
  | inl own ↦ elim (Bool-cases (eq_text u.id id)) [
    | inl hit ↦ absurd (ne (sym ((eq_text_iff u.id me).0 own) ∙ (eq_text_iff u.id id).0 hit))
    | inr miss ↦
        let same = rw (own, find) at found in
        let its : is_admin u ≡ true = ground (arith, same, h) in rw (miss, its) refl
  ]
  | inr other ↦ ground (arith, kept_by_delete me id admin us ne (rw (other, find) at found) h)
]

-- The roles that the page for accounts can send.
abbrev pub is_known : Option Text → Bool
is_known none = true
is_known (some role) = eq_text role (lit "user") || eq_text role (lit "admin")

keeps_role :
    (l : Libraries) (role password : Option Text) (u : UserRow)
    → demotes role ≡ false
    → is_known role ≡ true
    → is_admin u ≡ true
    → is_admin (set_user l role password u) ≡ true
unfolding set_user
keeps_role l none password u no_demotion known h = h
keeps_role l (some role) password u no_demotion known h = ground (arith, no_demotion, known)

kept_by_admin_update :
    (l : Libraries) (id : Text) (role password : Option Text) (uncounted fault : Bool)
    (users : Users)
    → is_known role ≡ true
    → has_admin users ≡ true
    → has_admin (admin_update_user l id (some (role, password)) uncounted fault users).0 ≡ true
unfolding admin_update_user
kept_by_admin_update l id role password uncounted fault users known h =
    elim (Bool-cases (demotes role)) [
      | inl demoted ↦
          elim (Bool-cases
            ((if uncounted then 0 else length (filter (is_other_admin id) users)) == 0)) [
              | inl only ↦ rw (demoted, only, admin_update_user) h
              | inr others ↦
                  rw (demoted, others, admin_update_user)
                    (ground (
                      arith,
                      h,
                      kept_by_other id (set_user l role password) users (ground (arith, others)),
                    ))
            ]
      | inr no_demotion ↦
          rw (no_demotion, admin_update_user)
            (ground (
              arith,
              h,
              kept_by_update (is_user id) (set_user l role password) users
                  (λ u. keeps_role l role password u no_demotion known) h,
            ))
    ]

kept_by_register :
    (l : Libraries) (id : Text) (b : Option (Text × Text)) (fault : Bool) (users : Users)
    → has_admin users ≡ true
    → has_admin (register l id b fault users).0 ≡ true
unfolding register insert_user has_admin
kept_by_register l id none fault users h = h
kept_by_register l id (some (typed, password)) fault users h = ground (arith, h)

kept_by_create :
    (l : Libraries) (id : Text) (b : Option (Text × Text × Text)) (fault : Bool) (users : Users)
    → has_admin users ≡ true
    → has_admin (admin_create_user l id b fault users).0 ≡ true
unfolding admin_create_user insert_user has_admin
kept_by_create l id none fault users h = h
kept_by_create l id (some (email, password, role)) fault users h = ground (arith, h)

kept_by_change :
    (l : Libraries) (id : Text) (b : Option (Text × Text)) (fault : Bool) (users : Users)
    → has_admin users ≡ true
    → has_admin (change_password l id b fault users).0 ≡ true
unfolding change_password
kept_by_change l id none fault users h = h
kept_by_change l id (some (current, new)) fault users h = elim (Option-cases (l.generate new)) [
  | inl refused ↦ ground (arith, h, refused)
  | inr (hash, made) ↦ ground (
    arith,
    h,
    made,
    kept_by_update (is_user id) (λ r. record r { password_hash = hash }) users (λ u its. its) h,
  )
]

kept_by_admin_delete :
    (cast : Text → Option Uuid) (me sent : Text) (fault : Bool) (users : Users) (jobs : Jobs)
    (admin : UserRow)
    → ((id : Uuid) → cast sent ≡ some id → id ≡ sent)
    → find (is_user me) users ≡ some admin
    → is_admin admin ≡ true
    → has_admin users ≡ true
    → has_admin (admin_delete_user cast me sent fault (users, jobs)).0.0 ≡ true
unfolding admin_delete_user
kept_by_admin_delete cast me sent fault users jobs admin plain found its h =
    elim (Bool-cases (eq_text sent me)) [
      | inl own ↦ rw (own, admin_delete_user) h
      | inr other ↦ elim (Option-cases (if fault then none else cast sent)) [
        | inl no_id ↦ rw (other, no_id, admin_delete_user) h
        | inr (id, read) ↦
            let same : id ≡ sent = plain id (ground (arith, read)) in
            let apart : me ≢ id = λ e. let hit = (eq_text_iff sent me).1 (sym (e ∙ same)) in cc in
            rw (other, read, admin_delete_user)
              (ground (arith, h, kept_by_delete me id admin users apart found its))
      ]
    ]

-- Users register and change their passwords; administrators, who are in the table, create accounts,
-- change them as the page for accounts can, and delete them, with ids spelled as the API spells them.
-- The accounts go with the jobs.
pub data Step (l : Libraries) (cast : Text → Option Uuid)
    : Users × Jobs → Users × Jobs → Type 0 where
  registered :
      (users : Users) (jobs : Jobs) (id : Text) (b : Option (Text × Text)) (fault : Bool)
      → Step l cast (users, jobs) ((register l id b fault users).0, jobs)
  changed :
      (users : Users) (jobs : Jobs) (id : Text) (b : Option (Text × Text)) (fault : Bool)
      → Step l cast (users, jobs) ((change_password l id b fault users).0, jobs)
  created :
      (users : Users) (jobs : Jobs) (id : Text) (b : Option (Text × Text × Text)) (fault : Bool)
      → Step l cast (users, jobs) ((admin_create_user l id b fault users).0, jobs)
  updated :
      (users : Users) (jobs : Jobs) (id : Text) (role password : Option Text)
      (uncounted fault : Bool)
      → is_known role ≡ true
      → Step l cast
          (users, jobs)
          ((admin_update_user l id (some (role, password)) uncounted fault users).0, jobs)
  deleted :
      (users : Users) (jobs : Jobs) (me sent : Text) (fault : Bool) (admin : UserRow)
      → ((id : Uuid) → cast sent ≡ some id → id ≡ sent)
      → find (is_user me) users ≡ some admin
      → is_admin admin ≡ true
      → Step l cast (users, jobs) (admin_delete_user cast me sent fault (users, jobs)).0

pub data Reach (l : Libraries) (cast : Text → Option Uuid) (start_at : Users × Jobs)
    : Users × Jobs → Type 0 where
  start : Reach l cast start_at start_at
  next : {w v : Users × Jobs} → Reach l cast start_at w → Step l cast w v → Reach l cast start_at v

step-has_admin :
    (l : Libraries) (cast : Text → Option Uuid) {w v : Users × Jobs}
    → Step l cast w v
    → has_admin w.0 ≡ true
    → has_admin v.0 ≡ true
step-has_admin l cast (registered users jobs id b fault) h = kept_by_register l id b fault users h
step-has_admin l cast (changed users jobs id b fault) h = kept_by_change l id b fault users h
step-has_admin l cast (created users jobs id b fault) h = kept_by_create l id b fault users h
step-has_admin l cast (updated users jobs id role password uncounted fault known) h =
    kept_by_admin_update l id role password uncounted fault users known h
step-has_admin l cast (deleted users jobs me sent fault admin plain found its) h =
    kept_by_admin_delete cast me sent fault users jobs admin plain found its h

-- Where there is an administrator, there is one after any sequence of registrations, changes of
-- passwords, and creations, updates and deletions by administrators who are in the table, if each
-- update sends no role, "user" or "admin", and if each deletion sends an id in the spelling that the
-- database gives it, or no UUID.
pub Reach-has_admin :
    (l : Libraries) (cast : Text → Option Uuid) {w v : Users × Jobs}
    → Reach l cast w v
    → has_admin w.0 ≡ true
    → has_admin v.0 ≡ true
Reach-has_admin l cast start h = h
Reach-has_admin l cast (next reach step) h =
    step-has_admin l cast step (Reach-has_admin l cast reach h)

-- Another spelling ends that: the only user, an administrator, who sends the own id in a spelling
-- other than the database's, is deleted.
pub odd_spelling :
    (cast : Text → Option Uuid) (u : UserRow) (sent : Text) (jobs : Jobs)
    → eq_text sent u.id ≡ false
    → cast sent ≡ some u.id
    → let ((users', jobs'), answer) = admin_delete_user cast u.id sent false (u ∷ [], jobs) in
      (has_admin users' ≡ false) × (answer ≡ ok 204 tt)
unfolding admin_delete_user has_admin find filter is_user
odd_spelling cast u sent jobs other read = ground (arith, other, read, eq_text_refl u.id)

-- Any other role ends that: where one user alone is in the table, an administrator, an update of it
-- with a role that is neither "user" nor "admin" is answered by 200 and leaves no administrator.
pub odd_role :
    (l : Libraries) (u : UserRow) (role : Text)
    → eq_text role (lit "user") ≡ false
    → eq_text role (lit "admin") ≡ false
    → (has_admin (admin_update_user l u.id (some (some role, none)) false false (u ∷ [])).0 ≡ false)
      × ((admin_update_user l u.id (some (some role, none)) false false (u ∷ [])).1
          ≡ ok 200 (record { id = u.id; email = u.email; role = role }))
unfolding admin_update_user has_admin find update_where is_user set_user
odd_role l u role not_user not_admin = ground (arith, not_user, eq_text_refl u.id, not_admin)
