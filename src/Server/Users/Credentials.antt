-- ===== src/Server/Users/Credentials.antt =====
-- Who can sign in with what.
use irwandhi_gitops_lab.Base.{
  if◌then◌else◌, ℕ, ◌≡◌, ◌≢◌, refl, sym, Bool, true, false, ◌||◌, none, some, ◌∷◌, arith, ltb,
  is_empty, Bool-cases, Option-cases, inl, inr,
}
use irwandhi_gitops_lab.Text.{Text, lit, eq_text, eq_text_refl, eq_text_iff}
use irwandhi_gitops_lab.Server.Store.{find}
use irwandhi_gitops_lab.Server.Answer.{ok, error}
use irwandhi_gitops_lab.Server.Users.{
  UserRow, Users, Libraries, Signed, has_email, insert_user, register, login, admin_create_user,
  hash_or_empty, signed_as, role_of, is_invalid,
}

never : {A : Type 0} {code code' : ℕ} {message : Text} {a : A} → error code message ≡ ok code' a → ⊥
never e = cc

still_unknown :
    (u : UserRow) (email : Text) (users : Users)
    → email ≢ u.email
    → find (has_email email) users ≡ none
    → find (has_email email) (u ∷ users) ≡ none
unfolding find has_email
still_unknown u email users ne free = elim (Bool-cases (eq_text u.email email)) [
  | inl h ↦ absurd (ne (sym ((eq_text_iff u.email email).0 h)))
  | inr h ↦ rw (h, free) refl
]

module _ (l : Libraries) where
  -- A new account of this email and hash signs in with a password of that hash.
  signs_in :
      (u : UserRow) (typed password : Text) (users : Users)
      → u.email ≡ l.normalize typed
      → is_empty (l.normalize typed) || is_empty password ≡ false
      → l.compare u.password_hash password ≡ true
      → login l (some (typed, password)) (u ∷ users) ≡ ok 200 (signed_as u)
  unfolding login find has_email
  signs_in u typed password users same given fits =
      rw (given, same, eq_text_refl (l.normalize typed), fits) refl

  -- What an insertion that is answered by 201 has done.
  inserted_user :
      (u : UserRow) (fault : Bool) (repeated failed : Text) (a b : ℕ) (users : Users) (s : Signed)
      → (insert_user l u fault (error a repeated) (error b failed) users).1 ≡ ok 201 s
      → (insert_user l u fault (error a repeated) (error b failed) users
          ≡ (u ∷ users, ok 201 (signed_as u)))
        × (s ≡ signed_as u)
  unfolding insert_user
  inserted_user u true repeated failed a b users s h = absurd (never h)
  inserted_user u false repeated failed a b users s h =
      elim (Option-cases (find (has_email u.email) users)) [
        | inl e ↦ let same = rw (e, insert_user) at h in (rw (e, insert_user) refl, cc)
        | inr (other, e) ↦ absurd (never (rw (e, insert_user) at h))
      ]

  -- An account that was registered, as the answer 201 says, is signed in by the same email and
  -- password with the same answer.
  pub register-login :
      (id typed password : Text) (fault : Bool) (users : Users) (s : Signed)
      → (register l id (some (typed, password)) fault users).1 ≡ ok 201 s
      → login l (some (typed, password)) (register l id (some (typed, password)) fault users).0
        ≡ ok 200 s
  unfolding register
  register-login id typed password fault users s h =
      elim (Bool-cases (is_empty (l.normalize typed) || is_empty password)) [
        | inl missing ↦ absurd (never (rw (missing, register) at h))
        | inr given ↦ elim (Bool-cases (ltb (l.count_bytes password) 6)) [
          | inl short ↦ absurd (never (rw (given, short, register) at h))
          | inr long ↦ elim (Option-cases (l.generate password)) [
            | inl refused ↦ absurd (never (rw (given, long, refused, register) at h))
            | inr (hash, made) ↦
                let u : UserRow = record {
                  id = id;
                  email = l.normalize typed;
                  password_hash = hash;
                  role = lit "user";
                } in
                let (done, same) =
                  inserted_user u fault _ _ _ _ users s (rw (given, long, made, register) at h) in
                rw (given, long, made, register, done, same)
                  (signs_in u typed password users refl given
                    (l.compare-generate password hash made))
          ]
        ]
      ]

  unknown :
      (typed password : Text) (users : Users)
      → is_empty (l.normalize typed) ≡ false
      → is_empty password ≡ false
      → find (has_email (l.normalize typed)) users ≡ none
      → login l (some (typed, password)) users ≡ error 401 (lit "Invalid credentials")
  unfolding login
  unknown typed password users given given' free = rw (given, given', free, login) refl

  emptied :
      (typed password : Text) (users : Users)
      → is_empty (l.normalize typed) ≡ true
      → login l (some (typed, password)) users ≡ error 400 (lit "Email and password required")
  unfolding login
  emptied typed password users blank = rw (blank, login) refl

  -- An account that an administrator creates, as the answer 201 says, with an email that is not as
  -- the sign-in makes it, trimmed and in lower case, cannot sign in, where no other account has the
  -- email that the sign-in makes of it: what was typed is answered by 400 if nothing is left of that
  -- email, and by 401 if something is.
  pub admin_create_user-login :
      (id email password role : Text) (fault : Bool) (users : Users) (s : Signed)
      → (admin_create_user l id (some (email, password, role)) fault users).1 ≡ ok 201 s
      → l.normalize email ≢ email
      → find (has_email (l.normalize email)) users ≡ none
      → login l
          (some (email, password))
          (admin_create_user l id (some (email, password, role)) fault users).0
        ≡ (if is_empty (l.normalize email)
            then error 400 (lit "Email and password required")
            else error 401 (lit "Invalid credentials"))
  unfolding admin_create_user
  admin_create_user-login id email password role fault users s h ne free =
      elim (Bool-cases (is_empty email || is_empty password)) [
        | inl missing ↦ absurd (never (rw (missing, admin_create_user) at h))
        | inr given' ↦ elim (Bool-cases (is_invalid (role_of role))) [
          | inl invalid ↦ absurd (never (rw (given', invalid, admin_create_user) at h))
          | inr valid ↦ elim (Bool-cases (is_empty (l.normalize email))) [
            | inl blank ↦ rw blank (emptied email password _ blank)
            | inr given ↦
                let u : UserRow = record {
                  id = id;
                  email = email;
                  password_hash = hash_or_empty l password;
                  role = role_of role;
                } in
                let (done, same) =
                  inserted_user u fault _ _ _ _ users s
                    (rw (given', valid, admin_create_user) at h) in
                rw given (
                  rw (given', valid, admin_create_user, done)
                    (unknown email password (u ∷ users) given (ground (arith, given'))
                      (still_unknown u (l.normalize email) users ne free)))
          ]
        ]
      ]
