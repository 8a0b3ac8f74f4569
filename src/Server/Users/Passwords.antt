-- ===== src/Server/Users/Passwords.antt =====
-- The profile page's change of a password at the API.
use irwandhi_gitops_lab.Base.{
  ◌≡◌, ◌≢◌, ◌↔◌, ◌≤◌, refl, ◌∙◌, Bool, true, false, Option, none, some, [], ◌∷◌, arith, ltb,
  is_empty, length, Bool-cases, Option-cases, inl, inr,
}
use irwandhi_gitops_lab.Text.{Text, lit, eq_text}
use irwandhi_gitops_lab.Json.{Json, Object, get}
use irwandhi_gitops_lab.Api.{Request}
use irwandhi_gitops_lab.Api.Auth as Auth
use irwandhi_gitops_lab.Effects.{Effect}
use irwandhi_gitops_lab.Pages.Profile.{Page, Msg, update}
use irwandhi_gitops_lab.Server.Store.{Uuid, find, update_where}
use irwandhi_gitops_lab.Server.Store.Laws.{find-update_where-same}
use irwandhi_gitops_lab.Server.Answer.{Answer, ok, error}
use irwandhi_gitops_lab.Server.Users.{UserRow, Users, Libraries, is_user, change_password}

not_empty : (s : Text) → 6 ≤ length s → is_empty s ≡ false
not_empty [] h = absurd (omega (arith, h))
not_empty (c ∷ s) h = refl

rehashed :
    (users : Users) (id hash : Text) (u : UserRow)
    → find (is_user id) users ≡ some u
    → find (is_user id) (update_where (is_user id) (λ r. record r { password_hash = hash }) users)
      ≡ some (record u { password_hash = hash })
unfolding is_user
rehashed users id hash u found =
    find-update_where-same (is_user id) (λ r. true) (is_user id)
      (λ r. record r { password_hash = hash }) users (λ r. ground arith) (λ r. refl)
    ∙ rw found refl

-- Whether an answer is an error with a message.
unfoldable pub says : {A : Type 0} → Text → Answer A → Bool
says text (ok status value) = false
says text (error status message) = eq_text message text

-- `json.Decoder` on the two fields of the body: texts are read as they are.
pub record Decoder : Type 0 where
  pub decode : Json → Option (Text × Text)
  pub texts :
      (o : Object) (current new : Text)
      → get (lit "current_password") o ≡ some (Json.str current)
      → get (lit "new_password") o ≡ some (Json.str new)
      → decode (Json.obj o) ≡ some (current, new)

unfoldable pub received : Decoder → Request → Option (Text × Text)
received d r = elim r.body [ none ↦ none | some body ↦ d.decode body ]

received_lem :
    (d : Decoder) (current new : Text)
    → received d (Auth.change_password current new) ≡ some (current, new)
unfolding received Auth.change_password
received_lem d current new =
    d.texts _ current new (unfold get lit eq_text in refl) (unfold get lit eq_text in refl)

-- What the form sends when it is submitted, and on which new passwords it sends it.
sent :
    (p : Page) (r : Request)
    → (update p Msg.submit).1 ≡ Effect.call r ∷ []
    → (6 ≤ length p.next) × (r ≡ Auth.change_password p.current p.next)
unfolding update
sent p r h = ground (arith, h)

module _ (l : Libraries) (d : Decoder) where
  -- Whatever request the profile page's form makes, of an account that is in the table, and where no
  -- statement fails: the API does not answer that the body is invalid or that the new password is too
  -- short; it answers 200 exactly if the current password typed is not empty and is the account's and
  -- bcrypt can hash the new one; after the answer 200 the new password is the account's, which is
  -- otherwise as before, and after any other answer the table is as before.
  pub change_password-accepted :
      (p : Page) (r : Request) (id : Uuid) (users : Users) (u : UserRow)
      → (update p Msg.submit).1 ≡ Effect.call r ∷ []
      → find (is_user id) users ≡ some u
      → let (users', answer) = change_password l id (received d r) false users in
        (says (lit "Invalid request body") answer ≡ false)
        × (says (lit "New password must be at least 6 characters") answer ≡ false)
        × ((answer ≡ ok 200 tt) ↔ (
            (is_empty p.current ≡ false)
            × (l.compare u.password_hash p.current ≡ true)
            × (l.generate p.next ≢ none)))
        × (answer ≡ ok 200 tt
            → (hash : Text) × (find (is_user id) users' ≡ some (record u { password_hash = hash }))
              × (l.compare hash p.next ≡ true))
        × (answer ≢ ok 200 tt → users' ≡ users)
  unfolding change_password is_user says lit eq_text
  change_password-accepted p r id users u calls found =
      let (long, same) = sent p r calls in
      let body : received d r ≡ some (p.current, p.next) =
        rw same (received_lem d p.current p.next) in
      let filled = not_empty p.next long in
      let enough : ltb (l.count_bytes p.next) 6 ≡ false =
        ground (arith, long, l.length_le_bytes p.next) in
      elim (Bool-cases (is_empty p.current)) [
        | inl missing ↦
            rw (body, missing, change_password) (refl, refl, (λ e. cc, λ h. cc), λ e. cc, λ e. refl)
        | inr given ↦ elim (Bool-cases (l.compare u.password_hash p.current)) [
          | inl fits ↦ elim (Option-cases (l.generate p.next)) [
            | inl refused ↦
                rw (body, given, filled, enough, found, fits, refused, change_password)
                  (refl, refl, (λ e. cc, λ h. absurd (h.2 refl)), λ e. cc, λ e. refl)
            | inr (hash, made) ↦
                rw (body, given, filled, enough, found, fits, made, change_password)
                  (
                    refl,
                    refl,
                    (λ e. (refl, refl, λ h. cc), λ h. refl),
                    λ e.
                        (hash, rehashed users id hash u found, l.compare-generate p.next hash made),
                    λ h. absurd (h refl),
                  )
          ]
          | inr differs ↦
              rw (body, given, filled, enough, found, differs, change_password)
                (refl, refl, (λ e. cc, λ h. cc), λ e. cc, λ e. refl)
        ]
      ]
