-- ===== src/Tests/Accounts.antt =====
-- The handlers for accounts at concrete inputs. The library here hashes a password to itself, and
-- normalizes a text by leaving out its blanks.
use irwandhi_gitops_lab.Base.{
  ◌≢◌, ◌↔◌, is_empty, ◌≡◌, refl, true, false, not, Option, none, some, [], ◌∷◌, arith,
  if◌then◌else◌, ltb, ◌==◌, filter, length,
}
use irwandhi_gitops_lab.Text.{Text, lit, eq_text, eq_text_iff}
use irwandhi_gitops_lab.Server.Store.{find}
use irwandhi_gitops_lab.Server.Answer.{ok, error}
use irwandhi_gitops_lab.Server.Users.{
  UserRow, Libraries, Signed, has_email, register, login, admin_create_user, admin_update_user,
  change_password, is_user,
}
use irwandhi_gitops_lab.Server.Users.Credentials.{register-login, admin_create_user-login}
use irwandhi_gitops_lab.Pages.Profile.{Page, blank, update}
use irwandhi_gitops_lab.Json.{Json, Object, get}
use irwandhi_gitops_lab.Api.Auth.{change_password as change}
use irwandhi_gitops_lab.Server.Users.Passwords.{Decoder, says, received, change_password-accepted}
use irwandhi_gitops_lab.Server.Users.Admins.{has_admin, Reach, Step, Reach-has_admin}

abbrev without_blanks : Text → Text
without_blanks = filter (λ c. not (c == 32))

generate : Text → Option Text
generate p = if ltb 72 (length p) then none else some p

compare-generate : (p hash : Text) → generate p ≡ some hash → eq_text hash p ≡ true
unfolding generate
compare-generate p hash made = (eq_text_iff hash p).1 (ground (arith, made))

abbrev plain : Libraries
plain = record {
  generate = generate;
  compare = eq_text;
  normalize = without_blanks;
  count_bytes = length;
  compare-generate = compare-generate;
  length_le_bytes = λ s. omega arith;
}

abbrev root : UserRow
root = record {
  id = lit "1";
  email = lit "root@x.org";
  password_hash = lit "secret";
  role = lit "admin";
}

abbrev ann : Signed
ann = record { id = lit "2"; email = lit "ann@x.org"; role = lit "user" }

register-login_example :
    login plain
      (some (lit " ann@x.org", lit "abc123"))
      (register plain (lit "2") (some (lit " ann@x.org", lit "abc123")) false (root ∷ [])).0
    ≡ ok 200 ann
unfolding register filter find has_email generate eq_text lit
register-login_example =
    register-login plain (lit "2") (lit " ann@x.org") (lit "abc123") false (root ∷ []) ann refl

admin_create_user-login_example :
    login plain
      (some (lit " ann@x.org", lit "abc123"))
      (admin_create_user plain
        (lit "2")
        (some (lit " ann@x.org", lit "abc123", []))
        false
        (root ∷ [])).0
    ≡ (if is_empty (without_blanks (lit " ann@x.org"))
        then error 400 (lit "Email and password required")
        else error 401 (lit "Invalid credentials"))
unfolding admin_create_user filter find has_email generate eq_text lit
admin_create_user-login_example =
    admin_create_user-login plain (lit "2") (lit " ann@x.org") (lit "abc123") [] false (root ∷ [])
      (record { id = lit "2"; email = lit " ann@x.org"; role = lit "user" }) refl (λ e. cc e) refl

Reach-has_admin_example :
    has_admin
      (admin_update_user plain (lit "1") (some (some (lit "user"), none)) false false (root ∷ [])).0
    ≡ true
unfolding has_admin eq_text lit
Reach-has_admin_example =
    Reach-has_admin plain (λ s. some s)
      (Reach.next Reach.start
        (Step.updated (root ∷ []) [] (lit "1") (some (lit "user")) none false false refl))
      refl

abbrev typed : Page
typed = record blank { current = lit "secret"; next = lit "abc123"; confirm = lit "abc123" }

-- A decoder that reads the two texts of an object.
text_of : Option Json → Option Text
text_of (some (Json.str s)) = some s
text_of _ = none

both : Option Text → Option Text → Option (Text × Text)
both (some a) (some b) = some (a, b)
both _ _ = none

abbrev decode : Json → Option (Text × Text)
decode (Json.obj o) =
    both (text_of (get (lit "current_password") o)) (text_of (get (lit "new_password") o))
decode _ = none

decode_texts :
    (o : Object) (current new : Text)
    → get (lit "current_password") o ≡ some (Json.str current)
    → get (lit "new_password") o ≡ some (Json.str new)
    → decode (Json.obj o) ≡ some (current, new)
unfolding both text_of
decode_texts o current new a b = rw (a, b) refl

abbrev decoder : Decoder
decoder = record { decode = decode; texts = decode_texts }

change_password-accepted_example :
    let (users', answer) =
      change_password plain
        (lit "1")
        (received decoder (change typed.current typed.next))
        false
        (root ∷ []) in
    (says (lit "Invalid request body") answer ≡ false)
    × (says (lit "New password must be at least 6 characters") answer ≡ false)
    × ((answer ≡ ok 200 tt) ↔ (
        (is_empty typed.current ≡ false)
        × (eq_text root.password_hash typed.current ≡ true)
        × (generate typed.next ≢ none)))
    × (answer ≡ ok 200 tt
        → (hash : Text) × (find (is_user (lit "1")) users'
            ≡ some (record root { password_hash = hash }))
          × (eq_text hash typed.next ≡ true))
    × (answer ≢ ok 200 tt → users' ≡ root ∷ [])
unfolding find is_user blank update eq_text lit
change_password-accepted_example =
    change_password-accepted plain decoder typed (change typed.current typed.next) (lit "1")
      (root ∷ []) root refl refl
