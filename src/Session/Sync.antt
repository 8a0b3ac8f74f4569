-- ===== src/Session/Sync.antt =====
-- The provider's state against what a page load would make of localStorage.
use irwandhi_gitops_lab.Base.{true, false, Option, none, some, ◌≡◌, refl, ap, ◌≢◌, ◌↔◌, ◌++◌, arith}
use irwandhi_gitops_lab.Text.{Text, lit}
use irwandhi_gitops_lab.Api.{Request, sign}
use irwandhi_gitops_lab.Session.{
  User, UserCodec, Storage, Auth, Session, mount, load, set_auth, clear_auth, is_authenticated,
}

module _ (codec : UserCodec) where
  -- A page load would find the state that the provider has.
  abbrev pub InSync : Session → Type 0
  InSync s = mount codec s.storage ≡ s.auth

  -- Signing in with a token and a user, signing out, and loading the page again.
  pub data Step : Session → Session → Type 0 where
    sign_in :
        (token : Text) (user : User) (s : Session)
        → Step s (set_auth codec (some token) (some user) s)
    sign_out : (s : Session) → Step s (clear_auth s)
    reload : (s : Session) → Step s (load codec s.storage)

  pub data Reach (storage : Storage) : Session → Type 0 where
    start : Reach storage (load codec storage)
    next : {s t : Session} → Reach storage s → Step s t → Reach storage t

  set_auth-InSync :
      (token : Text) (user : User) (s : Session)
      → InSync (set_auth codec (some token) (some user) s)
  unfolding mount set_auth
  set_auth-InSync token user s = rw (codec.parse-stringify user)

  Step-InSync : {s t : Session} → Step s t → InSync t
  unfolding mount clear_auth load
  Step-InSync (sign_in token user s) = set_auth-InSync token user s
  Step-InSync (sign_out s) = refl
  Step-InSync (reload s) = refl

  -- In a session that came about by loading pages, signing in with a token and a user, and signing
  -- out, loading the page again changes nothing.
  pub Reach-InSync : (storage : Storage) (s : Session) → Reach storage s → InSync s
  unfolding load
  Reach-InSync storage _ start = refl
  Reach-InSync storage _ (next r step) = Step-InSync step

  sign_iff :
      (s : Session) (r : Request)
      → InSync s
      → r.authorization ≡ none
      → ((sign s.storage.token r).authorization ≢ none) ↔ (is_authenticated s.auth ≡ true)
  unfolding mount sign is_authenticated
  sign_iff s r h n =
      let same : s.storage.token ≡ s.auth.token = ap (λ (a : Auth). a.token) h in ground arith

  -- In such a session, a request without a token is given one exactly when the session counts as
  -- signed in.
  pub Reach-sign_iff :
      (storage : Storage) (s : Session) (r : Request)
      → Reach storage s
      → r.authorization ≡ none
      → ((sign s.storage.token r).authorization ≢ none) ↔ (is_authenticated s.auth ≡ true)
  Reach-sign_iff storage s r reach n = sign_iff s r (Reach-InSync storage s reach) n

  -- A sign-in answer without a token leaves the session signed out until the page is loaded again:
  -- then it counts as signed in, and requests carry the text "undefined" as their token.
  pub set_auth-lost_token :
      (user : Option User) (s : Session) (r : Request)
      → let s' = set_auth codec none user s in
        let later = load codec s'.storage in
        (is_authenticated s'.auth ≡ false)
        × (is_authenticated later.auth ≡ true)
        × ((sign later.storage.token r).authorization ≡ some (lit "Bearer " ++ lit "undefined"))
  unfolding set_auth load mount sign is_authenticated lit
  set_auth-lost_token user s r = (refl, refl, refl)
