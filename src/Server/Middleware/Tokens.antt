-- ===== src/Server/Middleware/Tokens.antt =====
-- The client's session at the API's gate.
use irwandhi_gitops_lab.Base.{
  ◌≡◌, refl, ap, Option, none, some, if◌then◌else◌, Bool-cases, inl, inr,
}
use irwandhi_gitops_lab.Text.{Text, lit, truthy, starts_with}
use irwandhi_gitops_lab.Api.{Request, sign}
use irwandhi_gitops_lab.Session.{UserCodec, Storage, Session, Auth, mount}
use irwandhi_gitops_lab.Session.Sync.{Reach, Reach-InSync}
use irwandhi_gitops_lab.Server.Middleware.{Claims, Gate, require_auth}

module _ (parse : Text → Option Claims) where
  -- What the gate makes of a session's token.
  abbrev pub admitted : Option Text → Gate
  admitted none = Gate.refused 401 (lit "Unauthorized")
  admitted (some token) =
      if truthy token
      then elim (parse token) [
        | none ↦ Gate.refused 401 (lit "Invalid or expired token")
        | some claims ↦ Gate.passed claims
      ]
      else Gate.refused 401 (lit "Unauthorized")

  pub sign-admitted :
      (token : Option Text) (r : Request)
      → r.authorization ≡ none
      → require_auth parse (sign token r).authorization ≡ admitted token
  unfolding require_auth sign starts_with lit
  sign-admitted none r bare = rw bare refl
  sign-admitted (some token) r bare = elim (Bool-cases (truthy token)) [
    | inl e ↦ rw e refl
    | inr e ↦ rw (e, bare) refl
  ]

  -- In a session that came about by loading pages, signing in and signing out, a request that the
  -- client signs passes the API's gate exactly with the claims that the session's token is valid for;
  -- without a token, or with an empty one, it is answered by 401 as unsigned, and with a token that
  -- is not valid by 401 as such.
  pub Reach-require_auth :
      (codec : UserCodec) (storage : Storage) (s : Session) (r : Request)
      → Reach codec storage s
      → r.authorization ≡ none
      → require_auth parse (sign s.storage.token r).authorization ≡ admitted s.auth.token
  unfolding mount
  Reach-require_auth codec storage s r reach bare =
      let same : s.storage.token ≡ s.auth.token =
        ap (λ (a : Auth). a.token) (Reach-InSync codec storage s reach) in
      rw same (sign-admitted s.auth.token r bare)
