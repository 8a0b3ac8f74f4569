-- ===== src/Server/Routes/Guards.antt =====
-- Who reaches which handler.
use mathlib.Core.Path.{subst}
use mathlib.Core.List.{Memᴰ}
use irwandhi_gitops_lab.Base.{
  ◌≡◌, refl, sym, ap, ◌∙◌, inl, inr, Option, none, some, List, [], ◌∷◌, arith, All, Bool-cases,
  Option-cases,
}
use irwandhi_gitops_lab.Text.{Text, lit, eq_text, eq_text_iff}
use irwandhi_gitops_lab.Api.{Method}
use irwandhi_gitops_lab.Server.Middleware.{Claims, Gate, require_auth, require_admin}
use irwandhi_gitops_lab.Server.Routes.{
  Guard, Handler, Route, routes, Mux, Reached, enter, guarded, serve,
}

-- The handlers whose names begin with Admin, and those that ask for no token.
unfoldable pub guard_of : Handler → Guard
guard_of Handler.health = Guard.anyone
guard_of Handler.register = Guard.anyone
guard_of Handler.login = Guard.anyone
guard_of Handler.admin_list_users = Guard.admin
guard_of Handler.admin_create_user = Guard.admin
guard_of Handler.admin_update_user = Guard.admin
guard_of Handler.admin_delete_user = Guard.admin
guard_of Handler.admin_list_jobs = Guard.admin
guard_of Handler.admin_create_job = Guard.admin
guard_of Handler.admin_update_job = Guard.admin
guard_of Handler.admin_delete_job = Guard.admin
guard_of Handler.admin_pause_job = Guard.admin
guard_of Handler.admin_resume_job = Guard.admin
guard_of Handler.admin_trigger_job = Guard.admin
guard_of _ = Guard.signed_in

pub All-Memᴰ {ℓ κ} :
    {A : Type ℓ} (P : A → Type κ) {a : A} (xs : List A) → All P xs → Memᴰ a xs → P a
All-Memᴰ P [] h m = elim m [ ]
All-Memᴰ P {a} (x ∷ xs) (h, hs) (Memᴰ.head e) = subst P (sym e) h
All-Memᴰ P (x ∷ xs) (h, hs) (Memᴰ.tail m) = All-Memᴰ P xs hs m

abbrev pub IsGuarded : Route → Type 0
IsGuarded r = guard_of r.handler ≡ r.guard

pub routes-IsGuarded : All IsGuarded routes
unfolding routes guard_of
routes-IsGuarded = ground arith

-- What a guard asks of the request that reaches a handler.
abbrev pub Admitted : Guard → Gate → Option Claims → Type 0
Admitted Guard.anyone gate claims = claims ≡ none
Admitted Guard.signed_in gate claims = (c : Claims) × (claims ≡ some c) × (gate ≡ Gate.passed c)
Admitted Guard.admin gate claims =
    (c : Claims) × (claims ≡ some c) × (gate ≡ Gate.passed c) × (c.role ≡ lit "admin")

guarded-Admitted :
    (guard : Guard) (h k : Handler) (gate : Gate) (claims : Option Claims)
    → guarded guard h gate ≡ Reached.handled k claims
    → (h ≡ k) × Admitted guard gate claims
unfolding guarded enter require_admin
guarded-Admitted Guard.anyone h k gate claims e = (cc, cc)
guarded-Admitted Guard.signed_in h k (Gate.refused status message) claims e = cc
guarded-Admitted Guard.signed_in h k (Gate.passed c) claims e = (cc, (c, cc, refl))
guarded-Admitted Guard.admin h k (Gate.refused status message) claims e = cc
guarded-Admitted Guard.admin h k (Gate.passed c) claims e =
    elim (Bool-cases (eq_text c.role (lit "admin"))) [
      | inl role ↦
          let e' = rw (role, enter) at e in
          (cc, (c, cc, refl, (eq_text_iff c.role (lit "admin")).0 role))
      | inr other ↦ let e' = rw (other, enter) at e in cc
    ]

-- Whatever route the router takes: a request that reaches a handler of the administrators carries a
-- valid token whose role is "admin", one that reaches any other handler but the health check,
-- registration and login carries a valid token, and the handler gets that token's claims.
pub serve-Admitted :
    (mux : Mux) (parse : Text → Option Claims) (method : Method) (url : Text)
    (authorization : Option Text) (h : Handler) (claims : Option Claims)
    → serve mux parse method url authorization ≡ Reached.handled h claims
    → Admitted (guard_of h) (require_auth parse authorization) claims
unfolding serve
serve-Admitted mux parse method url authorization h claims e =
    elim (Option-cases (mux.dispatch routes method url)) [
      | inl none_found ↦ let e' = rw (none_found, serve) at e in cc
      | inr (r, taken) ↦
          let e' = rw (taken, serve) at e in
          let (same, admitted) = guarded-Admitted r.guard r.handler h _ claims e' in
          let known = (mux.only routes method url r taken).0 in
          let guard : guard_of h ≡ r.guard =
            ap guard_of (sym same) ∙ All-Memᴰ IsGuarded routes routes-IsGuarded known in
          subst (λ g. Admitted g (require_auth parse authorization) claims) (sym guard) admitted
    ]
