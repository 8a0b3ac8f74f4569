-- ===== src/Tests/Sessions.antt =====
-- Sessions, sign-in and sign-out, and where visits end, at concrete inputs.
use irwandhi_gitops_lab.Base.{
  Option, if◌then◌else◌, true, false, none, some, [], ◌≡◌, ◌≢◌, ◌↔◌, refl,
}
use irwandhi_gitops_lab.Text.{Text, lit, ne_of_eq_text, eq_text}
use irwandhi_gitops_lab.Session.{User, Storage, Session, load, set_auth, is_authenticated}
use irwandhi_gitops_lab.Server.Middleware.{Claims, require_auth}
use irwandhi_gitops_lab.Server.Middleware.Tokens.{admitted, Reach-require_auth}
use irwandhi_gitops_lab.Session.Sync as Sync
use irwandhi_gitops_lab.Session.Sync.{InSync, Reach-InSync, Reach-sign_iff, set_auth-lost_token}
use irwandhi_gitops_lab.Api.{Request, Method, request, sign}
use irwandhi_gitops_lab.Api.Auth.{register}
use irwandhi_gitops_lab.App.{Page, visit}
use irwandhi_gitops_lab.App.Landing.{IsAllowed, visit-IsAllowed}
use irwandhi_gitops_lab.Components.Header as Header
use irwandhi_gitops_lab.Components.Header.Logout.{logout_lem}
use irwandhi_gitops_lab.Effects.Perform.{perform, destination}
use irwandhi_gitops_lab.Pages.Credentials as Credentials
use irwandhi_gitops_lab.Pages.Credentials.Flow.{answered_lem}
use irwandhi_gitops_lab.Tests.Models.{codec, router}

abbrev ann : User
ann = record { id = some (lit "1"); email = some (lit "ann@acme.com"); role = some (lit "user") }

abbrev nothing_stored : Storage
nothing_stored = record { token = none; user = none }

abbrev signed_in : Session
signed_in = set_auth codec (some (lit "t1")) (some ann) (load codec nothing_stored)

signed_in-Reach : Sync.Reach codec nothing_stored signed_in
signed_in-Reach =
    Sync.Reach.next Sync.Reach.start (Sync.Step.sign_in (lit "t1") ann (load codec nothing_stored))

abbrev jobs_request : Request
jobs_request = request Method.get (lit "/jobs")

t1-ne-nil : lit "t1" ≢ []
t1-ne-nil = ne_of_eq_text (lit "t1") [] (unfold lit eq_text in refl)

visit-IsAllowed_example :
    (q : Page) × (visit router signed_in.auth 2 Page.admin_users ≡ some q)
    × IsAllowed signed_in.auth q
visit-IsAllowed_example = visit-IsAllowed router signed_in.auth 0 Page.admin_users

Reach-InSync_example : InSync codec signed_in
Reach-InSync_example = Reach-InSync codec nothing_stored signed_in signed_in-Reach

Reach-sign_iff_example :
    ((sign signed_in.storage.token jobs_request).authorization ≢ none)
    ↔ (is_authenticated signed_in.auth ≡ true)
Reach-sign_iff_example =
    Reach-sign_iff codec nothing_stored signed_in jobs_request signed_in-Reach refl

abbrev known_token : Text → Option Claims
known_token token =
    if eq_text token (lit "t1")
    then some (record { user_id = lit "1"; email = lit "ann@acme.com"; role = lit "user" })
    else none

Reach-require_auth_example :
    require_auth known_token (sign signed_in.storage.token jobs_request).authorization
    ≡ admitted known_token signed_in.auth.token
Reach-require_auth_example =
    Reach-require_auth known_token codec nothing_stored signed_in jobs_request signed_in-Reach refl

logout_lem_example :
    let s' = perform codec (Header.on_click Header.Click.logout) signed_in in
    (s'.storage.token ≡ none)
    × (s'.storage.user ≡ none)
    × (s'.auth.token ≡ none)
    × (s'.auth.user ≡ none)
    × (is_authenticated s'.auth ≡ false)
    × InSync codec s'
    × (sign s'.storage.token jobs_request ≡ jobs_request)
    × (destination (Header.on_click Header.Click.logout) ≡ some (lit "/login"))
    × (visit router s'.auth 2 Page.report ≡ some Page.login)
logout_lem_example =
    logout_lem codec router signed_in jobs_request Page.report 0 (λ e. cc e) (λ e. cc e)

abbrev filled : Credentials.Form
filled = record { email = lit "ann@acme.com"; password = lit "secret"; error = []; loading = true }

answered_lem_example :
    let (form', effects) =
      Credentials.update register
        (lit "Registration failed")
        filled
        (Credentials.Msg.answered (some (lit "t1")) (some ann)) in
    let s' = perform codec effects (load codec nothing_stored) in
    (form'.loading ≡ false)
    × (is_authenticated s'.auth ≡ true)
    × InSync codec s'
    × (destination effects ≡ some (lit "/dashboard"))
    × (visit router s'.auth 1 Page.dashboard ≡ some Page.dashboard)
answered_lem_example =
    answered_lem register (lit "Registration failed") codec router filled (lit "t1") ann
      (load codec nothing_stored) 0 t1-ne-nil
