-- ===== src/Pages/Credentials/Flow.antt =====
-- Signing in and registering, from the click to the dashboard.
use irwandhi_gitops_lab.Base.{
  ℕ, suc, ◌+◌, ◌-◌, ◌≤◌, true, false, Option, some, [], ◌≡◌, ◌≢◌, refl, arith, if◌then◌else◌,
}
use irwandhi_gitops_lab.Text.{Text, lit}
use irwandhi_gitops_lab.Session.{User, UserCodec, Session, is_authenticated, mount, set_auth}
use irwandhi_gitops_lab.Session.Guards.{protected_route}
use irwandhi_gitops_lab.Session.Sync.{InSync}
use irwandhi_gitops_lab.Api.{Request}
use irwandhi_gitops_lab.App.{Page, Router, visit, element}
use irwandhi_gitops_lab.Effects.{Failure}
use irwandhi_gitops_lab.Effects.Perform.{perform, destination, error_or-ne-nil}
use irwandhi_gitops_lab.Pages.Credentials.{Form, Msg, blank, update}

module _ (send : Text → Text → Request) (fallback : Text) where
  -- The page with the requests that it has not heard of yet.
  pub record World : Type 0 where
    pub form : Form
    pub in_flight : ℕ

  -- The user types and submits, where the button is not disabled; the server answers or fails.
  pub data Step : World → World → Type 0 where
    email_typed :
        (w : World) (v : Text)
        → Step w (record w { form = (update send fallback w.form (Msg.email_typed v)).0 })
    password_typed :
        (w : World) (v : Text)
        → Step w (record w { form = (update send fallback w.form (Msg.password_typed v)).0 })
    submit :
        (w : World)
        → w.form.loading ≡ false
        → Step w (record {
          form = (update send fallback w.form Msg.submit).0;
          in_flight = w.in_flight + 1;
        })
    answered :
        (w : World) (token : Option Text) (user : Option User)
        → 1 ≤ w.in_flight
        → Step w (record {
          form = (update send fallback w.form (Msg.answered token user)).0;
          in_flight = w.in_flight - 1;
        })
    failed :
        (w : World) (err : Failure)
        → 1 ≤ w.in_flight
        → Step w (record {
          form = (update send fallback w.form (Msg.failed err)).0;
          in_flight = w.in_flight - 1;
        })

  pub data Reach : World → Type 0 where
    start : Reach (record { form = blank; in_flight = 0 })
    next : {w v : World} → Reach w → Step w v → Reach v

  pub record IsSteady (w : World) : Type 0 where
    pub one_request : w.in_flight ≡ (if w.form.loading then 1 else 0)
    pub no_stale_error : w.form.loading ≡ true → w.form.error ≡ []

  Step-IsSteady : {w v : World} → Step w v → IsSteady w → IsSteady v
  unfolding update
  Step-IsSteady (email_typed w v) i = ground arith
  Step-IsSteady (password_typed w v) i = ground arith
  Step-IsSteady (submit w h) i = ground arith
  Step-IsSteady (answered w token user h) i = ground arith
  Step-IsSteady (failed w err h) i = ground arith

  -- At the form there is a request in flight exactly while it is loading, and then only one; and
  -- while it is loading no error is shown.
  pub Reach-IsSteady : {w : World} → Reach w → IsSteady w
  unfolding blank
  Reach-IsSteady start = ground arith
  Reach-IsSteady (next r step) = Step-IsSteady step (Reach-IsSteady r)

  -- Where the fallback text is not empty, a failure ends the loading, shows a text, keeps both
  -- fields and leaves the session alone.
  pub failed_lem :
      (codec : UserCodec) (form : Form) (err : Failure) (s : Session)
      → fallback ≢ []
      → let (form', effects) = update send fallback form (Msg.failed err) in
        (form'.loading ≡ false)
        × (form'.error ≢ [])
        × (form'.email ≡ form.email)
        × (form'.password ≡ form.password)
        × (perform codec effects s ≡ s)
  unfolding update perform
  failed_lem codec form err s ne = (refl, error_or-ne-nil err fallback ne, refl, refl, refl)

  -- An answer with a token that is not empty and a user ends the loading and signs in: the session
  -- agrees with the storage, the handler goes to the dashboard, and the dashboard is what the user
  -- sees.
  pub answered_lem :
      (codec : UserCodec) (router : Router) (form : Form) (token : Text) (user : User) (s : Session)
      (fuel : ℕ)
      → token ≢ []
      → let (form', effects) = update send fallback form (Msg.answered (some token) (some user)) in
        let s' = perform codec effects s in
        (form'.loading ≡ false)
        × (is_authenticated s'.auth ≡ true)
        × InSync codec s'
        × (destination effects ≡ some (lit "/dashboard"))
        × (visit router s'.auth (suc fuel) Page.dashboard ≡ some Page.dashboard)
  unfolding update perform destination is_authenticated mount set_auth visit element protected_route
  answered_lem codec router form token user s fuel ne =
      (refl, ground arith, rw (codec.parse-stringify user), refl, ground arith)
