-- ===== src/Pages/Submissions.antt =====
-- When the forms of the pages can be submitted.
use irwandhi_gitops_lab.Base.{Bool, Option, [], ◌∷◌, ◌≡◌, if◌then◌else◌, arith}
use irwandhi_gitops_lab.Text.{Text, lit, eq_text}
use irwandhi_gitops_lab.Session.{Auth}
use irwandhi_gitops_lab.Dom.{each}
use irwandhi_gitops_lab.Dom.Actions.{submits}
use irwandhi_gitops_lab.Pages.Credentials as Credentials
use irwandhi_gitops_lab.Pages.Login.{login_page}
use irwandhi_gitops_lab.Pages.Register.{register_page}
use irwandhi_gitops_lab.Pages.Profile as Profile
use irwandhi_gitops_lab.Records.{Account}
use irwandhi_gitops_lab.Pages.AdminUsers.Modal as Modal

-- While a sign-in or a registration is loading, its form takes no further submission; at all other
-- times it takes one.
pub submits-credentials :
    (year : Text) (form : Credentials.Form)
    → (submits (login_page year form) ≡ (if form.loading then [] else Credentials.Msg.submit ∷ []))
      × (submits (register_page year form)
          ≡ (if form.loading then [] else Credentials.Msg.submit ∷ []))
unfolding submits login_page register_page each eq_text lit
submits-credentials year form = (ground arith, ground arith)

-- While a change of the password is pending its form takes no further submission, and at all other
-- times it does.
pub submits-profile_page :
    (upper : Text → Text) (auth : Auth) (p : Profile.Page)
    → submits (Profile.profile_page upper auth p)
      ≡ (if p.pending then [] else Profile.Msg.submit ∷ [])
unfolding submits Profile.profile_page each eq_text lit
submits-profile_page upper auth p = ground arith

-- While an account is being saved its dialog takes no further submission, and at all other times it
-- does.
pub submits-user_modal :
    (u : Option Account) (form : Modal.Form) (is_loading : Bool) (error : Text)
    → submits (Modal.user_modal u form is_loading error)
      ≡ (if is_loading then [] else Modal.Msg.submit ∷ [])
unfolding submits Modal.user_modal each eq_text lit
submits-user_modal u form is_loading error = ground arith
