-- ===== src/Pages/Register.antt =====
-- apps/cronpilot-frontend/src/pages/Register.jsx.
use irwandhi_gitops_lab.Base.{List, [], ◌∷◌, ◌++◌}
use irwandhi_gitops_lab.Text.{Text, lit}
use irwandhi_gitops_lab.Api.Auth.{register}
use irwandhi_gitops_lab.Effects.{Effect}
use irwandhi_gitops_lab.Dom.{Tag, Attr, Node, el, elem, each}
use irwandhi_gitops_lab.Pages.Credentials as Credentials
use irwandhi_gitops_lab.Pages.Credentials.{Form, Msg, error_line, field, submit_button}

unfoldable pub update : Form → Msg → Form × List Effect
update = Credentials.update register (lit "Registration failed")

highlights : List Text
highlights =
    lit "Sub-minute scheduling precision"
    ∷ lit "Secure, token-based API access"
    ∷ lit "Built for teams and shared workflows"
    ∷ []

highlight : Text → Node Msg
highlight text = el Tag.div [] (el Tag.span [] (Node.text text ∷ []) ∷ [])

abbrev spans : List Text → Node Msg
spans texts = elem Tag.div [] (each (λ s. el Tag.span [] (Node.text s ∷ [])) texts)

-- `year` is that of the clock.
left_panel : Text → Node Msg
left_panel year = el Tag.div [] (
    spans (lit "CronPilot" ∷ lit "v1.0" ∷ [])
    ∷ el Tag.div [] (
        el Tag.h2 [] (Node.text (lit "Your team's cron control plane.") ∷ [])
        ∷ el Tag.p [] (
            Node.text (
              lit
                "One place to define, monitor, and audit all scheduled jobs across your services — without touching a crontab.")
            ∷ [])
        ∷ elem Tag.div [] (each highlight highlights)
        ∷ el Tag.div [] (
            el Tag.div [] (Node.text (lit "# get started in seconds") ∷ [])
            ∷ spans (lit "POST" ∷ lit " /api/jobs" ∷ [])
            ∷ spans (lit "\"cron_expression\"" ∷ lit ": " ∷ lit "\"0 * * * *\"" ∷ [])
            ∷ spans (lit "\"url\"" ∷ lit ": " ∷ lit "\"https://…\"" ∷ [])
            ∷ [])
        ∷ [])
    ∷ el Tag.p [] (Node.text (lit "© " ++ (year ++ lit " CronPilot. Internal tooling.")) ∷ [])
    ∷ [])

register_form : Form → Node Msg
register_form form = el Tag.form (Attr.on_submit Msg.submit ∷ []) (
    error_line form
    ∷ field (lit "Work email") form.email Msg.email_typed
        (Attr.kind (lit "email") ∷ Attr.placeholder (lit "engineer@company.com") ∷ [])
    ∷ field (lit "Password") form.password Msg.password_typed (
        Attr.kind (lit "password")
        ∷ Attr.min_length 6
        ∷ Attr.placeholder (lit "At least 6 characters")
        ∷ [])
    ∷ submit_button form (lit "Creating account…") (lit "Create account")
    ∷ el Tag.p [] (
        Node.text (
          lit "By creating an account you agree to our terms of service and acceptable use policy.")
        ∷ [])
    ∷ [])

unfoldable pub register_page : Text → Form → Node Msg
unfolding left_panel register_form highlights highlight
register_page year form = el Tag.div [] (
    left_panel year
    ∷ el Tag.div [] (
        el Tag.div [] (
          el Tag.div [] (el Tag.span [] (Node.text (lit "CronPilot") ∷ []) ∷ [])
          ∷ el Tag.h1 [] (Node.text (lit "Create an account") ∷ [])
          ∷ el Tag.p [] (Node.text (lit "Start scheduling jobs in under a minute.") ∷ [])
          ∷ register_form form
          ∷ el Tag.p [] (
              Node.text (lit "Already have an account? ")
              ∷ el Tag.link (Attr.href (lit "/login") ∷ []) (Node.text (lit "Sign in") ∷ [])
              ∷ [])
          ∷ [])
        ∷ [])
    ∷ [])
