-- ===== src/Pages/Login.antt =====
-- apps/cronpilot-frontend/src/pages/Login.jsx.
use irwandhi_gitops_lab.Base.{List, [], ◌∷◌, ◌++◌}
use irwandhi_gitops_lab.Text.{Text, lit}
use irwandhi_gitops_lab.Api.Auth.{login}
use irwandhi_gitops_lab.Effects.{Effect}
use irwandhi_gitops_lab.Dom.{Tag, Attr, Node, el, elem, each}
use irwandhi_gitops_lab.Pages.Credentials as Credentials
use irwandhi_gitops_lab.Pages.Credentials.{Form, Msg, error_line, field, submit_button}

unfoldable pub update : Form → Msg → Form × List Effect
update = Credentials.update login (lit "Login failed")

features : List Text
features =
    lit "Schedule jobs with any cron expression"
    ∷ lit "Real-time execution monitoring & logs"
    ∷ lit "Webhook delivery with retry tracking"
    ∷ []

feature : Text → Node Msg
feature text = el Tag.div [] (el Tag.span [] (Node.text text ∷ []) ∷ [])

-- `year` is that of the clock.
left_panel : Text → Node Msg
left_panel year = el Tag.div [] (
    el Tag.div [] (
      el Tag.span [] (Node.text (lit "CronPilot") ∷ [])
      ∷ el Tag.span [] (Node.text (lit "v1.0") ∷ [])
      ∷ [])
    ∷ el Tag.div [] (
        el Tag.h2 [] (Node.text (lit "Reliable cron scheduling for your infrastructure.") ∷ [])
        ∷ el Tag.p [] (
            Node.text (
              lit
                "Built for engineering teams that need precise, observable job execution without managing cron daemons.")
            ∷ [])
        ∷ elem Tag.div [] (each feature features)
        ∷ el Tag.div [] (
            el Tag.div [] (Node.text (lit "# example job schedule") ∷ [])
            ∷ el Tag.div [] (
                el Tag.span [] (Node.text (lit "*/5 * * * *") ∷ [])
                ∷ el Tag.span [] (Node.text (lit "POST https://api.acme.com/sync") ∷ [])
                ∷ [])
            ∷ el Tag.div [] (
                el Tag.span [] (Node.text (lit "✓") ∷ [])
                ∷ el Tag.span [] (Node.text (lit "last run 2m ago · 204ms · 200 OK") ∷ [])
                ∷ [])
            ∷ [])
        ∷ [])
    ∷ el Tag.p [] (Node.text (lit "© " ++ (year ++ lit " CronPilot. Internal tooling.")) ∷ [])
    ∷ [])

login_form : Form → Node Msg
login_form form = el Tag.form (Attr.on_submit Msg.submit ∷ []) (
    error_line form
    ∷ field (lit "Email") form.email Msg.email_typed
        (Attr.kind (lit "email") ∷ Attr.placeholder (lit "engineer@company.com") ∷ [])
    ∷ field (lit "Password") form.password Msg.password_typed
        (Attr.kind (lit "password") ∷ Attr.placeholder (lit "••••••••") ∷ [])
    ∷ submit_button form (lit "Signing in…") (lit "Sign in")
    ∷ [])

unfoldable pub login_page : Text → Form → Node Msg
unfolding left_panel login_form features feature
login_page year form = el Tag.div [] (
    left_panel year
    ∷ el Tag.div [] (
        el Tag.div [] (
          el Tag.div [] (el Tag.span [] (Node.text (lit "CronPilot") ∷ []) ∷ [])
          ∷ el Tag.h1 [] (Node.text (lit "Sign in") ∷ [])
          ∷ el Tag.p [] (Node.text (lit "Welcome back. Enter your credentials to continue.") ∷ [])
          ∷ login_form form
          ∷ el Tag.p [] (
              Node.text (lit "Don't have an account? ")
              ∷ el Tag.link (Attr.href (lit "/register") ∷ []) (Node.text (lit "Create one") ∷ [])
              ∷ [])
          ∷ [])
        ∷ [])
    ∷ [])
