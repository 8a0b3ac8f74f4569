-- ===== src/Pages/AdminJobs/View.antt =====
-- The table of apps/cronpilot-frontend/src/pages/admin/AdminJobs.jsx.
use irwandhi_gitops_lab.Base.{Bool, true, false, List, [], ◌∷◌, ◌++◌, length, if◌then◌else◌}
use irwandhi_gitops_lab.Text.{Text, lit, eq_text, decimal}
use irwandhi_gitops_lab.Records.{Job, Account, Dates, is_set, text_or}
use irwandhi_gitops_lab.Dom.{Tag, Attr, Node, el, elem, each, when}
use irwandhi_gitops_lab.Components.StatusBadge.{status_badge}

-- A click on a button of a row, before any question; or the choice of a user.
pub data Click : Type 0 where
  trigger edit pause resume remove : Job → Click
  choose : Text → Click

abbrev icon_button : Click → Text → Node Click
icon_button c caption = el Tag.button (Attr.on_click c ∷ Attr.title caption ∷ []) []

abbrev column : Text → Node Click
column caption = el Tag.th [] (Node.text caption ∷ [])

owner_cell : Job → Node Click
owner_cell job =
    if is_set job.owner_email
    then el Tag.span [] (Node.text (text_or job.owner_email []) ∷ [])
    else el Tag.span [] (Node.text (lit "no owner") ∷ [])

last_run_cell : Dates → Job → Node Click
last_run_cell dates job =
    if is_set job.last_run_at
    then Node.text (dates.distance_to_now (text_or job.last_run_at []))
    else el Tag.span [] (Node.text (lit "never") ∷ [])

-- `job.status === 'active' ? pause : resume`.
toggle_button : Job → Node Click
toggle_button job =
    if eq_text job.status (lit "active")
    then icon_button (Click.pause job) (lit "Pause")
    else icon_button (Click.resume job) (lit "Resume")

unfoldable pub row : Dates → Job → Node Click
unfolding status_badge owner_cell last_run_cell toggle_button
row dates job = el Tag.tr [] (
    el Tag.td [] (
      el Tag.p [] (Node.text job.name ∷ [])
      ∷ when (is_set job.description) (el Tag.p [] (Node.text (text_or job.description []) ∷ []))
      ∷ [])
    ∷ el Tag.td [] (owner_cell job ∷ [])
    ∷ el Tag.td [] (Node.text job.cron_expression ∷ [])
    ∷ el Tag.td [] (status_badge job.status ∷ [])
    ∷ el Tag.td [] (last_run_cell dates job ∷ [])
    ∷ el Tag.td [] (
        el Tag.div [] (
          icon_button (Click.trigger job) (lit "Trigger now")
          ∷ icon_button (Click.edit job) (lit "Edit")
          ∷ toggle_button job
          ∷ icon_button (Click.remove job) (lit "Delete")
          ∷ [])
        ∷ [])
    ∷ [])

user_option : Account → Node Click
user_option u = el Tag.option (Attr.value u.id ∷ []) (Node.text u.email ∷ [])

-- `isLoading` is the query library's.
table : Dates → Bool → List Job → Node Click
table dates true shown = el Tag.div [] (Node.text (lit "Loading…") ∷ [])
table dates false [] = el Tag.div [] (Node.text (lit "No jobs found.") ∷ [])
table dates false (job ∷ shown) = el Tag.table [] (
    el Tag.thead [] (
      el Tag.tr [] (
        column (lit "Job")
        ∷ column (lit "Owner")
        ∷ column (lit "Schedule")
        ∷ column (lit "Status")
        ∷ column (lit "Last Run")
        ∷ column (lit "Actions")
        ∷ [])
      ∷ [])
    ∷ elem Tag.tbody [] (each (row dates) (job ∷ shown))
    ∷ [])

-- The page beside the drawer: `jobs` are all, `shown` those displayed.
unfoldable pub all_jobs_page : Dates → Bool → Text → List Job → List Job → List Account → Node Click
unfolding table user_option
all_jobs_page dates loading filter_user jobs shown users = el Tag.div [] (
    el Tag.div [] (
      el Tag.div [] (
        el Tag.h1 [] (Node.text (lit "All Jobs") ∷ [])
        ∷ el Tag.p [] (
            Node.text (
              decimal (length jobs)
              ++ (lit " jobs across " ++ (decimal (length users) ++ lit " users")))
            ∷ [])
        ∷ [])
      ∷ el Tag.div [] (
          el Tag.select (Attr.value filter_user ∷ Attr.on_change Click.choose ∷ []) (
            el Tag.option (Attr.value [] ∷ []) (Node.text (lit "All users") ∷ [])
            ∷ Node.fragment (each user_option users)
            ∷ [])
          ∷ [])
      ∷ [])
    ∷ el Tag.div [] (table dates loading shown ∷ [])
    ∷ [])
