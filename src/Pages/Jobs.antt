-- ===== src/Pages/Jobs.antt =====
-- apps/cronpilot-frontend/src/pages/Jobs.jsx: the list of jobs and its search field.
pub mod Search
use irwandhi_gitops_lab.Base.{
  Bool, true, false, not, ◌≡◌, ◌||◌, List, [], ◌∷◌, filter, is_empty, if◌then◌else◌,
}
use irwandhi_gitops_lab.Text.{Text, lit, includes, truthy}
use irwandhi_gitops_lab.Json.{Json}
use irwandhi_gitops_lab.Api.{Request}
use irwandhi_gitops_lab.Api.Jobs.{get_jobs}
use irwandhi_gitops_lab.Records.{Job}
use irwandhi_gitops_lab.Effects.{Key}
use irwandhi_gitops_lab.Dom.{Tag, Attr, Node, el, elem, each, when}
use irwandhi_gitops_lab.Dom.Relabel.{relabel}
use irwandhi_gitops_lab.Components.JobCard as Card
use irwandhi_gitops_lab.Components.JobCard.{job_card, jobs_key}

unfoldable pub jobs_query : Key × Request
jobs_query = (jobs_key, get_jobs)

-- `toLowerCase()`: the case mapping of Unicode, whose tables are the runtime's.
pub record Lowering : Type 0 where
  pub lower : Text → Text

-- Typing in the search field, and a click on the card of a job.
pub data Msg : Type 0 where
  search_typed : Text → Msg
  card : Job → Card.Click → Msg

card_of : Job → Node Msg
card_of job = relabel (Msg.card job) (job_card job)

-- Three grey boxes while the jobs are loading.
skeleton : Node Msg
skeleton = el Tag.div [] (el Tag.div [] [] ∷ el Tag.div [] [] ∷ el Tag.div [] [] ∷ [])

no_jobs : Text → Node Msg
no_jobs search = el Tag.div [] (
    el Tag.p [] (
      Node.text (if truthy search then lit "No jobs match your search." else lit "No jobs yet.")
      ∷ [])
    ∷ when (not (truthy search)) (
        el Tag.link (Attr.href (lit "/jobs/new") ∷ [])
          (Node.text (lit "Create your first job") ∷ []))
    ∷ [])

-- `isLoading` is the query library's.
results : Text → Bool → List Job → Node Msg
results search true shown = skeleton
results search false [] = no_jobs search
results search false (job ∷ shown) = elem Tag.div [] (each card_of (job ∷ shown))

module _ (l : Lowering) where
  open l use {lower}

  unfoldable pub is_found : Text → Job → Bool
  is_found search job =
      includes (lower job.name) (lower search) || includes (lower job.url) (lower search)

  unfoldable pub filtered : Text → List Job → List Job
  filtered search jobs = filter (is_found search) jobs

  unfoldable pub jobs_page : Text → Bool → List Job → Node Msg
  unfolding results no_jobs skeleton card_of
  jobs_page search loading jobs = el Tag.div [] (
      el Tag.div [] (
        el Tag.h1 [] (Node.text (lit "Jobs") ∷ [])
        ∷ el Tag.link (Attr.href (lit "/jobs/new") ∷ []) (Node.text (lit "New Job") ∷ [])
        ∷ [])
      ∷ el Tag.div [] (
          el Tag.input
            (Attr.placeholder (lit "Search by name or URL…")
              ∷ Attr.value search
              ∷ Attr.on_change Msg.search_typed
              ∷ [])
            []
          ∷ [])
      ∷ results search loading (filtered search jobs)
      ∷ [])
