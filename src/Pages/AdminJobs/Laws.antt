-- ===== src/Pages/AdminJobs/Laws.antt =====
-- Which jobs the table shows and offers, and what the drawer's form loses.
use mathlib.Core.List.{Memᴰ}
use irwandhi_gitops_lab.Base.{
  true, none, some, List, [], ◌∷◌, ◌≡◌, ◌≢◌, ◌↔◌, refl, ◌∙◌, arith, mem-filter, if◌then◌else◌,
  Option-cases, inl, inr,
}
use irwandhi_gitops_lab.Text.{Text, lit, eq_text, eq_text_iff}
use irwandhi_gitops_lab.Json.{Json, Object, get}
use irwandhi_gitops_lab.Json.Laws.{HasDistinctKeys, get-spread, first_some}
use irwandhi_gitops_lab.Records.{Job, Dates}
use irwandhi_gitops_lab.Dom.Actions.{clicks, clicks-when}
use irwandhi_gitops_lab.Components.JobForm.{defaults, initial_form}
use irwandhi_gitops_lab.Pages.EditJob as EditJob
use irwandhi_gitops_lab.Pages.AdminJobs.{displayed, is_owner, to_form_initial}
use irwandhi_gitops_lab.Pages.AdminJobs.Drawer as Drawer
use irwandhi_gitops_lab.Pages.AdminJobs.View.{Click, row}

-- A row offers to run, edit and delete its job, to pause it if it is active, and to resume it in
-- every other status.
pub clicks-row :
    (dates : Dates) (job : Job)
    → clicks (row dates job)
      ≡ Click.trigger job
        ∷ Click.edit job
        ∷ (if eq_text job.status (lit "active") then Click.pause job else Click.resume job)
        ∷ Click.remove job
        ∷ []
unfolding clicks row
clicks-row dates job = simp clicks-when (ground arith)

is_owner_iff : (user : Text) (job : Job) → (is_owner user job ≡ true) ↔ (job.user_id ≡ some user)
is_owner_iff user job = elim (Option-cases job.user_id) [
  | inl e ↦ ground arith
  | inr (id, e) ↦ ground (arith, eq_text_iff id user)
]

-- With a user chosen the table shows exactly the jobs of that user, and all jobs with none chosen.
pub mem-displayed :
    (user : Text) (jobs : List Job) (job : Job)
    → user ≢ []
    → (Memᴰ job (displayed user jobs) ↔ (Memᴰ job jobs × (job.user_id ≡ some user)))
      × (displayed [] jobs ≡ jobs)
unfolding displayed
mem-displayed [] jobs job ne = absurd (ne refl)
mem-displayed (c ∷ user) jobs job ne =
    let (to, from) = mem-filter (is_owner (c ∷ user)) job jobs in
    let (owned, owns) = is_owner_iff (c ∷ user) job in
    ((λ m. ((to m).0, owned (to m).1), λ p. from (p.0, owns p.1)), refl)

to_form_initial-HasDistinctKeys : (job : Object) → HasDistinctKeys (to_form_initial job)
unfolding to_form_initial get eq_text lit
to_form_initial-HasDistinctKeys job =
    (refl, (refl, (refl, (refl, (refl, (refl, (refl, (refl, tt))))))))

-- The page for one job opens its form with every value that the server sent for it, if no key is
-- repeated. The drawer's form opens
-- with the policy "Allow" whatever the policy of the job, and without its headers.
pub opened-drawer :
    (job : Job) (key : Text) (v : Json)
    → HasDistinctKeys job.object
    → get key job.object ≡ some v
    → (get key (EditJob.opened job) ≡ some v)
      × (get (lit "concurrency_policy") (Drawer.opened job) ≡ some (Json.str (lit "Allow")))
      × (get (lit "headers") (Drawer.opened job) ≡ none)
unfolding EditJob.opened Drawer.opened initial_form
opened-drawer job key v d h = (
  get-spread key defaults job.object d ∙ rw h,
  from_defaults (lit "concurrency_policy")
      ∙ unfold get eq_text lit to_form_initial defaults in refl,
  from_defaults (lit "headers") ∙ unfold get eq_text lit to_form_initial defaults in refl,
)
  where
    from_defaults :
        (k : Text)
        → get k (initial_form (to_form_initial job.object))
          ≡ first_some (get k (to_form_initial job.object)) (get k defaults)
    from_defaults k =
        get-spread k defaults (to_form_initial job.object)
          (to_form_initial-HasDistinctKeys job.object)
