-- ===== src/Components/JobCard/Buttons.antt =====
-- Which buttons a card offers.
use irwandhi_gitops_lab.Base.{[], ◌∷◌, ◌++◌, ◌≡◌, arith, if◌then◌else◌}
use irwandhi_gitops_lab.Text.{lit, eq_text}
use irwandhi_gitops_lab.Records.{Job}
use irwandhi_gitops_lab.Dom.Actions.{clicks, clicks-when}
use irwandhi_gitops_lab.Components.JobCard.{Click, job_card}

-- A card offers to run and to delete its job, to pause it exactly when it is active, and to resume
-- it exactly when it is paused.
pub clicks-job_card :
    (job : Job)
    → clicks (job_card job)
      ≡ Click.run
        ∷ ((if eq_text job.status (lit "active") then Click.pause ∷ [] else [])
            ++ ((if eq_text job.status (lit "paused") then Click.resume ∷ [] else [])
                ++ Click.remove ∷ []))
unfolding clicks job_card
clicks-job_card job = simp clicks-when (ground arith)
