-- ===== src/Server/Jobs/Offers.antt =====
-- What the card of a job offers, and what the API answers.
use irwandhi_gitops_lab.Base.{
  ℕ, ◌≡◌, ◌≢◌, All, ◌↔◌, refl, ◌∙◌, inl, inr, Bool, true, false, Option, none, some, List, [], ◌∷◌,
  ◌++◌, arith, Bool-cases, if◌then◌else◌, Memᴰ-cons,
}
use mathlib.Core.List.{Memᴰ}
use irwandhi_gitops_lab.Text.{Text, lit, eq_text}
use irwandhi_gitops_lab.Records.{Job}
use irwandhi_gitops_lab.Dom.Actions.{clicks}
use irwandhi_gitops_lab.Components.JobCard.{Click, job_card}
use irwandhi_gitops_lab.Components.JobCard.Buttons.{clicks-job_card}
use irwandhi_gitops_lab.Server.Store.{JobRow}
use irwandhi_gitops_lab.Server.Jobs.{Jobs}
use irwandhi_gitops_lab.Server.Jobs.Calls.{Call, run, view, amend, promise}
use irwandhi_gitops_lab.Server.Jobs.Calls.Refinement.{IsKeyed, run-refines}

amend-code :
    (id : Text) (allowed : JobRow → Bool) (change : JobRow → Option JobRow)
    (v : Text → Option JobRow) (row : JobRow)
    → v id ≡ some row
    → (amend id allowed change 200 none v).1 ≡ (if allowed row then 200 else 404)
unfolding amend
amend-code id allowed change v row found = elim (Bool-cases (allowed row)) [
  | inl e ↦ rw (amend, found, e) refl
  | inr e ↦ rw (amend, found, e) refl
]

abbrev offered : Bool → Bool → List Click
offered active paused =
    Click.run
    ∷ ((if active then Click.pause ∷ [] else [])
        ++ ((if paused then Click.resume ∷ [] else []) ++ Click.remove ∷ []))

absent : (c : Click) (xs : List Click) → All (λ x. c ≢ x) xs → ¬ Memᴰ c xs
absent c [] apart m = elim m [ ]
absent c (x ∷ xs) (apart, aparts) m = elim (Memᴰ-cons m) [
  | inl e ↦ apart e
  | inr later ↦ absent c xs aparts later
]

pause_offered : (active paused : Bool) → Memᴰ Click.pause (offered active paused) ↔ (active ≡ true)
pause_offered true paused = (λ m. refl, λ e. Memᴰ.tail (Memᴰ.head refl))
pause_offered false true = (λ m. absurd (absent _ _ (λ e. cc, (λ e. cc, (λ e. cc, tt))) m), λ e. cc)
pause_offered false false = (λ m. absurd (absent _ _ (λ e. cc, (λ e. cc, tt)) m), λ e. cc)

resume_offered :
    (active paused : Bool) → Memᴰ Click.resume (offered active paused) ↔ (paused ≡ true)
resume_offered true true = (λ m. refl, λ e. Memᴰ.tail (Memᴰ.tail (Memᴰ.head refl)))
resume_offered false true = (λ m. refl, λ e. Memᴰ.tail (Memᴰ.head refl))
resume_offered true false =
    (λ m. absurd (absent _ _ (λ e. cc, (λ e. cc, (λ e. cc, tt))) m), λ e. cc)
resume_offered false false = (λ m. absurd (absent _ _ (λ e. cc, (λ e. cc, tt)) m), λ e. cc)

-- An offer that is made in a case is made where the answer of that case is 200.
accepted : {P : Type 0} (b : Bool) → P ↔ (b ≡ true) → P ↔ (◌≡◌ {A = ℕ} (if b then 200 else 404) 200)
accepted true (to, from) = (λ p. refl, λ e. from refl)
accepted false (to, from) = (λ p. absurd (ground (arith, to p)), λ e. absurd (ground arith))

-- On a table without a repeated id, for a job that its owner sees as the table holds it: the card
-- offers to pause the job exactly when the API would answer the pause by 200, and to resume it
-- exactly when the API would answer the resumption by 200, if no statement fails.
pub job_card-run :
    (uid : Text) (now : ℕ) (jobs : Jobs) (row : JobRow) (job : Job)
    → IsKeyed jobs
    → view uid jobs job.id ≡ some row
    → job.status ≡ row.status
    → (Memᴰ Click.pause (clicks (job_card job))
        ↔ ((run uid now (Call.pause job.id none) jobs).1 ≡ 200))
      × (Memᴰ Click.resume (clicks (job_card job))
          ↔ ((run uid now (Call.resume job.id none) jobs).1 ≡ 200))
unfolding promise
job_card-run uid now jobs row job keyed found same =
    let pause_code =
      (run-refines uid now (Call.pause job.id none) jobs keyed).1
      ∙ amend-code job.id _ _ (view uid jobs) row found in
    let resume_code =
      (run-refines uid now (Call.resume job.id none) jobs keyed).1
      ∙ amend-code job.id _ _ (view uid jobs) row found in
    rw (clicks-job_card job, pause_code, resume_code, same)
      (
        accepted (eq_text row.status (lit "active")) (pause_offered _ _),
        accepted (eq_text row.status (lit "paused")) (resume_offered _ _),
      )
