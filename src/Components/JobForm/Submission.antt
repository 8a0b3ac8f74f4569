-- ===== src/Components/JobForm/Submission.antt =====
-- When the form can be submitted.
use irwandhi_gitops_lab.Base.{
  Bool, false, Option, none, some, [], ◌∷◌, ◌≡◌, refl, if◌then◌else◌, arith,
}
use irwandhi_gitops_lab.Text.{Text, lit, eq_text}
use irwandhi_gitops_lab.Json.{Json, Object, get}
use irwandhi_gitops_lab.Cron.{cron_helper}
use irwandhi_gitops_lab.Dom.{Node, each}
use irwandhi_gitops_lab.Dom.Actions.{submits, can_submit}
use irwandhi_gitops_lab.Components.JobForm.{
  Msg, job_form, helper_for, desc_text, find_desc, presets, methods, concurrency_policies,
}

-- A part without a form or a submit button.
abbrev IsQuiet : Node Msg → Type 0
IsQuiet n = (submits n ≡ []) × (can_submit n ≡ false)

cron_helper-IsQuiet : (expression : Text) → IsQuiet (cron_helper expression)
unfolding submits cron_helper
cron_helper-IsQuiet expression = (ground arith, ground arith)

helper_for-IsQuiet : (v : Option Json) → IsQuiet (helper_for v)
unfolding submits helper_for
helper_for-IsQuiet none = (refl, refl)
helper_for-IsQuiet (some (Json.str s)) = cron_helper-IsQuiet s
helper_for-IsQuiet (some _) = (refl, refl)

desc_text-IsQuiet : (d : Option Text) → IsQuiet (desc_text d)
unfolding submits
desc_text-IsQuiet none = (refl, refl)
desc_text-IsQuiet (some d) = (refl, refl)

-- While a job is being saved its form takes no further submission, and at all other times it does.
pub submits-job_form :
    (form : Object) (is_loading : Bool)
    → submits (job_form form is_loading) ≡ (if is_loading then [] else Msg.submit ∷ [])
unfolding submits job_form each eq_text lit presets methods
submits-job_form form is_loading =
    let (a, b) = helper_for-IsQuiet (get (lit "cron_expression") form) in
    let (c, d) =
      desc_text-IsQuiet (find_desc (get (lit "concurrency_policy") form) concurrency_policies) in
    ground (arith, a, b, c, d)
