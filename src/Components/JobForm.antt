-- ===== src/Components/JobForm.antt =====
-- apps/cronpilot-frontend/src/components/JobForm.jsx: the form behind the pages that create and
-- edit a job.
pub mod Fields
pub mod Submission
use irwandhi_gitops_lab.Base.{
  Bool, true, false, ◌||◌, Option, none, some, List, [], ◌∷◌, ◌++◌, if◌then◌else◌,
}
use irwandhi_gitops_lab.Text.{Text, lit, eq_text}
use irwandhi_gitops_lab.Json.{Json, Object, get, put, spread}
use irwandhi_gitops_lab.Effects.{Effect}
use irwandhi_gitops_lab.Dom.{Tag, Attr, Node, el, elem, each, when}
use irwandhi_gitops_lab.Cron.{cron_helper}

pub record Policy : Type 0 where
  pub value : Text
  pub label : Text
  pub desc : Text

unfoldable pub methods : List Text
methods = lit "GET" ∷ lit "POST" ∷ lit "PUT" ∷ lit "PATCH" ∷ lit "DELETE" ∷ []

unfoldable pub concurrency_policies : List Policy
concurrency_policies =
    record {
      value = lit "Allow";
      label = lit "Allow";
      desc =
          lit "Allow concurrent runs — new run starts even if a previous one is still in-flight.";
    }
    ∷ record {
      value = lit "Forbid";
      label = lit "Forbid";
      desc = lit "Skip new run if the previous one hasn't finished yet.";
    }
    ∷ record {
      value = lit "Replace";
      label = lit "Replace";
      desc = lit "Cancel the in-flight run and immediately start a new one.";
    }
    ∷ []

-- The label and the expression of each preset.
unfoldable pub presets : List (Text × Text)
presets =
    (lit "Every minute", lit "* * * * *")
    ∷ (lit "Every 5 min", lit "*/5 * * * *")
    ∷ (lit "Every 15 min", lit "*/15 * * * *")
    ∷ (lit "Every hour", lit "0 * * * *")
    ∷ (lit "Daily midnight", lit "0 0 * * *")
    ∷ (lit "Mon 9am", lit "0 9 * * 1")
    ∷ []

-- The initial state is `{ ...defaults, ...initial }`.
unfoldable pub defaults : Object
defaults = Object.entry (lit "name") (Json.str []) (
    Object.entry (lit "description") (Json.str []) (
      Object.entry (lit "cron_expression") (Json.str (lit "0 * * * *")) (
        Object.entry (lit "url") (Json.str []) (
          Object.entry (lit "method") (Json.str (lit "GET")) (
            Object.entry (lit "body") (Json.str []) (
              Object.entry (lit "timezone") (Json.str (lit "UTC")) (
                Object.entry (lit "timeout_seconds") (Json.num 30) (
                  Object.entry (lit "concurrency_policy") (Json.str (lit "Allow"))
                    Object.empty))))))))

unfoldable pub initial_form : Object → Object
initial_form initial = spread defaults initial

pub data Msg : Type 0 where
  typed : Text → Text → Msg
  preset : Text → Msg
  submit cancel : Msg

-- `set(key)` and the presets; the other two messages leave the form as it is.
unfoldable pub update : Msg → Object → Object
update (Msg.typed key value) form = put key (Json.str value) form
update (Msg.preset value) form = put (lit "cron_expression") (Json.str value) form
update Msg.submit form = form
update Msg.cancel form = form

-- `onCancel ? onCancel() : navigate(-1)`.
unfoldable pub on_cancel : Option (List Effect) → List Effect
on_cancel none = Effect.go_back ∷ []
on_cancel (some effects) = effects

abbrev is_str : Option Json → Text → Bool
is_str (some (Json.str s)) t = eq_text s t
is_str _ t = false

-- `CONCURRENCY_POLICIES.find(…)?.desc`.
find_desc : Option Json → List Policy → Option Text
find_desc v [] = none
find_desc v (p ∷ ps) = let rest = find_desc v ps in if is_str v p.value then some p.desc else rest

-- `['POST', 'PUT', 'PATCH'].includes(form.method)`.
unfoldable pub has_body : Object → Bool
has_body form =
    let method = get (lit "method") form in
    is_str method (lit "POST") || is_str method (lit "PUT") || is_str method (lit "PATCH")

-- An input bound to a key of the form.
abbrev input_for : Text → Object → List (Attr Msg) → Node Msg
input_for key form attrs =
    el Tag.input (Attr.bound (get key form) ∷ Attr.on_change (Msg.typed key) ∷ attrs) []

abbrev labelled : Text → List (Node Msg) → Node Msg
labelled caption controls = el Tag.div [] (el Tag.label [] (Node.text caption ∷ []) ∷ controls)

-- The phrase under the expression. Where the expression is no text `trim` throws; the form never
-- holds such a one if its initial object does not.
helper_for : Option Json → Node Msg
helper_for (some (Json.str expression)) = cron_helper expression
helper_for _ = Node.nothing

preset_button : Text × Text → Node Msg
preset_button (label, value) =
    el Tag.button (Attr.kind (lit "button") ∷ Attr.on_click (Msg.preset value) ∷ [])
      (Node.text label ∷ [])

schedule_fields : Object → Node Msg
unfolding presets
schedule_fields form = labelled (lit "Cron Expression *") (
    input_for (lit "cron_expression") form
      (Attr.required true ∷ Attr.placeholder (lit "0 * * * *") ∷ [])
    ∷ elem Tag.div [] (each preset_button presets)
    ∷ helper_for (get (lit "cron_expression") form)
    ∷ [])

method_option : Text → Node Msg
method_option m = el Tag.option [] (Node.text m ∷ [])

url_fields : Object → Node Msg
unfolding methods
url_fields form = labelled (lit "URL *") (
    el Tag.div [] (
      elem Tag.select
        (Attr.bound (get (lit "method") form) ∷ Attr.on_change (Msg.typed (lit "method")) ∷ [])
        (each method_option methods)
      ∷ input_for (lit "url") form (
          Attr.required true
          ∷ Attr.kind (lit "url")
          ∷ Attr.placeholder (lit "https://example.com/webhook")
          ∷ [])
      ∷ [])
    ∷ [])

policy_option : Policy → Node Msg
policy_option policy = el Tag.option (Attr.value policy.value ∷ []) (Node.text policy.label ∷ [])

abbrev desc_text : Option Text → Node Msg
desc_text none = Node.nothing
desc_text (some s) = Node.text s

policy_fields : Object → Node Msg
unfolding concurrency_policies
policy_fields form =
    let policy = get (lit "concurrency_policy") form in
    labelled (lit "Concurrency Policy") (
      elem Tag.select
        (Attr.bound policy ∷ Attr.on_change (Msg.typed (lit "concurrency_policy")) ∷ [])
        (each policy_option concurrency_policies)
      ∷ el Tag.p [] (desc_text (find_desc policy concurrency_policies) ∷ [])
      ∷ [])

body_field : Object → Node Msg
body_field form = labelled (lit "Request Body") (
    el Tag.textarea
      (Attr.bound (get (lit "body") form)
        ∷ Attr.on_change (Msg.typed (lit "body"))
        ∷ Attr.placeholder (lit "{\"key\": \"value\"}")
        ∷ [])
      []
    ∷ [])

form_buttons : Bool → Node Msg
form_buttons is_loading = el Tag.div [] (
    el Tag.button (Attr.kind (lit "submit") ∷ Attr.disabled is_loading ∷ [])
      (Node.text (if is_loading then lit "Saving…" else lit "Save Job") ∷ [])
    ∷ el Tag.button (Attr.kind (lit "button") ∷ Attr.on_click Msg.cancel ∷ [])
        (Node.text (lit "Cancel") ∷ [])
    ∷ [])

unfoldable pub job_form : Object → Bool → Node Msg
unfolding schedule_fields url_fields policy_fields body_field form_buttons helper_for find_desc
    preset_button method_option policy_option has_body
job_form form is_loading = el Tag.form (Attr.on_submit Msg.submit ∷ []) (
    el Tag.div [] (
      labelled (lit "Job Name *") (
        input_for (lit "name") form (Attr.required true ∷ Attr.placeholder (lit "My Cron Job") ∷ [])
        ∷ [])
      ∷ labelled (lit "Description") (
          input_for (lit "description") form (Attr.placeholder (lit "Optional description") ∷ [])
          ∷ [])
      ∷ schedule_fields form
      ∷ labelled (lit "Timezone")
          (input_for (lit "timezone") form (Attr.placeholder (lit "UTC") ∷ []) ∷ [])
      ∷ url_fields form
      ∷ labelled (lit "Timeout (seconds)") (
          input_for (lit "timeout_seconds") form
            (Attr.kind (lit "number") ∷ Attr.min_value 1 ∷ Attr.max_value 300 ∷ [])
          ∷ [])
      ∷ policy_fields form
      ∷ when (has_body form) (body_field form)
      ∷ [])
    ∷ form_buttons is_loading
    ∷ [])
