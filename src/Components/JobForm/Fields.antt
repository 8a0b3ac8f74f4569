-- ===== src/Components/JobForm/Fields.antt =====
-- What the form submits: for each key the last value typed, else the initial one, else the default.
use irwandhi_gitops_lab.Base.{
  Option, none, some, List, [], ◌∷◌, ◌≡◌, refl, ◌∙◌, ◌≢◌, arith, if◌then◌else◌, ap, Option-cases,
  inl, inr,
}
use irwandhi_gitops_lab.Text.{Text, lit, eq_text}
use irwandhi_gitops_lab.Json.{Json, Object, get}
use irwandhi_gitops_lab.Json.Laws.{get-put, get-spread, HasDistinctKeys, first_some}
use irwandhi_gitops_lab.Components.JobForm.{Msg, update, defaults, initial_form}

-- The state after the messages of a session at the form, oldest first.
unfoldable pub run : List Msg → Object → Object
run [] form = form
run (m ∷ ms) form = run ms (update m form)

-- What one message gives to a key.
abbrev pub given : Text → Msg → Option Json
given key (Msg.typed k value) = if eq_text k key then some (Json.str value) else none
given key (Msg.preset value) =
    if eq_text (lit "cron_expression") key then some (Json.str value) else none
given key _ = none

-- What the last message that gives something to a key gives to it.
unfoldable pub last_given : Text → List Msg → Option Json
last_given key [] = none
last_given key (m ∷ ms) = first_some (last_given key ms) (given key m)

get-update :
    (key : Text) (m : Msg) (form : Object)
    → get key (update m form) ≡ first_some (given key m) (get key form)
unfolding update
get-update key (Msg.typed k value) form = ground (arith, get-put key k (Json.str value) form)
get-update key (Msg.preset value) form =
    ground (arith, get-put key (lit "cron_expression") (Json.str value) form)
get-update key Msg.submit form = refl
get-update key Msg.cancel form = refl

first_some_assoc :
    (a b c : Option Json) → first_some a (first_some b c) ≡ first_some (first_some a b) c
first_some_assoc none b c = refl
first_some_assoc (some a) b c = refl

get-run :
    (key : Text) (ms : List Msg) (form : Object)
    → get key (run ms form) ≡ first_some (last_given key ms) (get key form)
unfolding run last_given
get-run key [] form = refl
get-run key (m ∷ ms) form =
    get-run key ms (update m form)
    ∙ (ap (first_some (last_given key ms)) (get-update key m form)
        ∙ first_some_assoc (last_given key ms) (given key m) (get key form))

-- A form that was opened on an object without repeated keys and edited submits, for each key, the
-- last value given to it; else the value of the object; else the default.
pub get-run-initial_form :
    (key : Text) (ms : List Msg) (initial : Object)
    → HasDistinctKeys initial
    → get key (run ms (initial_form initial))
      ≡ first_some (last_given key ms) (first_some (get key initial) (get key defaults))
unfolding initial_form
get-run-initial_form key ms initial d =
    get-run key ms (initial_form initial)
    ∙ ap (first_some (last_given key ms)) (get-spread key defaults initial d)

given-text :
    (key : Text) (m : Msg) (v : Json) → given key m ≡ some v → (s : Text) × (v ≡ Json.str s)
given-text key (Msg.typed k value) v h = (value, ground arith)
given-text key (Msg.preset value) v h = (value, ground arith)
given-text key Msg.submit v h = cc
given-text key Msg.cancel v h = cc

-- Whatever is given to a key is a text.
last_given-text :
    (key : Text) (ms : List Msg) (v : Json)
    → last_given key ms ≡ some v
    → (s : Text) × (v ≡ Json.str s)
unfolding last_given
last_given-text key [] v h = cc
last_given-text key (m ∷ ms) v h = elim (Option-cases (last_given key ms)) [
  | inl e ↦ given-text key m v (rw e at h)
  | inr (w, e) ↦ last_given-text key ms v (e ∙ (rw e at h))
]

-- Once the timeout has been edited the form submits it as a text, not as the number that it was.
pub timeout-edited :
    (ms : List Msg) (initial : Object)
    → last_given (lit "timeout_seconds") ms ≢ none
    → (s : Text) × (get (lit "timeout_seconds") (run ms (initial_form initial)) ≡ some (Json.str s))
timeout-edited ms initial h = elim (Option-cases (last_given (lit "timeout_seconds") ms)) [
  | inl e ↦ absurd (h e)
  | inr (v, e) ↦
      let (s, same) = last_given-text (lit "timeout_seconds") ms v e in
      let read = get-run (lit "timeout_seconds") ms (initial_form initial) in
      (s, rw (e, same) at read)
]
