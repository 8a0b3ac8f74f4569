-- ===== src/Cron.antt =====
-- apps/cronpilot-frontend/src/components/CronHelper.jsx: the phrase shown under a cron expression.
pub mod Laws
pub mod Clock
use irwandhi_gitops_lab.Base.{
  Option, none, some, List, [], ◌∷◌, ◌++◌, ◌&&◌, drop, if◌then◌else◌, Bool,
}
use irwandhi_gitops_lab.Dom.{Tag, Node, el}
use irwandhi_gitops_lab.Text.{Text, lit, eq_text, truthy, starts_with, trim, split_space, pad_start}

-- The tests on the five fields, in the source's order; the first reads the whole expression.
describe_fields : Text → Text → Text → Text → Text → Text → Option Text
describe_fields expr min hour dom month dow =
    if eq_text expr (lit "* * * * *")
    then some (lit "Every minute")
    else if starts_with min (lit "*/")
    then some (lit "Every " ++ (drop 2 min ++ lit " minutes"))
    else if eq_text dom (lit "*") && eq_text month (lit "*") && eq_text dow (lit "*")
    then (if eq_text hour (lit "*")
        then some (lit "At minute " ++ (min ++ lit " of every hour"))
        else some (lit "Daily at " ++ (pad_start 2 b'0' hour ++ (lit ":" ++ pad_start 2 b'0' min))))
    else none

-- `parts.length !== 5` returns null.
describe_parts : Text → List Text → Option Text
unfolding describe_fields
describe_parts expr (min ∷ hour ∷ dom ∷ month ∷ dow ∷ []) =
    describe_fields expr min hour dom month dow
describe_parts _ _ = none

unfoldable pub describe : Text → Option Text
unfolding describe_parts
describe expr = describe_parts expr (split_space (trim expr))

-- `if (!text) return null`: no phrase is empty.
unfoldable pub cron_helper : {M : Type 0} → Text → Node M
cron_helper expression = elim (describe expression) [
  | none ↦ Node.nothing
  | some phrase ↦ if truthy phrase then el Tag.p [] (Node.text phrase ∷ []) else Node.nothing
]
