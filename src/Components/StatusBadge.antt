-- ===== src/Components/StatusBadge.antt =====
-- apps/cronpilot-frontend/src/components/StatusBadge.jsx.
use irwandhi_gitops_lab.Base.{Option, none, some, [], ◌∷◌, if◌then◌else◌}
use irwandhi_gitops_lab.Text.{Text, lit, eq_text}
use irwandhi_gitops_lab.Dom.{Tag, Attr, Node, el}

-- The classes of `palette.disabled`.
abbrev pub disabled_tone : Text
disabled_tone = lit "bg-gray-100 text-gray-500"

-- `palette[status]`, for the keys that the object has itself.
unfoldable pub palette : Text → Option Text
palette status =
    if eq_text status (lit "active")
    then some (lit "bg-green-100 text-green-700")
    else if eq_text status (lit "paused")
    then some (lit "bg-yellow-100 text-yellow-700")
    else if eq_text status (lit "disabled")
    then some disabled_tone
    else if eq_text status (lit "success")
    then some (lit "bg-green-100 text-green-700")
    else if eq_text status (lit "failure")
    then some (lit "bg-red-100 text-red-700")
    else if eq_text status (lit "running")
    then some (lit "bg-blue-100 text-blue-700")
    else none

abbrev or_tone : Option Text → Text
or_tone none = disabled_tone
or_tone (some t) = t

unfoldable pub status_badge : {M : Type 0} → Text → Node M
status_badge status =
    el Tag.span (Attr.tone (or_tone (palette status)) ∷ []) (Node.text status ∷ [])
