-- ===== src/Json/Laws.antt =====
-- Reading back what was written, and what a spread keeps.
use irwandhi_gitops_lab.Base.{◌≡◌, refl, Option, none, some, arith, if◌then◌else◌, ◌∙◌}
use irwandhi_gitops_lab.Text.{Text, eq_text, eq_text_iff}
use irwandhi_gitops_lab.Json.{Json, Object, get, put, spread}

pub get-put :
    (j k : Text) (v : Json) (o : Object)
    → get j (put k v o) ≡ (if eq_text k j then some v else get j o)
unfolding get put
get-put j k v Object.empty = refl
get-put j k v (Object.entry i w o) =
    ground (arith, eq_text_iff i k, eq_text_iff i j, eq_text_iff k j, get-put j k v o)

-- The first of two values that is defined.
abbrev pub first_some : Option Json → Option Json → Option Json
first_some none d = d
first_some (some v) d = some v

-- Objects of the language have each key once.
abbrev pub HasDistinctKeys : Object → Type 0
HasDistinctKeys Object.empty = Unit
HasDistinctKeys (Object.entry k v o) = (get k o ≡ none) × HasDistinctKeys o

pub get-spread :
    (j : Text) (base over : Object)
    → HasDistinctKeys over
    → get j (spread base over) ≡ first_some (get j over) (get j base)
unfolding get spread
get-spread j base Object.empty d = refl
get-spread j base (Object.entry k v o) (fresh, d) =
    get-spread j (put k v base) o d ∙ ground (arith, eq_text_iff k j, get-put j k v base)
