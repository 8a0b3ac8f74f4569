-- ===== src/Dom.antt =====
-- The elements that a component renders, without their layout classes and icons (`tone` is a class
-- that depends on the data), and with the message
-- that each event sends to the component's handlers.
pub mod Actions
pub mod Links
pub mod Relabel
use irwandhi_gitops_lab.Base.{ℕ, Bool, List, [], ◌∷◌, Option, none, some, true, false}
use irwandhi_gitops_lab.Text.{Text}
use irwandhi_gitops_lab.Json.{Json}

pub data Tag : Type 0 where
  div span p h1 h2 h3 form label input select option textarea button link anchor : Tag
  code pre table thead tbody tr th td nav main svg rect circle : Tag

-- `bound` is a `value` that may be no text. `kind` is the attribute `type`; a link's `href` is its
-- `to`.
pub data Attr (M : Type 0) : Type 0 where
  on_click on_submit : M → Attr M
  on_change : (Text → M) → Attr M
  value kind href title placeholder tone style : Text → Attr M
  bound : Option Json → Attr M
  required disabled : Bool → Attr M
  min_length min_value max_value : ℕ → Attr M

mutual
  pub data Node (M : Type 0) : Type 0 where
    nothing : Node M
    text : Text → Node M
    elem : Tag → List (Attr M) → Nodes M → Node M
    fragment : Nodes M → Node M

  pub data Nodes (M : Type 0) : Type 0 where
    nil : Nodes M
    cons : Node M → Nodes M → Nodes M

abbrev pub nodes : {M : Type 0} → List (Node M) → Nodes M
nodes [] = nil
nodes (x ∷ xs) = cons x (nodes xs)

abbrev pub el : {M : Type 0} → Tag → List (Attr M) → List (Node M) → Node M
el t attrs xs = elem t attrs (nodes xs)

-- `{test && node}`.
abbrev pub when : {M : Type 0} → Bool → Node M → Node M
when true n = n
when false n = nothing

-- `{xs.map(f)}`.
unfoldable pub each {ℓ} : {A : Type ℓ} {M : Type 0} → (A → Node M) → List A → Nodes M
each f [] = nil
each f (x ∷ xs) = cons (f x) (each f xs)
