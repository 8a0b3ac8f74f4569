-- ===== src/Dom/Links.antt =====
-- The links and the fields of a rendered tree.
use irwandhi_gitops_lab.Base.{List, [], ◌∷◌, ◌++◌}
use irwandhi_gitops_lab.Text.{Text}
use irwandhi_gitops_lab.Dom.{Tag, Attr, Node, Nodes}

module _ {M : Type 0} where
  unfoldable pub targets : List (Attr M) → List Text
  targets [] = []
  targets (Attr.href t ∷ attrs) = t ∷ targets attrs
  targets (_ ∷ attrs) = targets attrs

  -- The targets of `<Link>` and `<NavLink>`.
  abbrev own_links : Tag → List (Attr M) → List Text
  own_links Tag.link attrs = targets attrs
  own_links _ attrs = []

  unfoldable mutual
    unfolding targets

    -- The paths that a tree links to, in document order.
    pub links : Node M → List Text
    links Node.nothing = []
    links (Node.text s) = []
    links (Node.elem t attrs xs) = own_links t attrs ++ links_all xs
    links (Node.fragment xs) = links_all xs

    pub links_all : Nodes M → List Text
    links_all Nodes.nil = []
    links_all (Nodes.cons x xs) = links x ++ links_all xs
