-- ===== src/Dom/Relabel.antt =====
-- A component inside another: its messages become messages of the outer one.
use mathlib.Core.List.{map-append}
use irwandhi_gitops_lab.Base.{
  List, [], ◌∷◌, map, sym, ◌≡◌, refl, ◌||◌, if◌then◌else◌, ap, Bool-cases, inl, inr,
}
use irwandhi_gitops_lab.Dom.{Attr, Node, Nodes}
use irwandhi_gitops_lab.Dom.Actions.{clicks, clicks_all, is_disabled, click_handlers}

module _ {M N : Type 0} (f : M → N) where
  relabel_attr : Attr M → Attr N
  relabel_attr (Attr.on_click m) = Attr.on_click (f m)
  relabel_attr (Attr.on_submit m) = Attr.on_submit (f m)
  relabel_attr (Attr.on_change g) = Attr.on_change (λ s. f (g s))
  relabel_attr (Attr.value s) = Attr.value s
  relabel_attr (Attr.kind s) = Attr.kind s
  relabel_attr (Attr.href s) = Attr.href s
  relabel_attr (Attr.title s) = Attr.title s
  relabel_attr (Attr.placeholder s) = Attr.placeholder s
  relabel_attr (Attr.tone s) = Attr.tone s
  relabel_attr (Attr.style s) = Attr.style s
  relabel_attr (Attr.bound v) = Attr.bound v
  relabel_attr (Attr.required b) = Attr.required b
  relabel_attr (Attr.disabled b) = Attr.disabled b
  relabel_attr (Attr.min_length n) = Attr.min_length n
  relabel_attr (Attr.min_value n) = Attr.min_value n
  relabel_attr (Attr.max_value n) = Attr.max_value n

  unfoldable mutual
    unfolding relabel_attr

    pub relabel : Node M → Node N
    relabel Node.nothing = Node.nothing
    relabel (Node.text s) = Node.text s
    relabel (Node.elem t attrs xs) = Node.elem t (map relabel_attr attrs) (relabel_all xs)
    relabel (Node.fragment xs) = Node.fragment (relabel_all xs)

    pub relabel_all : Nodes M → Nodes N
    relabel_all Nodes.nil = Nodes.nil
    relabel_all (Nodes.cons x xs) = Nodes.cons (relabel x) (relabel_all xs)

  is_disabled-relabel :
      (attrs : List (Attr M)) → is_disabled (map relabel_attr attrs) ≡ is_disabled attrs
  unfolding is_disabled relabel_attr
  is_disabled-relabel [] = refl
  is_disabled-relabel (Attr.disabled b ∷ attrs) = ap (λ d. b || d) (is_disabled-relabel attrs)
  is_disabled-relabel (_ ∷ attrs) = is_disabled-relabel attrs

  click_handlers-relabel :
      (attrs : List (Attr M))
      → click_handlers (map relabel_attr attrs) ≡ map f (click_handlers attrs)
  unfolding click_handlers relabel_attr
  click_handlers-relabel [] = refl
  click_handlers-relabel (Attr.on_click m ∷ attrs) =
      ap (λ ms. f m ∷ ms) (click_handlers-relabel attrs)
  click_handlers-relabel (_ ∷ attrs) = click_handlers-relabel attrs

  own_clicks-relabel :
      (attrs : List (Attr M))
      → (if is_disabled (map relabel_attr attrs)
          then []
          else click_handlers (map relabel_attr attrs))
        ≡ map f (if is_disabled attrs then [] else click_handlers attrs)
  own_clicks-relabel attrs = elim (Bool-cases (is_disabled attrs)) [
    | inl off ↦ rw (is_disabled-relabel attrs, off)
    | inr on ↦ rw (is_disabled-relabel attrs, on) (click_handlers-relabel attrs)
  ]

  mutual
    unfolding clicks relabel

    clicks-relabel_node : (n : Node M) → clicks (relabel n) ≡ map f (clicks n)
    clicks-relabel_node Node.nothing = refl
    clicks-relabel_node (Node.text s) = refl
    clicks-relabel_node (Node.elem t attrs xs) =
        rw (own_clicks-relabel attrs, clicks_all-relabel_all xs) (sym (map-append f _ _))
    clicks-relabel_node (Node.fragment xs) = clicks_all-relabel_all xs

    clicks_all-relabel_all : (xs : Nodes M) → clicks_all (relabel_all xs) ≡ map f (clicks_all xs)
    clicks_all-relabel_all Nodes.nil = refl
    clicks_all-relabel_all (Nodes.cons x xs) =
        rw (clicks-relabel_node x, clicks_all-relabel_all xs) (sym (map-append f _ _))

  -- A relabelled tree offers the relabelled clicks.
  pub clicks-relabel : (n : Node M) → clicks (relabel n) ≡ map f (clicks n)
  clicks-relabel n = clicks-relabel_node n
