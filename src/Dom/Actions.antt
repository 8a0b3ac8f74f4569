-- ===== src/Dom/Actions.antt =====
-- What a user can do on a rendered tree: the messages of the controls that are not disabled.
use irwandhi_gitops_lab.Base.{
  Bool, true, false, not, ◌&&◌, ◌||◌, List, [], ◌∷◌, ◌++◌, if◌then◌else◌, ◌≡◌, refl,
}
use irwandhi_gitops_lab.Text.{lit, eq_text}
use irwandhi_gitops_lab.Dom.{Tag, Attr, Node, Nodes, when, each}

module _ {M : Type 0} where
  unfoldable pub is_disabled : List (Attr M) → Bool
  is_disabled [] = false
  is_disabled (Attr.disabled b ∷ attrs) = b || is_disabled attrs
  is_disabled (_ ∷ attrs) = is_disabled attrs

  unfoldable pub click_handlers : List (Attr M) → List M
  click_handlers [] = []
  click_handlers (Attr.on_click m ∷ attrs) = m ∷ click_handlers attrs
  click_handlers (_ ∷ attrs) = click_handlers attrs

  unfoldable pub submit_handlers : List (Attr M) → List M
  submit_handlers [] = []
  submit_handlers (Attr.on_submit m ∷ attrs) = m ∷ submit_handlers attrs
  submit_handlers (_ ∷ attrs) = submit_handlers attrs

  unfoldable mutual
    unfolding is_disabled click_handlers

    -- The clicks that are answered, in document order.
    pub clicks : Node M → List M
    clicks Node.nothing = []
    clicks (Node.text s) = []
    clicks (Node.elem t attrs xs) =
        (if is_disabled attrs then [] else click_handlers attrs) ++ clicks_all xs
    clicks (Node.fragment xs) = clicks_all xs

    pub clicks_all : Nodes M → List M
    clicks_all Nodes.nil = []
    clicks_all (Nodes.cons x xs) = clicks x ++ clicks_all xs

  -- A submit button that is not disabled.
  is_submit : List (Attr M) → Bool
  is_submit [] = false
  is_submit (Attr.kind k ∷ attrs) = eq_text k (lit "submit") || is_submit attrs
  is_submit (_ ∷ attrs) = is_submit attrs

  abbrev submits_form : Tag → List (Attr M) → Bool
  submits_form Tag.button attrs = is_submit attrs && not (is_disabled attrs)
  submits_form _ attrs = false

  unfoldable mutual
    unfolding is_submit is_disabled

    pub can_submit : Node M → Bool
    can_submit Node.nothing = false
    can_submit (Node.text s) = false
    can_submit (Node.elem t attrs xs) = submits_form t attrs || can_submit_all xs
    can_submit (Node.fragment xs) = can_submit_all xs

    pub can_submit_all : Nodes M → Bool
    can_submit_all Nodes.nil = false
    can_submit_all (Nodes.cons x xs) = can_submit x || can_submit_all xs

  unfoldable mutual
    unfolding can_submit submit_handlers

    -- The forms that a user can submit: a form whose submit button is disabled takes no submission.
    pub submits : Node M → List M
    submits Node.nothing = []
    submits (Node.text s) = []
    submits (Node.elem t attrs xs) =
        (if can_submit_all xs then submit_handlers attrs else []) ++ submits_all xs
    submits (Node.fragment xs) = submits_all xs

    pub submits_all : Nodes M → List M
    submits_all Nodes.nil = []
    submits_all (Nodes.cons x xs) = submits x ++ submits_all xs

  -- The clicks of a mapped list.
  abbrev pub gather {ℓ} : {A : Type ℓ} → (A → List M) → List A → List M
  gather f [] = []
  gather f (x ∷ xs) = f x ++ gather f xs

  pub clicks_all-each {ℓ} :
      {A : Type ℓ} (f : A → Node M) (xs : List A)
      → clicks_all (each f xs) ≡ gather (λ x. clicks (f x)) xs
  unfolding clicks each
  clicks_all-each f [] = refl
  clicks_all-each f (x ∷ xs) = rw (clicks_all-each f xs)

  -- A list of parts without clicks has none.
  pub clicks_all-each-quiet {ℓ} :
      {A : Type ℓ} (f : A → Node M) (xs : List A)
      → ((x : A) → clicks (f x) ≡ [])
      → clicks_all (each f xs) ≡ []
  unfolding clicks each
  clicks_all-each-quiet f [] h = refl
  clicks_all-each-quiet f (x ∷ xs) h = rw (h x, clicks_all-each-quiet f xs h)

  -- A part behind a test offers its clicks if the test holds.
  pub clicks-when : (b : Bool) (n : Node M) → clicks (when b n) ≡ (if b then clicks n else [])
  unfolding clicks
  clicks-when true n = refl
  clicks-when false n = refl
