-- ===== src/Server/Store/Ordering.antt =====
-- What `ORDER BY`, `LIMIT` and `OFFSET` do to the rows.
use irwandhi_gitops_lab.Base.{
  ℕ, zero, suc, ◌≤◌, ◌≡◌, refl, ap, ◌∙◌, Bool, true, false, List, [], ◌∷◌, arith, All, take, drop,
  length, Bool-cases, inl, inr,
}
use irwandhi_gitops_lab.Server.Store.{insert_row, order_by}

module _ {ℓ} {A : Type ℓ} where
  pub All-take {κ} : (P : A → Type κ) (n : ℕ) (xs : List A) → All P xs → All P (take n xs)
  All-take P zero xs h = tt
  All-take P (suc n) [] h = tt
  All-take P (suc n) (x ∷ xs) (h, hs) = (h, All-take P n xs hs)

  pub All-drop {κ} : (P : A → Type κ) (n : ℕ) (xs : List A) → All P xs → All P (drop n xs)
  All-drop P zero xs h = h
  All-drop P (suc n) [] h = tt
  All-drop P (suc n) (x ∷ xs) (h, hs) = All-drop P n xs hs

  pub length-take : (n : ℕ) (xs : List A) → length (take n xs) ≤ n
  length-take zero xs = omega arith
  length-take (suc n) [] = omega arith
  length-take (suc n) (x ∷ xs) = omega (arith, length-take n xs)

  pub length-take-le : (n : ℕ) (xs : List A) → length (take n xs) ≤ length xs
  length-take-le zero xs = omega arith
  length-take-le (suc n) [] = omega arith
  length-take-le (suc n) (x ∷ xs) = omega (arith, length-take-le n xs)

  -- No row stands behind one that must stand behind it.
  abbrev pub IsOrdered : (A → A → Bool) → List A → Type ℓ
  IsOrdered before [] = Unit
  IsOrdered before (x ∷ xs) = All (λ y. before x y ≡ true) xs × IsOrdered before xs

  pub take-IsOrdered :
      (before : A → A → Bool) (n : ℕ) (xs : List A)
      → IsOrdered before xs
      → IsOrdered before (take n xs)
  take-IsOrdered before zero xs h = tt
  take-IsOrdered before (suc n) [] h = tt
  take-IsOrdered before (suc n) (x ∷ xs) (h, hs) =
      (All-take (λ y. before x y ≡ true) n xs h, take-IsOrdered before n xs hs)

  pub drop-IsOrdered :
      (before : A → A → Bool) (n : ℕ) (xs : List A)
      → IsOrdered before xs
      → IsOrdered before (drop n xs)
  drop-IsOrdered before zero xs h = h
  drop-IsOrdered before (suc n) [] h = tt
  drop-IsOrdered before (suc n) (x ∷ xs) (h, hs) = drop-IsOrdered before n xs hs

  module _ (before : A → A → Bool) where
    All-insert_row {κ} :
        (P : A → Type κ) (x : A) (ys : List A) → P x → All P ys → All P (insert_row before x ys)
    unfolding insert_row
    All-insert_row P x [] h hs = (h, tt)
    All-insert_row P x (y ∷ ys) h (k, hs) = elim (Bool-cases (before x y)) [
      | inl first ↦ rw first (h, (k, hs))
      | inr later ↦ rw later (k, All-insert_row P x ys h hs)
    ]

    pub All-order_by {κ} : (P : A → Type κ) (xs : List A) → All P xs → All P (order_by before xs)
    unfolding order_by
    All-order_by P [] h = tt
    All-order_by P (x ∷ xs) (h, hs) =
        All-insert_row P x (order_by before xs) h (All-order_by P xs hs)

    length-insert_row : (x : A) (ys : List A) → length (insert_row before x ys) ≡ suc (length ys)
    unfolding insert_row
    length-insert_row x [] = refl
    length-insert_row x (y ∷ ys) = ground (arith, length-insert_row x ys)

    pub length-order_by : (xs : List A) → length (order_by before xs) ≡ length xs
    unfolding order_by
    length-order_by [] = refl
    length-order_by (x ∷ xs) =
        length-insert_row x (order_by before xs) ∙ ap suc (length-order_by xs)

    module _ (total : (x y : A) → before x y ≡ false → before y x ≡ true)
        (trans : (x y z : A) → before x y ≡ true → before y z ≡ true → before x z ≡ true) where
      later_ones :
          (x y : A) (ys : List A)
          → before x y ≡ true
          → All (λ z. before y z ≡ true) ys
          → All (λ z. before x z ≡ true) ys
      later_ones x y [] h k = tt
      later_ones x y (z ∷ ys) h (k, ks) = (trans x y z h k, later_ones x y ys h ks)

      insert_row-IsOrdered :
          (x : A) (ys : List A) → IsOrdered before ys → IsOrdered before (insert_row before x ys)
      unfolding insert_row
      insert_row-IsOrdered x [] h = (tt, tt)
      insert_row-IsOrdered x (y ∷ ys) (h, hs) = elim (Bool-cases (before x y)) [
        | inl first ↦ rw first ((first, later_ones x y ys first h), (h, hs))
        | inr later ↦ rw later (
          All-insert_row (λ z. before y z ≡ true) x ys (total x y later) h,
          insert_row-IsOrdered x ys hs,
        )
      ]

      pub order_by-IsOrdered : (xs : List A) → IsOrdered before (order_by before xs)
      unfolding order_by
      order_by-IsOrdered [] = tt
      order_by-IsOrdered (x ∷ xs) =
          insert_row-IsOrdered x (order_by before xs) (order_by-IsOrdered xs)
