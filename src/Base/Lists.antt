-- ===== src/Base/Lists.antt =====
-- Lists measured by native numbers, under the library's names, and filtered by Boolean tests.
use Prim.Native.Nat.{ℕ, zero, suc, ◌+◌, ◌≤◌}
use mathlib.Core.Path.{◌≡◌, refl, sym, ap, ◌∙◌}
use mathlib.Core.Logic.{◌↔◌, ◌⊎◌, inl, inr}
use mathlib.Core.Bool.{Bool, true, false, false≢true}
use mathlib.Core.List.{List, [], ◌∷◌, ◌++◌, map, Memᴰ}
use native.Mathlib.Omega.{arith}
use irwandhi_gitops_lab.Base.Tests.{if◌then◌else◌, Bool-cases}

module _ {ℓ} {A : Type ℓ} where
  abbrev pub length : List A → ℕ
  length [] = 0
  length (x ∷ xs) = suc (length xs)

  abbrev pub take : ℕ → List A → List A
  take zero xs = []
  take (suc n) [] = []
  take (suc n) (x ∷ xs) = x ∷ take n xs

  abbrev pub drop : ℕ → List A → List A
  drop zero xs = xs
  drop (suc n) [] = []
  drop (suc n) (x ∷ xs) = drop n xs

  abbrev pub is_empty : List A → Bool
  is_empty [] = true
  is_empty (x ∷ xs) = false

  abbrev pub All {κ} : (A → Type κ) → List A → Type κ
  All P [] = Unit
  All P (x ∷ xs) = P x × All P xs

  -- `xs.filter(keep)`.
  unfoldable pub filter : (A → Bool) → List A → List A
  filter keep [] = []
  filter keep (x ∷ xs) = let rest = filter keep xs in if keep x then x ∷ rest else rest

  pub length-append : (xs ys : List A) → length (xs ++ ys) ≡ length xs + length ys
  length-append [] ys = omega arith
  length-append (x ∷ xs) ys = omega (arith, length-append xs ys)

  pub All-append {κ} : (P : A → Type κ) (xs ys : List A) → All P xs → All P ys → All P (xs ++ ys)
  All-append P [] ys h k = k
  All-append P (x ∷ xs) ys (h, hs) k = (h, All-append P xs ys hs k)

  pub length-filter-le : (keep : A → Bool) (xs : List A) → length (filter keep xs) ≤ length xs
  unfolding filter
  length-filter-le keep [] = omega arith
  length-filter-le keep (x ∷ xs) = ground (arith, length-filter-le keep xs)

  pub Memᴰ-cons : {a x : A} {xs : List A} → Memᴰ a (x ∷ xs) → (a ≡ x) ⊎ Memᴰ a xs
  Memᴰ-cons (Memᴰ.head e) = inl e
  Memᴰ-cons (Memᴰ.tail m) = inr m

  Memᴰ-of_filter :
      (keep : A → Bool) (a : A) (xs : List A)
      → Memᴰ a (filter keep xs)
      → Memᴰ a xs × (keep a ≡ true)
  unfolding filter
  Memᴰ-of_filter keep a [] m = elim m [ ]
  Memᴰ-of_filter keep a (x ∷ xs) m = elim (Bool-cases (keep x)) [
    | inl hit ↦ elim (Memᴰ-cons (rw (hit, filter) at m)) [
      | inl e ↦ (Memᴰ.head e, rw e hit)
      | inr later ↦ let (found, h) = Memᴰ-of_filter keep a xs later in (Memᴰ.tail found, h)
    ]
    | inr miss ↦
        let (found, h) = Memᴰ-of_filter keep a xs (rw (miss, filter) at m) in (Memᴰ.tail found, h)
  ]

  Memᴰ-filter :
      (keep : A → Bool) (a : A) (xs : List A) → Memᴰ a xs → keep a ≡ true → Memᴰ a (filter keep xs)
  unfolding filter
  Memᴰ-filter keep a [] m h = elim m [ ]
  Memᴰ-filter keep a (x ∷ xs) m h = elim (Bool-cases (keep x)) [
    | inl hit ↦ elim (Memᴰ-cons m) [
      | inl e ↦ rw hit (Memᴰ.head e)
      | inr later ↦ rw hit (Memᴰ.tail (Memᴰ-filter keep a xs later h))
    ]
    | inr miss ↦ elim (Memᴰ-cons m) [
      | inl e ↦ absurd (false≢true (sym miss ∙ (ap keep (sym e) ∙ h)))
      | inr later ↦ rw miss (Memᴰ-filter keep a xs later h)
    ]
  ]

  -- `filter` keeps exactly the members that pass the test.
  pub mem-filter :
      (keep : A → Bool) (a : A) (xs : List A)
      → Memᴰ a (filter keep xs) ↔ (Memᴰ a xs × (keep a ≡ true))
  mem-filter keep a xs = (Memᴰ-of_filter keep a xs, λ p. Memᴰ-filter keep a xs p.0 p.1)

pub length-map {ℓ κ} :
    {A : Type ℓ} {B : Type κ} (f : A → B) (xs : List A) → length (map f xs) ≡ length xs
length-map f [] = refl
length-map f (x ∷ xs) = ap suc (length-map f xs)
