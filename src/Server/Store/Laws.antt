-- ===== src/Server/Store/Laws.antt =====
-- What `SELECT`, `UPDATE` and `DELETE` with a condition do to what another condition finds.
use mathlib.Core.Path.{subst}
use irwandhi_gitops_lab.Base.{
  ◌≡◌, refl, Bool, true, false, not, ◌&&◌, none, some, List, [], ◌∷◌, arith, if◌then◌else◌, filter,
  Bool-cases, inl, inr,
}
use irwandhi_gitops_lab.Server.Store.{find, update_where}

module _ {ℓ} {A : Type ℓ} where
  -- A condition that the update's never meets, on rows that keep what it reads, finds the same.
  pub find-update_where-other :
      (p t : A → Bool) (set : A → A) (xs : List A)
      → ((x : A) → p x ≡ true → t x ≡ false)
      → ((x : A) → p (set x) ≡ p x)
      → find p (update_where t set xs) ≡ find p xs
  unfolding find update_where
  find-update_where-other p t set [] apart keeps = refl
  find-update_where-other p t set (x ∷ xs) apart keeps =
      ground (arith, find-update_where-other p t set xs apart keeps, apart x, keeps x)

  -- An update of some of the rows that a condition finds.
  pub find-update_where-same :
      (p s : A → Bool) (t : A → Bool) (set : A → A) (xs : List A)
      → ((x : A) → t x ≡ (p x && s x))
      → ((x : A) → p (set x) ≡ p x)
      → find p (update_where t set xs)
        ≡ elim (find p xs) [ none ↦ none | some x ↦ some (if s x then set x else x) ]
  unfolding find update_where
  find-update_where-same p s t set [] split keeps = refl
  find-update_where-same p s t set (x ∷ xs) split keeps =
      ground (arith, find-update_where-same p s t set xs split keeps, split x, keeps x)

  pub find-filter-same : (p : A → Bool) (xs : List A) → find p (filter (λ x. not (p x)) xs) ≡ none
  unfolding find filter
  find-filter-same p [] = refl
  find-filter-same p (x ∷ xs) = ground (arith, find-filter-same p xs)

  pub find-filter-other :
      (p t : A → Bool) (xs : List A)
      → ((x : A) → p x ≡ true → t x ≡ false)
      → find p (filter (λ x. not (t x)) xs) ≡ find p xs
  unfolding find filter
  find-filter-other p t [] apart = refl
  find-filter-other p t (x ∷ xs) apart = ground (arith, find-filter-other p t xs apart, apart x)

  -- What no row meets, no row meets with more conditions.
  pub find-none :
      (p t : A → Bool) (xs : List A)
      → ((x : A) → t x ≡ true → p x ≡ true)
      → find p xs ≡ none
      → find t xs ≡ none
  unfolding find
  find-none p t [] narrower free = refl
  find-none p t (x ∷ xs) narrower free = ground (arith, find-none p t xs narrower, narrower x, free)

  -- An update leaves the rows that a condition selects, if it is of other rows and keeps them out.
  pub filter-update_where :
      (q t : A → Bool) (set : A → A) (xs : List A)
      → ((x : A) → t x ≡ true → q x ≡ false)
      → ((x : A) → q (set x) ≡ q x)
      → filter q (update_where t set xs) ≡ filter q xs
  unfolding filter update_where
  filter-update_where q t set [] apart keeps = refl
  filter-update_where q t set (x ∷ xs) apart keeps =
      ground (arith, filter-update_where q t set xs apart keeps, apart x, keeps x)

  pub filter-filter :
      (q t : A → Bool) (xs : List A)
      → ((x : A) → t x ≡ true → q x ≡ false)
      → filter q (filter (λ x. not (t x)) xs) ≡ filter q xs
  unfolding filter
  filter-filter q t [] apart = refl
  filter-filter q t (x ∷ xs) apart = ground (arith, filter-filter q t xs apart, apart x)

  -- What a condition finds after an update of columns that it does not read.
  pub find-update_where :
      (p t : A → Bool) (set : A → A) (xs : List A)
      → ((x : A) → p (set x) ≡ p x)
      → find p (update_where t set xs)
        ≡ elim (find p xs) [ none ↦ none | some x ↦ some (if t x then set x else x) ]
  unfolding find update_where
  find-update_where p t set [] keeps = refl
  find-update_where p t set (x ∷ xs) keeps =
      ground (arith, find-update_where p t set xs keeps, keeps x)

  -- What a condition finds meets it.
  pub find-meets : (p : A → Bool) (xs : List A) {x : A} → find p xs ≡ some x → p x ≡ true
  unfolding find
  find-meets p [] h = cc
  find-meets p (x ∷ xs) {x = y} h = elim (Bool-cases (p x)) [
    | inl hit ↦ let e : x ≡ y = ground arith in subst (λ z. p z ≡ true) e hit
    | inr miss ↦ find-meets p xs (rw (miss, find) at h)
  ]
