-- ===== src/Server/Store/Sums.antt =====
-- Sums over rows.
use irwandhi_gitops_lab.Base.{ℕ, ◌+◌, ◌≡◌, refl, ap, ◌∙◌, Bool, List, [], ◌∷◌, arith, map}
use irwandhi_gitops_lab.Server.Store.{insert_row, order_by}

unfoldable pub sum_of {ℓ} : {A : Type ℓ} → (A → ℕ) → List A → ℕ
sum_of f [] = 0
sum_of f (x ∷ xs) = f x + sum_of f xs

sum_of-insert_row {ℓ} :
    {A : Type ℓ} (f : A → ℕ) (before : A → A → Bool) (x : A) (xs : List A)
    → sum_of f (insert_row before x xs) ≡ f x + sum_of f xs
unfolding sum_of insert_row
sum_of-insert_row f before x [] = refl
sum_of-insert_row f before x (y ∷ ys) = ground (arith, sum_of-insert_row f before x ys)

pub sum_of-order_by {ℓ} :
    {A : Type ℓ} (f : A → ℕ) (before : A → A → Bool) (xs : List A)
    → sum_of f (order_by before xs) ≡ sum_of f xs
unfolding sum_of order_by
sum_of-order_by f before [] = refl
sum_of-order_by f before (x ∷ xs) =
    sum_of-insert_row f before x (order_by before xs)
    ∙ ap (λ n. f x + n) (sum_of-order_by f before xs)

pub sum_of-map {ℓ κ} :
    {A : Type ℓ} {B : Type κ} (f : B → ℕ) (g : A → B) (xs : List A)
    → sum_of f (map g xs) ≡ sum_of (λ x. f (g x)) xs
unfolding sum_of
sum_of-map f g [] = refl
sum_of-map f g (x ∷ xs) = ap (λ n. f (g x) + n) (sum_of-map f g xs)

pub sum_of-add {ℓ} :
    {A : Type ℓ} (f g : A → ℕ) (xs : List A)
    → sum_of (λ x. f x + g x) xs ≡ sum_of f xs + sum_of g xs
unfolding sum_of
sum_of-add f g [] = refl
sum_of-add f g (x ∷ xs) = omega (arith, sum_of-add f g xs)

pub sum_of-zero {ℓ} : {A : Type ℓ} (xs : List A) → sum_of (λ x. 0) xs ≡ 0
unfolding sum_of
sum_of-zero [] = refl
sum_of-zero (x ∷ xs) = omega (arith, sum_of-zero xs)
