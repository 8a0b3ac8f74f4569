-- ===== src/Text/Decimal.antt =====
-- Numbers in template literals, and `padStart`.
use irwandhi_gitops_lab.Base.{
  ℕ, zero, suc, ◌+◌, ◌*◌, ◌-◌, ◌/◌, ◌%◌, ◌<◌, ◌≤◌, ◌≡◌, refl, ◌∙◌, ap, [], ◌∷◌, ◌++◌, arith, ltb,
  length, if◌then◌else◌, Bool-cases, inl, inr, All,
}
use irwandhi_gitops_lab.Text.Defs.{Text}

-- The decimal digits of `n` in front of `rest`; the fuel bounds the number of digits.
decimal_from : ℕ → ℕ → Text → Text
decimal_from zero n rest = rest
decimal_from (suc f) n rest =
    let more = decimal_from f (n / 10) ((48 + n % 10) ∷ rest) in
    if ltb n 10 then (48 + n) ∷ rest else more

-- `${n}` for a natural number.
unfoldable pub decimal : ℕ → Text
unfolding decimal_from
decimal n = decimal_from (suc n) n []

-- The number that a text of digits stands for, behind `acc`.
unfoldable pub read_from : ℕ → Text → ℕ
read_from acc [] = acc
read_from acc (c ∷ s) = read_from (acc * 10 + (c - 48)) s

unfoldable pub read_decimal : Text → ℕ
unfolding read_from
read_decimal s = read_from 0 s

-- With enough fuel the digits of `n` bring a reader from nothing to `n`.
read_from-decimal_from :
    (f n : ℕ) (rest : Text) → n < f → read_from 0 (decimal_from f n rest) ≡ read_from n rest
unfolding decimal_from read_from
read_from-decimal_from zero n rest h = elim h [ ]
read_from-decimal_from (suc f) n rest h = elim (Bool-cases (ltb n 10)) [
  | inl small ↦ rw small (ap (λ k. read_from k rest) (omega arith))
  | inr large ↦ rw large (
      read_from-decimal_from f (n / 10) ((48 + n % 10) ∷ rest) (ground arith)
      ∙ ap (λ k. read_from k rest) (omega arith))
]

-- Reading the digits of `n` gives `n`.
pub read_decimal-decimal : (n : ℕ) → read_decimal (decimal n) ≡ n
unfolding read_decimal decimal
read_decimal-decimal n = read_from-decimal_from (suc n) n [] (omega arith)

abbrev pub IsDigit : ℕ → Type 0
IsDigit c = (48 ≤ c) × (c ≤ 57)

decimal_from-IsDigit :
    (f n : ℕ) (rest : Text) → All IsDigit rest → All IsDigit (decimal_from f n rest)
unfolding decimal_from
decimal_from-IsDigit zero n rest h = h
decimal_from-IsDigit (suc f) n rest h = elim (Bool-cases (ltb n 10)) [
  | inl small ↦ rw small ((omega arith, ground arith), h)
  | inr large ↦
      rw large
        (decimal_from-IsDigit f (n / 10) ((48 + n % 10) ∷ rest) ((omega arith, omega arith), h))
]

pub decimal-IsDigit : (n : ℕ) → All IsDigit (decimal n)
unfolding decimal
decimal-IsDigit n = decimal_from-IsDigit (suc n) n [] tt

-- A number below one hundred in two digits.
abbrev pub two_digits : ℕ → Text
two_digits n = (48 + n / 10) ∷ (48 + n % 10) ∷ []

abbrev repeat : ℕ → ℕ → Text
repeat zero c = []
repeat (suc n) c = c ∷ repeat n c

-- `s.padStart(n, c)` for a one-unit filler.
unfoldable pub pad_start : ℕ → ℕ → Text → Text
pad_start n c s = repeat (n - length s) c ++ s

pub pad_start-decimal : (n : ℕ) → n < 100 → pad_start 2 48 (decimal n) ≡ two_digits n
unfolding pad_start decimal decimal_from
pad_start-decimal zero h = refl
pad_start-decimal (suc n) h = elim (Bool-cases (ltb (suc n) 10)) [
  | inl small ↦ rw small (ground arith)
  | inr large ↦ rw large (ground arith)
]
