-- ===== src/Server/Query.antt =====
-- The numbers in the query of a request: `strconv.Atoi`, whose error the handlers pass over.
use irwandhi_gitops_lab.Base.{
  ℕ, zero, suc, ◌≤◌, ◌≡◌, refl, ap, Bool, true, false, ◌&&◌, Option, none, some, [], ◌∷◌, arith,
  if◌then◌else◌, leb, ◌==◌, All,
}
use irwandhi_gitops_lab.Text.{
  Text, decimal, read_decimal, read_decimal-decimal, IsDigit, decimal-IsDigit,
}

-- `negsuc n` is -(n + 1).
pub data ℤ : Type 0 where
  pos : ℕ → ℤ
  negsuc : ℕ → ℤ

-- 2^63 - 1.
abbrev pub max_int : ℕ
max_int = 9223372036854775807

abbrev is_digit : ℕ → Bool
is_digit c = leb 48 c && leb c 57

all_digits : Text → Bool
all_digits [] = true
all_digits (c ∷ s) = is_digit c && all_digits s

-- The number of a text of digits; `none` is a syntax error.
unfoldable pub digits : Text → Option ℕ
unfolding all_digits
digits [] = none
digits (c ∷ s) = if all_digits (c ∷ s) then some (read_decimal (c ∷ s)) else none

-- A number that does not fit is the nearest one that does, and a text that is no number is 0.
unfoldable pub positive : Option ℕ → ℤ
positive none = ℤ.pos 0
positive (some n) = ℤ.pos (if leb n max_int then n else max_int)

unfoldable pub negative : Option ℕ → ℤ
negative none = ℤ.pos 0
negative (some zero) = ℤ.pos 0
negative (some (suc n)) = ℤ.negsuc (if leb n max_int then n else max_int)

unfoldable pub atoi : Text → ℤ
unfolding digits positive negative
atoi [] = ℤ.pos 0
atoi (c ∷ s) =
    if c == b'-'
    then negative (digits s)
    else if c == b'+'
    then positive (digits s)
    else positive (digits (c ∷ s))

all_digits-IsDigit : (s : Text) → All IsDigit s → all_digits s ≡ true
unfolding all_digits
all_digits-IsDigit [] h = refl
all_digits-IsDigit (c ∷ s) (h, hs) = ground (arith, all_digits-IsDigit s hs)

atoi_digits :
    (s : Text) (n : ℕ) → All IsDigit s → read_decimal s ≡ n → n ≤ max_int → atoi s ≡ ℤ.pos n
unfolding atoi digits positive read_decimal
atoi_digits [] n h e small = ap ℤ.pos e
atoi_digits (c ∷ s) n (h, hs) e small =
    let no_minus : (c == b'-') ≡ false = ground arith in
    let no_plus : (c == b'+') ≡ false = ground arith in
    rw (no_minus, no_plus, all_digits-IsDigit (c ∷ s) (h, hs), e) (ground arith)

-- A number that the client writes is read as that number.
pub atoi-decimal : (n : ℕ) → n ≤ max_int → atoi (decimal n) ≡ ℤ.pos n
atoi-decimal n small = atoi_digits (decimal n) n (decimal-IsDigit n) (read_decimal-decimal n) small
