-- ===== src/Tests/Phrases.antt =====
-- The phrases under cron expressions, at concrete inputs.
use irwandhi_gitops_lab.Base.{arith, ◌≡◌, ◌≢◌, refl, ℕ, true, false, some, [], ◌∷◌, ◌++◌}
use irwandhi_gitops_lab.Text.{Text, lit, is_space, IsWord, IsGap, decimal, two_digits}
use irwandhi_gitops_lab.Cron.Clock.{describe-clock}
use irwandhi_gitops_lab.Cron.{describe}
use irwandhi_gitops_lab.Cron.Laws.{Layout, IsWritten, written}

-- Five fields with single blanks between them.
abbrev plain : Text → Text → Text → Text → Text → Layout
plain min hour dom month dow = record {
  min = min;
  hour = hour;
  dom = dom;
  month = month;
  dow = dow;
  lead = [];
  gap₁ = lit " ";
  gap₂ = lit " ";
  gap₃ = lit " ";
  gap₄ = lit " ";
  trail = [];
}

abbrev at_nine : Layout
at_nine = plain (lit "5") (lit "9") (lit "*") (lit "*") (lit "*")

cons-ne-nil : (c : ℕ) (s : Text) → c ∷ s ≢ []
cons-ne-nil c s e = cc e

-- A text of one unit that is no white space, one blank, and both again.
word : (c : ℕ) → is_space c ≡ false → IsWord (c ∷ [])
word c h = ((h, tt), cons-ne-nil c [])

blank : (c : ℕ) → is_space c ≡ true → IsGap (c ∷ [])
blank c h = ((h, tt), cons-ne-nil c [])

at_nine-IsWritten : IsWritten at_nine
unfolding is_space lit
at_nine-IsWritten = record {
  before = tt;
  after = tt;
  first = word b'5' refl;
  others = (
    (blank 32 refl, word b'9' refl),
    (
      (blank 32 refl, word b'*' refl),
      ((blank 32 refl, word b'*' refl), ((blank 32 refl, word b'*' refl), tt)),
    ),
  );
}

decimal_five : lit "5" ≡ decimal 5
unfolding lit decimal
decimal_five = refl

decimal_nine : lit "9" ≡ decimal 9
unfolding lit decimal
decimal_nine = refl

describe-clock_example :
    describe (written at_nine)
    ≡ some (lit "Daily at " ++ (two_digits 9 ++ (lit ":" ++ two_digits 5)))
describe-clock_example =
    describe-clock at_nine 9 5 at_nine-IsWritten (omega arith) (omega arith) decimal_five
      decimal_nine refl refl refl
