-- ===== src/Doubles.antt =====
-- The floating-point numbers of the language, as far as the client computes with them: their
-- operations are the processor's and the runtime's.
use irwandhi_gitops_lab.Base.{ℕ, Bool}
use irwandhi_gitops_lab.Text.{Text}

pub record Doubles : Type 1 where
  pub Double : Type 0
  pub of_ℕ : ℕ → Double
  pub pi : Double
  pub ge : Double → Double → Bool
  pub gt : Double → Double → Bool
  pub add : Double → Double → Double
  pub mul : Double → Double → Double
  pub div : Double → Double → Double
  pub sub : Double → Double → Double
  -- `Math.round(x)`, `x.toFixed(digits)`, and `${x}`.
  pub round : Double → Double
  pub to_fixed : ℕ → Double → Text
  pub print : Double → Text
