-- ===== src/Cron/Laws.antt =====
-- What the phrase under a cron expression says, for every layout of its fields.
use irwandhi_gitops_lab.Base.{
  suc, ◌≡◌, refl, sym, ◌∙◌, ap, ◌≢◌, false, none, some, List, [], ◌∷◌, ◌++◌, map, arith, length,
}
use irwandhi_gitops_lab.Text.{
  Text, lit, ne_of_eq_text, eq_text, eq_text_iff, eq_text_refl, starts_with, starts_with-append,
  pad_start, trim, lay_out, split_space, IsBlank, IsWord, IsLayout, split_space-trim-lay_out,
}
use irwandhi_gitops_lab.Cron.{describe, describe_fields, describe_parts}

-- A cron expression as a user may type it: five fields, with white space around and between them.
pub record Layout : Type 0 where
  pub min : Text
  pub hour : Text
  pub dom : Text
  pub month : Text
  pub dow : Text
  pub lead : Text
  pub gap₁ : Text
  pub gap₂ : Text
  pub gap₃ : Text
  pub gap₄ : Text
  pub trail : Text

-- The fields behind the first, each with the gap before it.
abbrev pub later : Layout → List (Text × Text)
later l = (l.gap₁, l.hour) ∷ (l.gap₂, l.dom) ∷ (l.gap₃, l.month) ∷ (l.gap₄, l.dow) ∷ []

abbrev pub written : Layout → Text
written l = l.lead ++ (lay_out l.min (later l) ++ l.trail)

pub record IsWritten (l : Layout) : Type 0 where
  pub before : IsBlank l.lead
  pub after : IsBlank l.trail
  pub first : IsWord l.min
  pub others : IsLayout (later l)

-- The five fields reach the tests of the helper, whatever the white space.
describe-written :
    (l : Layout)
    → IsWritten l
    → describe (written l) ≡ describe_fields (written l) l.min l.hour l.dom l.month l.dow
unfolding describe describe_parts
describe-written l w =
    rw (split_space-trim-lay_out l.lead l.trail l.min (later l) w.before w.after w.first w.others)

-- The one text that the helper compares whole.
abbrev pub every_minute : Text
every_minute = lit "* * * * *"

abbrev pub SameFields : Layout → Layout → Type 0
SameFields l k =
    (l.min ≡ k.min) × (l.hour ≡ k.hour) × (l.dom ≡ k.dom) × (l.month ≡ k.month) × (l.dow ≡ k.dow)

-- Past the first test the expression itself is not read again.
eq-every_minute : (e : Text) → e ≢ every_minute → eq_text e every_minute ≡ false
eq-every_minute e ne = ground (arith, eq_text_iff e every_minute)

nil-ne-every_minute : [] ≢ every_minute
nil-ne-every_minute = ne_of_eq_text [] every_minute (unfold eq_text lit in refl)

describe_fields_plain :
    (e min hour dom month dow : Text)
    → e ≢ every_minute
    → describe_fields e min hour dom month dow ≡ describe_fields [] min hour dom month dow
unfolding describe_fields
describe_fields_plain e min hour dom month dow ne =
    rw (eq-every_minute e ne, eq-every_minute [] nil-ne-every_minute)

describe_parts_wrong : (e : Text) (ws : List Text) → length ws ≢ 5 → describe_parts e ws ≡ none
unfolding describe_parts
describe_parts_wrong e (a ∷ b ∷ c ∷ d ∷ f ∷ []) h = absurd (h refl)
describe_parts_wrong e _ h = refl

length-map {ℓ κ} :
    {A : Type ℓ} {B : Type κ} (f : A → B) (xs : List A) → length (map f xs) ≡ length xs
length-map f [] = refl
length-map f (x ∷ xs) = ap suc (length-map f xs)

-- Unless one of them is "* * * * *", the same five fields get the same phrase under any two
-- layouts.
pub describe_layout_free :
    (l k : Layout)
    → IsWritten l
    → IsWritten k
    → SameFields l k
    → written l ≢ every_minute
    → written k ≢ every_minute
    → describe (written l) ≡ describe (written k)
describe_layout_free l k wl wk (a, b, c, d, e) nl nk = cc (
  describe-written l wl,
  describe-written k wk,
  describe_fields_plain (written l) l.min l.hour l.dom l.month l.dow nl,
  describe_fields_plain (written k) k.min k.hour k.dom k.month k.dow nk,
)

-- An expression whose fields are not five gets no phrase.
pub describe_of_wrong_count :
    (lead trail w : Text) (r : List (Text × Text))
    → IsBlank lead
    → IsBlank trail
    → IsWord w
    → IsLayout r
    → length r ≢ 4
    → describe (lead ++ (lay_out w r ++ trail)) ≡ none
unfolding describe
describe_of_wrong_count lead trail w r hl ht hw hr count =
    rw (split_space-trim-lay_out lead trail w r hl ht hw hr) (
      describe_parts_wrong _ (w ∷ map (λ p. p.1) r)
        (λ e. count (omega (arith, length-map (λ (p : Text × Text). p.1) r))))

-- An expression that is "* * * * *" has "*" for its minute and its hour.
every_minute_fields :
    (l : Layout) → IsWritten l → written l ≡ every_minute → (l.min ≡ lit "*") × (l.hour ≡ lit "*")
every_minute_fields l w e = (cc words, cc words)
  where
    words :
        l.min ∷ l.hour ∷ l.dom ∷ l.month ∷ l.dow ∷ []
        ≡ lit "*" ∷ lit "*" ∷ lit "*" ∷ lit "*" ∷ lit "*" ∷ []
    words =
        sym (
          split_space-trim-lay_out l.lead l.trail l.min (later l) w.before w.after w.first w.others)
        ∙ (ap (λ s. split_space (trim s)) e ∙ unfold split_space trim lit in refl)

step-ne-star : (n : Text) → lit "*/" ++ n ≢ lit "*"
unfolding lit
step-ne-star n e = cc e

step_plain :
    (n hour dom month dow : Text)
    → describe_fields [] (lit "*/" ++ n) hour dom month dow
      ≡ some (lit "Every " ++ (n ++ lit " minutes"))
unfolding describe_fields
step_plain n hour dom month dow =
    rw (eq-every_minute [] nil-ne-every_minute, starts_with-append (lit "*/") n)
      (unfold lit in refl)

daily_plain :
    (min hour dom month dow : Text)
    → starts_with min (lit "*/") ≡ false
    → hour ≢ lit "*"
    → dom ≡ lit "*"
    → month ≡ lit "*"
    → dow ≡ lit "*"
    → describe_fields [] min hour dom month dow
      ≡ some (lit "Daily at " ++ (pad_start 2 b'0' hour ++ (lit ":" ++ pad_start 2 b'0' min)))
unfolding describe_fields
daily_plain min hour dom month dow a b c d e =
    let other : eq_text hour (lit "*") ≡ false = ground (arith, eq_text_iff hour (lit "*")) in
    rw (eq-every_minute [] nil-ne-every_minute, a, c, d, e, eq_text_refl (lit "*"), other)

-- In an expression of five fields a first field "*/n" gets the phrase "Every n minutes", whatever
-- the other four fields are.
pub describe-step :
    (l : Layout) (n : Text)
    → IsWritten l
    → l.min ≡ lit "*/" ++ n
    → describe (written l) ≡ some (lit "Every " ++ (n ++ lit " minutes"))
describe-step l n w e =
    describe-written l w
    ∙ (describe_fields_plain _ _ _ _ _ _
          (λ same. step-ne-star n (sym e ∙ (every_minute_fields l w same).0))
        ∙ rw e (step_plain n l.hour l.dom l.month l.dow))

-- In an expression of five fields any hour field but "*", with a first field that is no step and
-- "*" for the rest, is read as a time of day.
pub describe-daily :
    (l : Layout)
    → IsWritten l
    → starts_with l.min (lit "*/") ≡ false
    → l.hour ≢ lit "*"
    → l.dom ≡ lit "*"
    → l.month ≡ lit "*"
    → l.dow ≡ lit "*"
    → describe (written l)
      ≡ some (lit "Daily at " ++ (pad_start 2 b'0' l.hour ++ (lit ":" ++ pad_start 2 b'0' l.min)))
describe-daily l w a b c d e =
    describe-written l w
    ∙ (describe_fields_plain _ _ _ _ _ _ (λ same. b (every_minute_fields l w same).1)
        ∙ daily_plain l.min l.hour l.dom l.month l.dow a b c d e)
