-- ===== src/Cron/Clock.antt =====
-- The phrase under an expression for a time of day.
use irwandhi_gitops_lab.Base.{ℕ, ◌<◌, ◌≡◌, ◌≢◌, ◌∙◌, refl, false, some, [], ◌∷◌, ◌++◌, arith, All}
use irwandhi_gitops_lab.Text.{
  Text, lit, decimal, decimal-IsDigit, IsDigit, two_digits, pad_start-decimal, starts_with,
}
use irwandhi_gitops_lab.Cron.{describe}
use irwandhi_gitops_lab.Cron.Laws.{Layout, IsWritten, written, describe-daily}

digits_no_step : (s : Text) → All IsDigit s → starts_with s (lit "*/") ≡ false
unfolding starts_with lit
digits_no_step [] h = refl
digits_no_step (c ∷ s) (digit, h) = ground arith

digits-ne-star : (s : Text) → All IsDigit s → s ≢ lit "*"
unfolding lit
digits-ne-star [] h e = cc e
digits-ne-star (c ∷ s) ((lo, hi), h) e = let star : c ≡ 42 = cc e in omega arith

-- Five fields that give a minute and an hour as numbers, and "*" for the rest, are described by that
-- time of day in two digits each.
pub describe-clock :
    (l : Layout) (hour minute : ℕ)
    → IsWritten l
    → hour < 24
    → minute < 60
    → l.min ≡ decimal minute
    → l.hour ≡ decimal hour
    → l.dom ≡ lit "*"
    → l.month ≡ lit "*"
    → l.dow ≡ lit "*"
    → describe (written l)
      ≡ some (lit "Daily at " ++ (two_digits hour ++ (lit ":" ++ two_digits minute)))
describe-clock l hour minute w hh hm em eh a b c =
    let plain : starts_with l.min (lit "*/") ≡ false =
      rw em (digits_no_step (decimal minute) (decimal-IsDigit minute)) in
    let fixed : l.hour ≢ lit "*" = rw eh (digits-ne-star (decimal hour) (decimal-IsDigit hour)) in
    describe-daily l w plain fixed a b c
    ∙ rw (em, eh, pad_start-decimal hour (omega arith), pad_start-decimal minute (omega arith)) refl
