-- ===== src/Pages/Dashboard/Timer.antt =====
-- The timer of a running execution.
use irwandhi_gitops_lab.Base.{
  leb, true, ℕ, ◌+◌, ◌*◌, ◌-◌, ◌/◌, ◌%◌, ◌≤◌, [], ◌∷◌, ◌++◌, ◌≡◌, refl, ◌∙◌, ap, arith, All,
  if◌then◌else◌, ltb, ◌==◌, Bool-cases, inl, inr, append_assoc,
}
use irwandhi_gitops_lab.Text.{
  Text, lit, decimal, read_from, read_decimal, read_decimal-decimal, IsDigit, decimal-IsDigit,
}
use irwandhi_gitops_lab.Pages.Dashboard.{Seconds, elapsed, elapsed_text}

-- A reader of the timer: the minutes so far, the digits since, and the text that is left. A digit
-- is counted, "m" makes minutes of what was counted, a blank is passed over, and "s" ends the text.
unfoldable pub read_timer : ℕ → ℕ → Text → ℕ
read_timer minutes n [] = minutes * 60 + n
read_timer minutes n (c ∷ s) =
    read_timer (if c == b'm' then n else minutes)
      (if c == b'm'
        then 0
        else (if c == b' ' then n else (if c == b's' then n else n * 10 + (c - 48))))
      s

read_timer-digits :
    (minutes n : ℕ) (ds rest : Text)
    → All IsDigit ds
    → read_timer minutes n (ds ++ rest) ≡ read_timer minutes (read_from n ds) rest
unfolding read_timer read_from
read_timer-digits minutes n [] rest h = refl
read_timer-digits minutes n (c ∷ ds) rest ((lo, hi), h) =
    ground (arith, read_timer-digits minutes (n * 10 + (c - 48)) ds rest h)

read_timer-decimal :
    (minutes n : ℕ) (rest : Text)
    → read_timer minutes 0 (decimal n ++ rest) ≡ read_timer minutes n rest
unfolding read_decimal
read_timer-decimal minutes n rest =
    read_timer-digits minutes 0 (decimal n) rest (decimal-IsDigit n)
    ∙ ap (λ k. read_timer minutes k rest) (read_decimal-decimal n)

read_timer-minutes : (n : ℕ) (rest : Text) → read_timer 0 n (lit "m " ++ rest) ≡ read_timer n 0 rest
unfolding read_timer lit
read_timer-minutes n rest = refl

read_timer-end : (minutes n : ℕ) → read_timer minutes n (lit "s") ≡ minutes * 60 + n
unfolding read_timer lit
read_timer-end minutes n = refl

read_timer-elapsed_pos :
    (seconds : ℕ) → read_timer 0 0 (elapsed_text (Seconds.pos seconds)) ≡ seconds
unfolding elapsed_text
read_timer-elapsed_pos seconds = elim (Bool-cases (ltb 0 (seconds / 60))) [
  | inl long ↦
      rw
        (
          long,
          append_assoc (decimal (seconds / 60)) (lit "m ") (decimal (seconds % 60) ++ lit "s"),
          read_timer-decimal 0 (seconds / 60) (lit "m " ++ (decimal (seconds % 60) ++ lit "s")),
          read_timer-minutes (seconds / 60) (decimal (seconds % 60) ++ lit "s"),
          read_timer-decimal (seconds / 60) (seconds % 60) (lit "s"),
          read_timer-end (seconds / 60) (seconds % 60),
        )
        (omega arith)
  | inr short ↦
      let under : seconds / 60 ≡ 0 = ground arith in
      rw (short, read_timer-decimal 0 (seconds % 60) (lit "s"), read_timer-end 0 (seconds % 60))
        (omega arith)
]

-- From the start on, reading what the timer shows gives back the whole seconds since.
pub read_timer-elapsed_text :
    (start now : ℕ)
    → start ≤ now
    → read_timer 0 0 (elapsed_text (elapsed start now)) ≡ (now - start) / 1000
unfolding elapsed
read_timer-elapsed_text start now h =
    let since : leb start now ≡ true = ground arith in
    rw since (read_timer-elapsed_pos ((now - start) / 1000))
