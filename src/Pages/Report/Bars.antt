-- ===== src/Pages/Report/Bars.antt =====
-- How many bars the bar chart draws.
use irwandhi_gitops_lab.Base.{
  All, ℕ, suc, ◌+◌, ◌≤◌, ◌<◌, ◌≡◌, List, [], ◌∷◌, ◌++◌, length, arith, refl, filter, ltb,
  if◌then◌else◌,
}
use irwandhi_gitops_lab.Text.{Text, lit, eq_text}
use irwandhi_gitops_lab.Doubles.{Doubles}
use irwandhi_gitops_lab.Pages.Report.BarChart.{
  Day, Mark, max_total, height_of, failure_bar, success_bar, day_label, marks,
}

-- A day whose successes and failures are among its executions.
abbrev pub IsCounted : Day → Type 0
IsCounted day = day.success + day.failure ≤ day.total

abbrev pub failure_fill : Text
failure_fill = lit "#f87171"

abbrev pub success_fill : Text
success_fill = lit "#34d399"

-- 2^53.
abbrev pub exact_below : ℕ
exact_below = 9007199254740992

-- Counts below 2^53 are exact in doubles, a quotient of two of them is not rounded to zero, and
-- neither is its product with the height of the chart.
abbrev pub ComparesCounts : Doubles → Type 0
ComparesCounts d =
    (m count : ℕ)
    → 1 ≤ m
    → m < exact_below
    → count ≤ m
    → d.gt (height_of d m count) (d.of_ℕ 0) ≡ ltb 0 count

unfoldable pub count_bars : {d : Doubles} → Text → List (Mark d) → ℕ
count_bars color [] = 0
count_bars color (Mark.rect x y w h fill ∷ ms) =
    let rest = count_bars color ms in (if eq_text fill color then 1 else 0) + rest
count_bars color (Mark.label x y text ∷ ms) = count_bars color ms

count_bars-append :
    {d : Doubles} (color : Text) (ms ns : List (Mark d))
    → count_bars color (ms ++ ns) ≡ count_bars color ms + count_bars color ns
unfolding count_bars
count_bars-append color [] ns = omega arith
count_bars-append color (Mark.rect x y w h fill ∷ ms) ns =
    omega (arith, count_bars-append color ms ns)
count_bars-append color (Mark.label x y text ∷ ms) ns = count_bars-append color ms ns

-- The days on which a count is not zero.
abbrev pub count_days : (Day → ℕ) → List Day → ℕ
count_days count days = length (filter (λ day. ltb 0 (count day)) days)

module _ (d : Doubles) (compares : ComparesCounts d) (n m : ℕ) (lo : 1 ≤ m)
    (hi : m < exact_below) where
  count_bars-failure_bar :
      (i : ℕ) (day : Day)
      → day.total ≤ m
      → IsCounted day
      → (count_bars failure_fill (failure_bar d n m i day) ≡ (if ltb 0 day.failure then 1 else 0))
        × (count_bars success_fill (failure_bar d n m i day) ≡ 0)
  unfolding failure_bar count_bars lit eq_text
  count_bars-failure_bar i day below counted =
      rw (compares m day.failure lo hi (omega arith)) (ground arith)

  count_bars-success_bar :
      (i : ℕ) (day : Day)
      → day.total ≤ m
      → IsCounted day
      → (count_bars failure_fill (success_bar d n m i day) ≡ 0)
        × (count_bars success_fill (success_bar d n m i day) ≡ (if ltb 0 day.success then 1 else 0))
  unfolding success_bar count_bars lit eq_text
  count_bars-success_bar i day below counted =
      rw (compares m day.success lo hi (omega arith)) (ground arith)

  count_bars-day_label :
      (color : Text) (i : ℕ) (day : Day) → count_bars color (day_label d n i day) ≡ 0
  unfolding day_label count_bars
  count_bars-day_label color i day = ground arith

  count_bars-split :
      (color : Text) (i : ℕ) (day : Day) (days : List Day)
      → count_bars color (marks d n m i (day ∷ days))
        ≡ count_bars color (failure_bar d n m i day)
          + (count_bars color (success_bar d n m i day)
              + count_bars color (marks d n m (suc i) days))
  unfolding marks
  count_bars-split color i day days =
      rw
        (
          count_bars-append color (failure_bar d n m i day) _,
          count_bars-append color (success_bar d n m i day) _,
          count_bars-append color (day_label d n i day) _,
          count_bars-day_label color i day,
        )
        (omega arith)

  -- There are as many bars of a colour as days with a count of that kind.
  pub count_bars-marks :
      (i : ℕ) (days : List Day)
      → max_total days ≤ m
      → All IsCounted days
      → (count_bars failure_fill (marks d n m i days) ≡ count_days (λ day. day.failure) days)
        × (count_bars success_fill (marks d n m i days) ≡ count_days (λ day. day.success) days)
  unfolding max_total count_bars marks filter
  count_bars-marks i [] bound counted = (refl, refl)
  count_bars-marks i (day ∷ days) bound (c, cs) =
      let below : day.total ≤ m = omega arith in
      let red = count_bars-failure_bar i day below c in
      let green = count_bars-success_bar i day below c in
      let rest = count_bars-marks (suc i) days (omega arith) cs in
      (
        ground (arith, count_bars-split failure_fill i day days, red, green, rest),
        ground (arith, count_bars-split success_fill i day days, red, green, rest),
      )
