-- ===== src/Pages/Report/BarChart.antt =====
-- `BarChart` of apps/cronpilot-frontend/src/pages/Report.jsx. Its coordinates are doubles, computed by
-- the source's operations in the source's order; counts, indices and constants are whole numbers.
use Prim.Native.Nat.{max}
use irwandhi_gitops_lab.Base.{
  ℕ, suc, ◌+◌, ◌-◌, ◌/◌, ◌%◌, Option, none, some, List, [], ◌∷◌, ◌++◌, if◌then◌else◌, ◌==◌, length,
  drop,
}
use irwandhi_gitops_lab.Text.{Text, lit}
use irwandhi_gitops_lab.Doubles.{Doubles}

pub record Day : Type 0 where
  pub date : Text
  pub total : ℕ
  pub success : ℕ
  pub failure : ℕ

abbrev pub width : ℕ
width = 700

abbrev pub height : ℕ
height = 140

abbrev pub pad_bottom : ℕ
pad_bottom = 28

abbrev pub pad_top : ℕ
pad_top = 8

abbrev pub bar_gap : ℕ
bar_gap = 2

abbrev pub chart_height : ℕ
chart_height = height - pad_bottom - pad_top

-- `Math.max(...data.map(d => d.total), 1)`.
unfoldable pub max_total : List Day → ℕ
max_total [] = 1
max_total (d ∷ data_) = max d.total (max_total data_)

-- `Math.ceil(data.length / 10)`.
unfoldable pub label_step : ℕ → ℕ
label_step n = (n + 9) / 10

pub data Mark (d : Doubles) : Type 0 where
  rect : (x y w h : d.Double) (fill : Text) → Mark d
  label : (x y : d.Double) (text : Text) → Mark d

module _ (d : Doubles) where
  open d use {Double, of_ℕ, gt, add, sub, mul, div}

  -- The width of the bars of `n` days.
  unfoldable pub bar_width : ℕ → Double
  bar_width n = div (sub (of_ℕ width) (mul (of_ℕ bar_gap) (of_ℕ (n - 1)))) (of_ℕ n)

  unfoldable pub bar_x : ℕ → ℕ → Double
  unfolding bar_width
  bar_x n i = mul (of_ℕ i) (add (bar_width n) (of_ℕ bar_gap))

  -- The height of a count, where the largest total is `m`.
  unfoldable pub height_of : ℕ → ℕ → Double
  height_of m count = mul (div (of_ℕ count) (of_ℕ m)) (of_ℕ chart_height)

  -- `PAD_T + chartH - …`.
  unfoldable pub top_of : ℕ → ℕ → Double
  unfolding height_of
  top_of m count = sub (of_ℕ (pad_top + chart_height)) (height_of m count)

  unfoldable pub failure_bar : ℕ → ℕ → ℕ → Day → List (Mark d)
  unfolding bar_x bar_width height_of top_of
  failure_bar n m i day =
      if gt (height_of m day.failure) (of_ℕ 0)
      then Mark.rect (bar_x n i) (top_of m day.failure) (bar_width n) (height_of m day.failure)
          (lit "#f87171")
        ∷ []
      else []

  unfoldable pub success_bar : ℕ → ℕ → ℕ → Day → List (Mark d)
  unfolding bar_x bar_width height_of top_of
  success_bar n m i day =
      if gt (height_of m day.success) (of_ℕ 0)
      then Mark.rect (bar_x n i) (top_of m day.total) (bar_width n) (height_of m day.success)
          (lit "#34d399")
        ∷ []
      else []

  unfoldable pub day_label : ℕ → ℕ → Day → List (Mark d)
  unfolding bar_x bar_width label_step
  day_label n i day =
      if (i % label_step n) == 0
      then Mark.label (add (bar_x n i) (div (bar_width n) (of_ℕ 2))) (of_ℕ (height - 6))
          (drop 5 day.date)
        ∷ []
      else []

  -- The marks of the days from the `i`-th on.
  unfoldable pub marks : ℕ → ℕ → ℕ → List Day → List (Mark d)
  unfolding failure_bar success_bar day_label
  marks n m i [] = []
  marks n m i (day ∷ data_) =
      failure_bar n m i day
      ++ (success_bar n m i day ++ (day_label n i day ++ marks n m (suc i) data_))

  unfoldable pub bar_chart : List Day → Option (List (Mark d))
  unfolding marks max_total
  bar_chart [] = none
  bar_chart (day ∷ data_) = let all = day ∷ data_ in some (marks (length all) (max_total all) 0 all)
