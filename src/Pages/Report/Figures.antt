-- ===== src/Pages/Report/Figures.antt =====
-- The numbers that apps/cronpilot-frontend/src/pages/Report.jsx shows: durations, rates with their
-- colours, and the donut chart.
use irwandhi_gitops_lab.Base.{[], ◌∷◌, ◌++◌, if◌then◌else◌}
use irwandhi_gitops_lab.Text.{Text, lit}
use irwandhi_gitops_lab.Doubles.{Doubles}
use irwandhi_gitops_lab.Dom.{Tag, Attr, Node, el}

module _ (d : Doubles) where
  open d use {Double, of_ℕ, pi, ge, mul, div, sub, round, to_fixed, print}

  -- `ms >= 1000 ? … : …`, of the page's average and of each job's.
  unfoldable pub duration_text : Double → Text
  duration_text ms =
      if ge ms (of_ℕ 1000)
      then to_fixed 1 (div ms (of_ℕ 1000)) ++ lit "s"
      else print (round ms) ++ lit "ms"

  -- `rate >= 90 ? … : rate >= 70 ? … : …`, of the donut's stroke, and of a row's bar and text.
  unfoldable pub by_rate {ℓ} : {A : Type ℓ} → A → A → A → Double → A
  by_rate high middle low rate =
      if ge rate (of_ℕ 90) then high else if ge rate (of_ℕ 70) then middle else low

  unfoldable pub donut_color : Double → Text
  unfolding by_rate
  donut_color rate = by_rate (lit "#34d399") (lit "#fbbf24") (lit "#f87171") rate

  unfoldable pub bar_tone : Double → Text
  unfolding by_rate
  bar_tone rate = by_rate (lit "bg-green-400") (lit "bg-amber-400") (lit "bg-red-400") rate

  unfoldable pub rate_tone : Double → Text
  unfolding by_rate
  rate_tone rate = by_rate (lit "text-green-700") (lit "text-amber-700") (lit "text-red-700") rate

  -- `2 * Math.PI * R`, with `R = 52`.
  unfoldable pub circumference : Double
  circumference = mul (mul (of_ℕ 2) pi) (of_ℕ 52)

  unfoldable pub arc : Double → Double
  unfolding circumference
  arc rate = mul (div rate (of_ℕ 100)) circumference

  unfoldable pub donut_chart : {M : Type 0} → Double → Node M
  unfolding donut_color arc circumference
  donut_chart rate = el Tag.svg [] (
      el Tag.circle [] []
      ∷ el Tag.circle
          (Attr.tone (donut_color rate)
            ∷ Attr.style (print (arc rate) ++ (lit " " ++ print (sub circumference (arc rate))))
            ∷ [])
          []
      ∷ Node.text (to_fixed 0 rate ++ lit "%")
      ∷ Node.text (lit "success")
      ∷ [])
