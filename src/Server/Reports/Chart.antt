-- ===== src/Server/Reports/Chart.antt =====
-- The API's timeline in the client's bar chart (components of apps/cronpilot-api and
-- apps/cronpilot-frontend).
use irwandhi_gitops_lab.Base.{
  Bool, ◌<◌, length-filter-le, ℕ, zero, suc, ◌+◌, ◌-◌, ◌/◌, ◌≤◌, ◌≡◌, refl, sym, ap, ◌∙◌, true,
  false, Option, none, some, List, [], ◌∷◌, arith, map, length, length-map, All,
}
use irwandhi_gitops_lab.Text.{Text, lit, decimal, eq_text, eq_text_iff}
use irwandhi_gitops_lab.Json.{Json, get}
use irwandhi_gitops_lab.Api.{Request}
use irwandhi_gitops_lab.Api.Report.{get_report_timeline}
use irwandhi_gitops_lab.Doubles.{Doubles}
use irwandhi_gitops_lab.Pages.Report.BarChart.{Day, Mark, max_total, marks, bar_chart}
use irwandhi_gitops_lab.Pages.Report.Bars.{
  IsCounted, ComparesCounts, exact_below, failure_fill, success_fill, count_bars, count_days,
  count_bars-marks,
}
use irwandhi_gitops_lab.Pages.Report.Labels.{count_labels, bar_chart_labels}
use irwandhi_gitops_lab.Server.Store.{ExecutionRow, count_where}
use irwandhi_gitops_lab.Server.Answer.{ok}
use irwandhi_gitops_lab.Server.Jobs.{Jobs}
use irwandhi_gitops_lab.Server.Executor.{Executions}
use irwandhi_gitops_lab.Server.Executions.{own}
use irwandhi_gitops_lab.Server.Query.{ℤ, atoi, atoi-decimal}
use irwandhi_gitops_lab.Server.Reports.Timeline.{Point, day_length, clamp_days, report_timeline}
use irwandhi_gitops_lab.Server.Reports.Groups.{on, on_with}
use irwandhi_gitops_lab.Server.Reports.Days.{day_points, report_timeline_lem}

-- A point of the answer, as the client reads it.
abbrev pub received : Point → Day
received p = record { date = p.date; total = p.total; success = p.success; failure = p.failure }

clamp_days_same : (n : ℕ) → 1 ≤ n → n ≤ 90 → clamp_days (ℤ.pos n) ≡ n
unfolding clamp_days
clamp_days_same zero lo hi = absurd (omega arith)
clamp_days_same (suc n) lo hi = ground arith

exclusive :
    (e : ExecutionRow)
    → eq_text e.status (lit "success") ≡ true
    → eq_text e.status (lit "failure") ≡ false
exclusive e h = rw ((eq_text_iff e.status (lit "success")).0 h) differ
  where
    differ : eq_text (lit "success") (lit "failure") ≡ false
    differ = unfold lit in unfold eq_text in refl

counts-IsCounted :
    (d : ℕ) (es : Executions)
    → count_where (on_with d (lit "success")) es + count_where (on_with d (lit "failure")) es
      ≤ count_where (on d) es
unfolding count_where
counts-IsCounted d [] = omega arith
counts-IsCounted d (e ∷ es) = ground (arith, counts-IsCounted d es, exclusive e)

count_where-le : {A : Type 0} (test : A → Bool) (xs : List A) → count_where test xs ≤ length xs
unfolding count_where
count_where-le test [] = omega arith
count_where-le test (x ∷ xs) = ground (arith, count_where-le test xs)

max_total-pos : (days : List Day) → 1 ≤ max_total days
unfolding max_total
max_total-pos [] = omega arith
max_total-pos (day ∷ days) = omega (arith, max_total-pos days)

length-own : (uid : Text) (jobs : Jobs) (es : Executions) → length (own uid jobs es) ≤ length es
unfolding own
length-own uid jobs es = length-filter-le _ es

-- The days in the query of a request of the client: axios writes a number in decimals.
abbrev number_text : Option Json → Text
number_text (some (Json.num n)) = decimal n
number_text _ = []

abbrev pub days_of : Request → Text
days_of request = number_text (get (lit "days") request.params)

days_of_asked : (n : ℕ) → days_of (get_report_timeline (some n)) ≡ decimal n
unfolding get_report_timeline get lit eq_text
days_of_asked n = refl

clamp_days_asked :
    (n : ℕ) → 1 ≤ n → n ≤ 90 → clamp_days (atoi (days_of (get_report_timeline (some n)))) ≡ n
clamp_days_asked n lo hi =
    rw (days_of_asked n, atoi-decimal n (omega arith)) (clamp_days_same n lo hi)

module _ (format_day : ℕ → Text) where
  day_points-IsCounted :
      (today n : ℕ) (es : Executions)
      → All IsCounted (map received (day_points format_day today n es))
  day_points-IsCounted today zero es = tt
  day_points-IsCounted today (suc n) es =
      (counts-IsCounted (today - n) es, day_points-IsCounted today n es)

  length-day_points :
      (today n : ℕ) (es : Executions) → length (map received (day_points format_day today n es)) ≡ n
  length-day_points today zero es = refl
  length-day_points today (suc n) es = ap suc (length-day_points today n es)

  max_total-day_points :
      (today n : ℕ) (es : Executions)
      → max_total (map received (day_points format_day today n es)) ≤ suc (length es)
  unfolding max_total
  max_total-day_points today zero es = omega arith
  max_total-day_points today (suc n) es =
      ground (arith, max_total-day_points today n es, count_where-le (on (today - n)) es)

  -- The chart of a list of days: a bar for each day with failures and each with successes, and at
  -- most ten labels.
  abbrev pub IsDrawnOf : (d : Doubles) → List Day → Type 0
  IsDrawnOf d days =
      (drawn : List (Mark d)) × (bar_chart d days ≡ some drawn)
      × (count_bars failure_fill drawn ≡ count_days (λ day. day.failure) days)
      × (count_bars success_fill drawn ≡ count_days (λ day. day.success) days)
      × (count_labels drawn ≤ 10)

  drawn-IsDrawnOf :
      (d : Doubles) (days : List Day)
      → ComparesCounts d
      → 1 ≤ length days
      → max_total days < exact_below
      → All IsCounted days
      → IsDrawnOf d days
  unfolding bar_chart
  drawn-IsDrawnOf d [] compares lo hi h = absurd (omega arith)
  drawn-IsDrawnOf d (day ∷ days) compares lo hi h =
      let m = max_total (day ∷ days) in
      let (red, green) =
        count_bars-marks d compares (length (day ∷ days)) m (max_total-pos (day ∷ days)) hi 0
          (day ∷ days) (omega arith) h in
      (
        marks d (length (day ∷ days)) m 0 (day ∷ days),
        refl,
        red,
        green,
        bar_chart_labels d day days,
      )

  -- Where the dates of different days differ, the statement runs, and there are fewer than 2^53 - 1
  -- executions: to the client's request for up to 90 days the API answers, for each of so many days,
  -- the counts of the user's own executions on it, and the client's chart of them has a bar of
  -- failures for each day that has one, a bar of successes for each day that has one, and no more than
  -- ten labels; counts are compared with zero as doubles do.
  pub timeline-IsDrawnOf :
      (d : Doubles) (apart : (a b : ℕ) → format_day a ≡ format_day b → a ≡ b) (n : ℕ) (uid : Text)
      (now : ℕ) (jobs : Jobs) (es : Executions)
      → ComparesCounts d
      → 1 ≤ n
      → n ≤ 90
      → suc (length es) < exact_below
      → let days = days_of (get_report_timeline (some n)) in
        let ps = day_points format_day (now / day_length) n (own uid jobs es) in
        (report_timeline format_day uid days now none jobs es ≡ ok 200 ps)
        × (length ps ≡ n)
        × IsDrawnOf d (map received ps)
  timeline-IsDrawnOf d apart n uid now jobs es compares lo hi few =
      let mine = own uid jobs es in
      let today = now / day_length in
      let size = length-day_points today n mine in
      (
        report_timeline_lem format_day apart uid (days_of (get_report_timeline (some n))) now jobs
              es
            ∙ ap (λ k. ok 200 (day_points format_day today k mine)) (clamp_days_asked n lo hi),
        sym (length-map received (day_points format_day today n mine)) ∙ size,
        drawn-IsDrawnOf d (map received (day_points format_day today n mine)) compares
            (omega (arith, size))
            (omega (arith, few, max_total-day_points today n mine, length-own uid jobs es))
            (day_points-IsCounted today n mine),
      )
