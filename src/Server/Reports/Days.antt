-- ===== src/Server/Reports/Days.antt =====
-- The points of the timeline count the executions of their days.
use mathlib.Core.Path.{subst}
use irwandhi_gitops_lab.Base.{
  ℕ, zero, suc, ◌-◌, ◌/◌, ◌≤◌, ◌<◌, ◌≡◌, ◌≢◌, refl, ap, ◌∙◌, Bool, true, Option, none, some, List,
  [], ◌∷◌, arith, ◌==◌, filter, inl, inr, Bool-cases,
}
use irwandhi_gitops_lab.Text.{Text, lit, eq_text, eq_text_refl, eq_text_iff}
use irwandhi_gitops_lab.Server.Store.{ExecutionRow, find, count_where}
use irwandhi_gitops_lab.Server.Answer.{ok}
use irwandhi_gitops_lab.Server.Jobs.{Jobs}
use irwandhi_gitops_lab.Server.Executor.{Executions}
use irwandhi_gitops_lab.Server.Executions.{own}
use irwandhi_gitops_lab.Server.Query.{atoi}
use irwandhi_gitops_lab.Server.Reports.Timeline.{
  Point, day_length, clamp_days, in_window, day_of, Group, empty_group, group_by_day, point,
  by_date, point_at, points, report_timeline,
}
use irwandhi_gitops_lab.Server.Reports.Groups.{
  of_day, or_empty, find_first, find_rest, IsDistinct, group_by_day-IsDistinct, counts,
  group_by_day-counts, count_where-filter, on, on_with,
}

module _ (format_day : ℕ → Text) where
  -- The point of a day, by a count of all executions.
  abbrev pub day_point : Executions → ℕ → Point
  day_point es d = record {
    date = format_day d;
    success = count_where (on_with d (lit "success")) es;
    failure = count_where (on_with d (lit "failure")) es;
    total = count_where (on d) es;
  }

  abbrev pub day_points : ℕ → ℕ → Executions → List Point
  day_points today zero es = []
  day_points today (suc n) es = day_point es (today - n) ∷ day_points today n es

module _ (format_day : ℕ → Text) (apart : (d d' : ℕ) → format_day d ≡ format_day d' → d ≡ d') where
  abbrev dated : Text → Point → Bool
  dated date p = eq_text p.date date

  abbrev point_or : Option Point → Option Group → Option Point
  point_or p none = p
  point_or p (some g) = some (point format_day g)

  found_here :
      (d : ℕ) (g : Group) (m : List Point)
      → g.day ≡ d
      → find (dated (format_day d)) (point format_day g ∷ m) ≡ some (point format_day g)
  unfolding find point
  found_here d g m e = rw (e, eq_text_refl (format_day d)) refl

  passed_over :
      (d : ℕ) (g : Group) (m : List Point)
      → g.day ≢ d
      → find (dated (format_day d)) (point format_day g ∷ m) ≡ find (dated (format_day d)) m
  unfolding find point
  passed_over d g m ne =
      ground (arith, eq_text_iff (format_day g.day) (format_day d), apart g.day d)

  -- The map has the group of each day that has one.
  find-by_date :
      (d : ℕ) (gs : List Group) (m : List Point)
      → IsDistinct gs
      → find (dated (format_day d)) (by_date format_day gs m)
        ≡ point_or (find (dated (format_day d)) m) (find (of_day d) gs)
  unfolding by_date
  find-by_date d [] m h = unfold find in refl
  find-by_date d (g ∷ gs) m (h, hs) = elim (Bool-cases (g.day == d)) [
    | inl same ↦
        let e : g.day ≡ d = ground arith in
        let alone : find (of_day d) gs ≡ none = subst (λ k. find (of_day k) gs ≡ none) e h in
        find-by_date d gs (point format_day g ∷ m) hs
        ∙ (rw (alone, found_here d g m e, find_first d g gs same) refl)
    | inr other ↦
        let ne : g.day ≢ d = λ e. ground arith in
        find-by_date d gs (point format_day g ∷ m) hs
        ∙ (rw (passed_over d g m ne, find_rest d g gs other) refl)
  ]

  point_at-by_date :
      (d : ℕ) (o : Option Group) (m : List Point)
      → find (dated (format_day d)) m ≡ point_or none o
      → point_at format_day (format_day d) m ≡ point format_day (or_empty d o)
  unfolding point_at
  point_at-by_date d none m h = rw (h, point_at) (unfold point in unfold empty_group in refl)
  point_at-by_date d (some g) m h = rw (h, point_at) refl

  point-counts :
      (es : Executions) (d : ℕ) → point format_day (counts d es) ≡ day_point format_day es d
  unfolding point
  point-counts es d = refl

  abbrev point_map : Executions → List Point
  point_map es = by_date format_day (group_by_day es) []

  point_at-counts :
      (es : Executions) (d : ℕ)
      → point_at format_day (format_day d) (point_map es) ≡ day_point format_day es d
  point_at-counts es d =
      point_at-by_date d (find (of_day d) (group_by_day es)) (point_map es) (
        find-by_date d (group_by_day es) [] (group_by_day-IsDistinct es)
        ∙ ap (λ o. point_or o (find (of_day d) (group_by_day es))) (unfold find in refl))
      ∙ (ap (point format_day) (group_by_day-counts d es) ∙ point-counts es d)

  -- A day that is shown lies in the window as a whole.
  window-holds :
      (now n k : ℕ) (e : ExecutionRow)
      → k < n
      → on (now / day_length - k) e ≡ true
      → in_window now n e ≡ true
  unfolding in_window day_of
  window-holds now n k e h same = ground arith

  day_point-window :
      (now n k : ℕ) (es : Executions)
      → k < n
      → day_point format_day (filter (in_window now n) es) (now / day_length - k)
        ≡ day_point format_day es (now / day_length - k)
  day_point-window now n k es h =
      let d = now / day_length - k in
      let shown : (e : ExecutionRow) → on d e ≡ true → in_window now n e ≡ true =
        λ e same. window-holds now n k e h same in
      rw
        (
          count_where-filter (on d) (in_window now n) es shown,
          count_where-filter (on_with d (lit "success")) (in_window now n) es
              (λ e both. shown e (ground arith)),
          count_where-filter (on_with d (lit "failure")) (in_window now n) es
              (λ e both. shown e (ground arith)),
        )
        refl

  points-counts :
      (now n k : ℕ) (es : Executions)
      → k ≤ n
      → points format_day (now / day_length) k (point_map (filter (in_window now n) es))
        ≡ day_points format_day (now / day_length) k es
  unfolding points
  points-counts now n zero es h = refl
  points-counts now n (suc k) es h =
      rw
        (
          point_at-counts (filter (in_window now n) es) (now / day_length - k),
          day_point-window now n k es (omega arith),
          points-counts now n k es (omega arith),
        )
        refl

  -- Where the dates of different days differ and the statement runs, the timeline has a point for
  -- each of the last days up to today, as many as asked for (30 where that is not from 1 to 90), the
  -- earliest first. The point of a day counts all executions of the user's jobs that began on that
  -- day, the successes and the failures among them: the condition on the time, which begins within
  -- a day, cuts off none of them.
  pub report_timeline_lem :
      (uid days : Text) (now : ℕ) (jobs : Jobs) (es : Executions)
      → report_timeline format_day uid days now none jobs es
        ≡ ok 200
            (day_points format_day (now / day_length) (clamp_days (atoi days)) (own uid jobs es))
  unfolding report_timeline
  report_timeline_lem uid days now jobs es =
      let n = clamp_days (atoi days) in
      ap (λ ps. ok 200 ps) (points-counts now n n (own uid jobs es) (omega arith))
