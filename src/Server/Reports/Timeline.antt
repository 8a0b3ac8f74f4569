-- ===== src/Server/Reports/Timeline.antt =====
-- `ReportTimeline` of apps/cronpilot-api/handler/report.go. A day is a number of days since the
-- epoch, in UTC, in which the clocks of the services and of the database are taken to be; all calls
-- of a request read one time. (A reading that breaks off, whose error the handler does not ask for,
-- is left out.)
use irwandhi_gitops_lab.Base.{
  ℕ, zero, suc, ◌+◌, ◌-◌, ◌*◌, ◌/◌, Bool, Option, none, some, List, [], ◌∷◌, if◌then◌else◌, leb,
  ◌==◌, filter,
}
use irwandhi_gitops_lab.Text.{Text, lit, eq_text}
use irwandhi_gitops_lab.Server.Store.{ExecutionRow, find}
use irwandhi_gitops_lab.Server.Answer.{Answer, ok, error}
use irwandhi_gitops_lab.Server.Jobs.{Jobs}
use irwandhi_gitops_lab.Server.Executor.{Executions}
use irwandhi_gitops_lab.Server.Executions.{own}
use irwandhi_gitops_lab.Server.Query.{ℤ, atoi}

pub record Point : Type 0 where
  pub date : Text
  pub success : ℕ
  pub failure : ℕ
  pub total : ℕ

-- The milliseconds of a day.
abbrev pub day_length : ℕ
day_length = 86400000

-- `if days <= 0 || days > 90 { days = 30 }`.
unfoldable pub clamp_days : ℤ → ℕ
clamp_days (ℤ.pos zero) = 30
clamp_days (ℤ.pos (suc n)) = if leb (suc n) 90 then suc n else 30
clamp_days (ℤ.negsuc n) = 30

-- `e.started_at >= NOW() - ($2 || ' days')::interval`.
unfoldable pub in_window : ℕ → ℕ → ExecutionRow → Bool
in_window now days e = leb now (e.started_at + days * day_length)

-- `DATE(e.started_at)`.
unfoldable pub day_of : ExecutionRow → ℕ
day_of e = e.started_at / day_length

-- A row of the query: a day, and the counts of its executions.
pub record Group : Type 0 where
  pub day : ℕ
  pub success : ℕ
  pub failure : ℕ
  pub total : ℕ

unfoldable pub empty_group : ℕ → Group
empty_group day = record { day = day; success = 0; failure = 0; total = 0 }

unfoldable pub counted : ExecutionRow → Group → Group
counted e g = record g {
  success = (if eq_text e.status (lit "success") then 1 else 0) + g.success;
  failure = (if eq_text e.status (lit "failure") then 1 else 0) + g.failure;
  total = suc g.total;
}

unfoldable pub add : ExecutionRow → List Group → List Group
unfolding day_of empty_group counted
add e [] = counted e (empty_group (day_of e)) ∷ []
add e (g ∷ gs) = let rest = add e gs in if g.day == day_of e then counted e g ∷ gs else g ∷ rest

-- `GROUP BY day`. (Its order is lost in the map that the handler makes of it.)
unfoldable pub group_by_day : Executions → List Group
unfolding add
group_by_day [] = []
group_by_day (e ∷ es) = add e (group_by_day es)

module _ (format_day : ℕ → Text) where
  unfoldable pub point : Group → Point
  point g = record {
    date = format_day g.day;
    success = g.success;
    failure = g.failure;
    total = g.total;
  }

  -- `byDate`, with what was put last in front, after the loop over the rows.
  unfoldable pub by_date : List Group → List Point → List Point
  unfolding point
  by_date [] m = m
  by_date (g ∷ gs) m = by_date gs (point g ∷ m)

  unfoldable pub point_at : Text → List Point → Point
  point_at date m = elim (find (λ p. eq_text p.date date) m) [
    | none ↦ record { date = date; success = 0; failure = 0; total = 0 }
    | some p ↦ p
  ]

  -- The last `n` days up to `today`, the earliest first.
  unfoldable pub points : ℕ → ℕ → List Point → List Point
  unfolding point_at
  points today zero m = []
  points today (suc n) m = point_at (format_day (today - n)) m ∷ points today n m

  -- `ReportTimeline`; `days` is the query of the request, and `fault` the error of its statement.
  unfoldable pub report_timeline :
      Text → Text → ℕ → Option Text → Jobs → Executions → Answer (List Point)
  unfolding clamp_days atoi own in_window group_by_day by_date points
  report_timeline uid days now (some fault) jobs executions = error 500 fault
  report_timeline uid days now none jobs executions =
      let n = clamp_days (atoi days) in
      let rows = filter (in_window now n) (own uid jobs executions) in
      ok 200 (points (now / day_length) n (by_date (group_by_day rows) []))
