-- ===== src/Tests/Queries.antt =====
-- Lists of executions, the timeline and the summaries at concrete inputs.
use irwandhi_gitops_lab.Base.{
  ◌-◌, ◌<◌, ltb, leb, suc, ◌*◌, ℕ, ◌+◌, ◌≡◌, ◌*◌, ◌/◌, refl, sym, ap, ◌∙◌, none, some, List, [],
  arith, filter, length, map,
}
use irwandhi_gitops_lab.Text.{
  Text, lit, eq_text, decimal, read_decimal, read_from, read_decimal-decimal,
}
use irwandhi_gitops_lab.Api.Report.{get_report_timeline}
use irwandhi_gitops_lab.Server.Store.{find, order_by}
use irwandhi_gitops_lab.Server.Answer.{ok}
use irwandhi_gitops_lab.Server.Jobs.{is_job_of, inserted}
use irwandhi_gitops_lab.Server.Executor.{Executions, begin}
use irwandhi_gitops_lab.Server.Query.{atoi}
use irwandhi_gitops_lab.Server.Executions.{
  Execution, Reading, select, of_job, page, respond, joined, own, list_executions,
  list_running_executions, get_execution, limit_of,
}
use irwandhi_gitops_lab.Server.Executions.Visibility.{is_of_user, of_user, answers-own}
use irwandhi_gitops_lab.Server.Executions.Listing.{IsListing, list_executions-IsListing}
use irwandhi_gitops_lab.Server.Reports.{Floats, Summary, report_summary}
use irwandhi_gitops_lab.Server.Reports.Timeline.{day_length, clamp_days, report_timeline}
use irwandhi_gitops_lab.Server.Reports.Days.{day_points, report_timeline_lem}
use irwandhi_gitops_lab.Doubles.{Doubles}
use irwandhi_gitops_lab.Pages.Report.BarChart.{height_of}
use irwandhi_gitops_lab.Pages.Report.Bars.{ComparesCounts, exact_below}
use irwandhi_gitops_lab.Server.Executions.{own}
use irwandhi_gitops_lab.Server.Reports.Chart.{received, days_of, IsDrawnOf, timeline-IsDrawnOf}
use irwandhi_gitops_lab.Server.Reports.Statuses as Statuses
use irwandhi_gitops_lab.Server.Reports.Statuses.{report_summary-adds}
use irwandhi_gitops_lab.Tests.Services.{table}
use irwandhi_gitops_lab.Tests.Executions.{runs}
use irwandhi_gitops_lab.Tests.Runs.{spawned}

-- The execution of ann's job, and one more of bob's.
abbrev pub more : Executions
more = begin (lit "e2") 3000 spawned runs

same_for_ann : of_user (lit "ann") table more ≡ of_user (lit "ann") table runs
unfolding of_user is_of_user is_job_of find filter begin inserted lit eq_text
same_for_ann = refl

answers-own_example :
    ((job_id limit offset : Text) (reading : Reading)
      → list_executions (lit "ann") job_id limit offset reading table more
        ≡ list_executions (lit "ann") job_id limit offset reading table runs)
    × ((reading : Reading)
        → list_running_executions (lit "ann") reading table more
          ≡ list_running_executions (lit "ann") reading table runs)
    × ((id : Text)
        → get_execution (lit "ann") id table more ≡ get_execution (lit "ann") id table runs)
answers-own_example = answers-own (lit "ann") table more runs same_for_ann

abbrev bobs : List Execution
bobs = select (lit "bob") (of_job (lit "j2")) table more

bobs_are_listed :
    list_executions (lit "bob") (lit "j2") (lit "20") [] Reading.whole table more ≡ ok 200 bobs
unfolding list_executions atoi limit_of page respond order_by select joined find begin inserted lit
    eq_text of_job read_decimal read_from
bobs_are_listed = refl

list_executions-IsListing_example :
    IsListing (lit "bob") (lit "j2") (limit_of (atoi (lit "20"))) table more bobs
list_executions-IsListing_example =
    list_executions-IsListing (lit "bob") (lit "j2") (lit "20") [] Reading.whole table more
      bobs_are_listed

decimal-apart : (d d' : ℕ) → decimal d ≡ decimal d' → d ≡ d'
decimal-apart d d' e = sym (read_decimal-decimal d) ∙ (ap read_decimal e ∙ read_decimal-decimal d')

report_timeline_lem_example :
    report_timeline decimal (lit "ann") (lit "7") (100 * day_length) none table more
    ≡ ok 200 (
        day_points decimal
          (100 * day_length / day_length)
          (clamp_days (atoi (lit "7")))
          (own (lit "ann") table more))
report_timeline_lem_example =
    report_timeline_lem decimal decimal-apart (lit "ann") (lit "7") (100 * day_length) table more

abbrev fractions : Doubles
fractions = record {
  Double = ℕ × ℕ;
  of_ℕ = λ n. (n, 1);
  gt = λ a b. ltb (b.0 * a.1) (a.0 * b.1);
  add = λ a b. (a.0 * b.1 + b.0 * a.1, a.1 * b.1);
  pi = (3, 1);
  ge = λ a b. leb (b.0 * a.1) (a.0 * b.1);
  mul = λ a b. (a.0 * b.0, a.1 * b.1);
  div = λ a b. (a.0 * b.1, a.1 * b.0);
  sub = λ a b. (a.0 * b.1 - b.0 * a.1, a.1 * b.1);
  round = λ a. a;
  to_fixed = λ digits a. decimal a.0;
  print = λ a. decimal a.0;
}

fractions-ComparesCounts : ComparesCounts fractions
unfolding height_of
fractions-ComparesCounts m count lo hi below = ground arith

more_few : suc (length more) < exact_below
unfolding begin
more_few = omega arith

timeline-IsDrawnOf_example :
    (report_timeline decimal
        (lit "ann")
        (days_of (get_report_timeline (some 7)))
        (100 * day_length)
        none
        table
        more
      ≡ ok 200 (day_points decimal (100 * day_length / day_length) 7 (own (lit "ann") table more)))
    × (length (day_points decimal (100 * day_length / day_length) 7 (own (lit "ann") table more))
        ≡ 7)
    × IsDrawnOf decimal fractions (
        map received
          (day_points decimal (100 * day_length / day_length) 7 (own (lit "ann") table more)))
timeline-IsDrawnOf_example =
    timeline-IsDrawnOf decimal fractions decimal-apart 7 (lit "ann") (100 * day_length) table more
      fractions-ComparesCounts (omega arith) (omega arith) more_few

abbrev percents : Floats
percents = record { Float = ℕ; zero = 0; rate = λ s c. s * 100 / c; average = λ ds. 0 }

abbrev reached : Statuses.Reach (begin (lit "e2") 3000 spawned [])
reached = Statuses.Reach.began (lit "e2") 3000 spawned Statuses.Reach.fresh

report_summary-adds_example :
    (s : Summary percents) × (report_summary percents
        (lit "bob")
        table
        (begin (lit "e2") 3000 spawned [])
      ≡ ok 200 s)
    × (s.total_executions ≡ s.success_count + s.failure_count + s.running_count)
report_summary-adds_example = report_summary-adds percents (lit "bob") table reached
