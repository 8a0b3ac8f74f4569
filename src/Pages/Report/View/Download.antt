-- ===== src/Pages/Report/View/Download.antt =====
-- When the report page downloads.
use mathlib.Core.List.{Memᴰ}
use irwandhi_gitops_lab.Base.{
  ℕ, ◌+◌, ◌-◌, ◌≤◌, false, Option, none, some, List, [], ◌∷◌, ◌≡◌, refl, arith, if◌then◌else◌,
  length, Memᴰ-cons, Bool-cases, inl, inr,
}
use irwandhi_gitops_lab.Text.{Text}
use irwandhi_gitops_lab.Doubles.{Doubles}
use irwandhi_gitops_lab.Records.{Dates}
use irwandhi_gitops_lab.Dom.{each}
use irwandhi_gitops_lab.Dom.Actions.{clicks, clicks_all, clicks_all-each-quiet}
use irwandhi_gitops_lab.Pages.Report.{State, Msg, initial, update}
use irwandhi_gitops_lab.Pages.Report.BarChart.{Day, Mark, bar_chart}
use irwandhi_gitops_lab.Pages.Report.Figures.{donut_chart}
use irwandhi_gitops_lab.Pages.Report.Table.{JobStats, stats_row, stats_table}
use irwandhi_gitops_lab.Pages.Report.View.{Summary, report_page, job_option, mark, timeline_chart}

clicks-timeline_chart :
    {d : Doubles} (ms : Option (List (Mark d))) → clicks (timeline_chart {M = Msg} ms) ≡ []
unfolding clicks timeline_chart mark
clicks-timeline_chart none = refl
clicks-timeline_chart {d = e} (some ms) = clicks_all-each-quiet (mark {M = Msg}) ms quiet
  where
    quiet : (m : Mark e) → clicks (mark {M = Msg} m) ≡ []
    quiet (Mark.rect x y w h fill) = refl
    quiet (Mark.label x y s) = refl

module _ (d : Doubles) (dates : Dates) where
  clicks-job_options :
      (stats : List (JobStats d)) → clicks_all (each (job_option d dates) stats) ≡ []
  clicks-job_options stats =
      clicks_all-each-quiet (job_option d dates) stats (λ j. unfold clicks job_option in refl)

  clicks-stats_row : (j : JobStats d) → clicks (stats_row {M = Msg} d dates j) ≡ []
  unfolding clicks stats_row
  clicks-stats_row j = ground arith

  clicks-stats_table :
      (stats : List (JobStats d)) → clicks (stats_table {M = Msg} d dates stats) ≡ []
  unfolding clicks stats_table
  clicks-stats_table [] = refl
  clicks-stats_table (j ∷ stats) =
      rw (clicks_all-each-quiet (stats_row {M = Msg} d dates) (j ∷ stats) clicks-stats_row) refl

  pub clicks-report_page :
      (s : State) (summary : Option (Summary d)) (timeline : List Day) (stats : List (JobStats d))
      → clicks (report_page d dates s summary timeline stats)
        ≡ (if s.downloading then [] else Msg.export ∷ [])
  unfolding clicks report_page each donut_chart
  clicks-report_page s summary timeline stats =
      rw
        (
          clicks-job_options stats,
          clicks-timeline_chart (bar_chart d timeline),
          clicks-stats_table stats,
        )
        (ground arith)

  -- The page with the downloads that are on their way.
  pub record World : Type 0 where
    pub state : State
    pub in_flight : ℕ

  abbrev react : (Text → Text) → World → Msg → State
  react encode w m = (update encode w.state m).0

  -- The user chooses, and clicks what the page offers, whatever answers it has so far; a download
  -- that is on its way ends.
  pub data Step (encode : Text → Text) : World → World → Type 0 where
    days_chosen :
        (w : World) (n : ℕ)
        → Step encode w (record w { state = react encode w (Msg.days_chosen n) })
    job_chosen :
        (w : World) (id : Text)
        → Step encode w (record w { state = react encode w (Msg.job_chosen id) })
    clicked :
        (w : World) (m : Msg) (summary : Option (Summary d)) (timeline : List Day)
        (stats : List (JobStats d))
        → Memᴰ m (clicks (report_page d dates w.state summary timeline stats))
        → Step encode w (record {
          state = react encode w m;
          in_flight = w.in_flight + length (update encode w.state m).1;
        })
    finished :
        (w : World)
        → 1 ≤ w.in_flight
        → Step encode w
            (record { state = react encode w Msg.finished; in_flight = w.in_flight - 1 })

  pub data Reach (encode : Text → Text) : World → Type 0 where
    start : Reach encode (record { state = initial; in_flight = 0 })
    next : {w v : World} → Reach encode w → Step encode w v → Reach encode v

  abbrev pub IsSingle : World → Type 0
  IsSingle w = w.in_flight ≡ (if w.state.downloading then 1 else 0)

  -- What is offered is the export, and only where no download is on its way.
  offered :
      (s : State) (m : Msg)
      → Memᴰ m (if s.downloading then [] else Msg.export ∷ [])
      → (s.downloading ≡ false) × (m ≡ Msg.export)
  offered s m h = elim (Bool-cases s.downloading) [
    | inl busy ↦ elim (rw busy at h) [ ]
    | inr free ↦ elim (Memᴰ-cons (rw free at h)) [ inl e ↦ (free, e) | inr none_ ↦ elim none_ [ ] ]
  ]

  Step-IsSingle : (encode : Text → Text) {w v : World} → Step encode w v → IsSingle w → IsSingle v
  unfolding update
  Step-IsSingle encode (days_chosen w n) i = i
  Step-IsSingle encode (job_chosen w id) i = i
  Step-IsSingle encode (clicked w m summary timeline stats h) i =
      let (free, e) =
        offered w.state m (rw (clicks-report_page w.state summary timeline stats) at h) in
      rw e (ground arith)
  Step-IsSingle encode (finished w h) i = ground arith

  -- However the user acts on the report page and whenever downloads end, at most one download is on
  -- its way, and the page says that it is exporting exactly then.
  pub Reach-IsSingle : (encode : Text → Text) {w : World} → Reach encode w → IsSingle w
  unfolding initial
  Reach-IsSingle encode start = refl
  Reach-IsSingle encode (next r step) = Step-IsSingle encode step (Reach-IsSingle encode r)
