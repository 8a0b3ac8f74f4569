-- ===== src/Server/Scheduler/Freshness.antt =====
-- Whether the callbacks on the timetable run the jobs as they are.
use mathlib.Core.List.{Memᴰ}
use mathlib.Core.Path.{subst}
use irwandhi_gitops_lab.Base.{
  ℕ, ◌≡◌, ◌≢◌, ◌⊎◌, refl, sym, ap, ◌∙◌, false, none, some, List, [], ◌∷◌, ◌++◌, Bool-cases,
  Option-cases, inl, inr, map, ltb, Memᴰ-cons,
}
use irwandhi_gitops_lab.Text.{lit, eq_text, eq_text_refl}
use irwandhi_gitops_lab.Server.Store.{JobRow, find}
use irwandhi_gitops_lab.Server.Scheduler.{
  Cron, Entry, Scheduler, lookup, unschedule, schedule, sweep, reconcile_one, reconcile,
  active_rows, sync,
}
use irwandhi_gitops_lab.Server.Scheduler.Entries.{lookup-put, clash}
use irwandhi_gitops_lab.Server.Scheduler.Timetable.{is_row, reconcile_one-other, reconcile-other}
use irwandhi_gitops_lab.Server.Scheduler.Tidy.{IsTidy}
use irwandhi_gitops_lab.Server.Scheduler.Turns.{sweep-IsTidy, reconcile_one-IsTidy}
use irwandhi_gitops_lab.Server.Scheduler.Callbacks.{reconcile-runner, sweep-kept}

-- No two rows are of the same job.
abbrev pub HasDistinctJobs : List (ℕ × JobRow) → Type 0
HasDistinctJobs [] = Unit
HasDistinctJobs ((now, job) ∷ rows) =
    (find (is_row job.id) (map (λ p. p.1) rows) ≡ none) × HasDistinctJobs rows

mem-find :
    (now : ℕ) (job : JobRow) (rows : List (ℕ × JobRow))
    → Memᴰ (now, job) rows
    → find (is_row job.id) (map (λ p. p.1) rows) ≢ none
unfolding find
mem-find now job [] m = elim m [ ]
mem-find now job (p ∷ rows) m = elim (Memᴰ-cons m) [
  | inl e ↦ rw⁻¹ e (rw (eq_text_refl job.id) (λ h. clash h refl))
  | inr later ↦ λ h. elim (Bool-cases (eq_text p.1.id job.id)) [
    | inl own ↦ clash (rw (own, find) at h) refl
    | inr other ↦ mem-find now job rows later (rw (other, find) at h)
  ]
]

module _ (c : Cron) where
  -- cron can parse the job's expression.
  abbrev pub IsAccepted : JobRow → Type 0
  IsAccepted job =
      (t : c.Table)
      → c.add_func (lit "CRON_TZ=" ++ (job.timezone ++ (lit " " ++ job.cron_expression))) job t
        ≢ none

  -- Of two states: in the later one the job has an entry, and either its callback runs the job as
  -- given, or the entry is the earlier state's and was made when the job had last been changed or
  -- after that.
  abbrev pub IsServed : JobRow → Scheduler c → Scheduler c → Type 0
  IsServed job s s' =
      (e : Entry) × (lookup job.id s'.entries ≡ some e)
      × ((c.runner s'.table e.cron_id ≡ some job)
          ⊎ ((lookup job.id s.entries ≡ some e) × (ltb e.scheduled_at job.updated_at ≡ false)))

  schedule-own :
      (now : ℕ) (job : JobRow) (s : Scheduler c)
      → IsAccepted job
      → (k : ℕ) × (lookup job.id (schedule c now job s).entries
          ≡ some (record { cron_id = k; scheduled_at = now; cancel = none }))
        × (c.runner (schedule c now job s).table k ≡ some job)
  unfolding schedule
  schedule-own now job s accepted =
      elim (Option-cases (
        c.add_func (lit "CRON_TZ=" ++ (job.timezone ++ (lit " " ++ job.cron_expression))) job
          s.table)) [
            | inl e ↦ absurd (accepted s.table e)
            | inr ((k, t'), e) ↦
                let (fresh, runs, rest) = c.add_func-new _ job s.table t' k e in
                rw (e, schedule) (k, lookup-put job.id _ s.entries, runs)
          ]

  reconcile_one-own :
      (now : ℕ) (job : JobRow) (s : Scheduler c)
      → IsAccepted job
      → IsServed job s (reconcile_one c now job s)
  unfolding reconcile_one
  reconcile_one-own now job s accepted = elim (Option-cases (lookup job.id s.entries)) [
    | inl e ↦
        let (k, at_job, runs) = schedule-own now job s accepted in
        rw (e, reconcile_one) (_, at_job, inl runs)
    | inr (entry, e) ↦ elim (Bool-cases (ltb entry.scheduled_at job.updated_at)) [
      | inl old ↦
          let (k, at_job, runs) = schedule-own now job (unschedule c job.id entry s) accepted in
          rw (e, old, reconcile_one) (_, at_job, inl runs)
      | inr recent ↦ rw (e, recent, reconcile_one) (entry, e, inr (refl, recent))
    ]
  ]

  head-IsServed :
      (now : ℕ) (job : JobRow) (rows : List (ℕ × JobRow)) (s : Scheduler c)
      → find (is_row job.id) (map (λ p. p.1) rows) ≡ none
      → IsAccepted job
      → IsTidy c s
      → IsServed job s (reconcile c rows (reconcile_one c now job s))
  head-IsServed now job rows s free accepted tidy =
      let after = reconcile_one-IsTidy c now job s tidy in
      let (e, found, how) = reconcile_one-own now job s accepted in
      (
        e,
        reconcile-other c rows job.id (reconcile_one c now job s) free ∙ found,
        elim how [
          | inl runs ↦ inl (
              reconcile-runner c rows job job.id e (reconcile_one c now job s) after free found
                runs)
          | inr before ↦ inr before
        ],
      )

  reconcile-IsServed :
      (now : ℕ) (job : JobRow) (rows : List (ℕ × JobRow)) (s : Scheduler c)
      → HasDistinctJobs rows
      → Memᴰ (now, job) rows
      → IsAccepted job
      → IsTidy c s
      → IsServed job s (reconcile c rows s)
  unfolding reconcile
  reconcile-IsServed now job [] s distinct m accepted tidy = elim m [ ]
  reconcile-IsServed now job ((now', job') ∷ rows) s (free, distinct) m accepted tidy =
      elim (Memᴰ-cons m) [
        | inl same ↦
            let jobs = ap (λ p. p.1) same in
            subst (λ x. IsServed x s (reconcile c rows (reconcile_one c now' job' s))) (sym jobs)
              (head-IsServed now' job' rows s free (subst IsAccepted jobs accepted) tidy)
        | inr later ↦
            let apart : job.id ≢ job'.id =
              λ same. mem-find now job rows later (rw (sym same) at free) in
            let (e, found, how) =
              reconcile-IsServed now job rows (reconcile_one c now' job' s) distinct later accepted
                (reconcile_one-IsTidy c now' job' s tidy) in
            (
              e,
              found,
              elim how [
                | inl runs ↦ inl runs
                | inr (old, recent) ↦
                    inr (sym (reconcile_one-other c now' job' job.id s apart) ∙ old, recent)
              ],
            )
      ]

  -- After a turn of `sync` that could read the jobs, from a state in which entries and callbacks
  -- agree: an active job whose expression cron accepts has an entry, and its callback runs the job
  -- as read, unless the entry was there before and was made at the job's last change or after it.
  pub sync-IsServed :
      (now : ℕ) (job : JobRow) (rows : List (ℕ × JobRow)) (s : Scheduler c)
      → HasDistinctJobs (active_rows rows)
      → Memᴰ (now, job) (active_rows rows)
      → IsAccepted job
      → IsTidy c s
      → IsServed job s (sync c (some rows) s)
  unfolding sync
  sync-IsServed now job rows s distinct m accepted tidy =
      let active = map (λ p. p.1) (active_rows rows) in
      let keys = map (λ p. p.0) s.entries in
      let (e, found, how) =
        reconcile-IsServed now job (active_rows rows) (sweep c active keys s) distinct m accepted
          (sweep-IsTidy c active keys s tidy) in
      (
        e,
        found,
        elim how [
          | inl runs ↦ inl runs
          | inr (old, recent) ↦ inr (
            sym (sweep-kept c active keys job.id s (mem-find now job (active_rows rows) m)) ∙ old,
            recent,
          )
        ],
      )
