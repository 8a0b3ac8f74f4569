-- ===== src/Server/Scheduler/Turns.antt =====
-- The turns of `sync` and the callbacks keep the map of entries and the timetable of cron in
-- agreement.
use irwandhi_gitops_lab.Base.{
  ℕ, ◌≡◌, refl, Option, none, some, List, [], ◌∷◌, Bool-cases, Option-cases, inl, inr, map, ltb,
}
use irwandhi_gitops_lab.Text.{Text, eq_text}
use irwandhi_gitops_lab.Server.Store.{JobRow, find}
use irwandhi_gitops_lab.Server.Scheduler.{
  Cron, Entry, Scheduler, lookup, unschedule, replace, sweep_one, sweep, reconcile_one, reconcile,
  active_rows, sync,
}
use irwandhi_gitops_lab.Server.Scheduler.Entries.{lookup-delete, clash}
use irwandhi_gitops_lab.Server.Scheduler.Tidy.{
  IsTidy, unschedule-IsTidy, schedule-IsTidy, updated-IsTidy,
}

module _ (c : Cron) where
  pub sweep_one-IsTidy :
      (active : List JobRow) (id : Text) (s : Scheduler c)
      → IsTidy c s
      → IsTidy c (sweep_one c active id s)
  unfolding sweep_one
  sweep_one-IsTidy active id s tidy = elim (Option-cases (lookup id s.entries)) [
    | inl e ↦ rw (e, sweep_one) tidy
    | inr (entry, e) ↦ elim (Option-cases (find (λ job. eq_text job.id id) active)) [
      | inl gone ↦ rw (e, gone, sweep_one) (unschedule-IsTidy c id entry s e tidy)
      | inr (job, kept) ↦ rw (e, kept, sweep_one) tidy
    ]
  ]

  pub sweep-IsTidy :
      (active : List JobRow) (ids : List Text) (s : Scheduler c)
      → IsTidy c s
      → IsTidy c (sweep c active ids s)
  unfolding sweep
  sweep-IsTidy active [] s tidy = tidy
  sweep-IsTidy active (id ∷ ids) s tidy =
      sweep-IsTidy active ids (sweep_one c active id s) (sweep_one-IsTidy active id s tidy)

  pub reconcile_one-IsTidy :
      (now : ℕ) (job : JobRow) (s : Scheduler c) → IsTidy c s → IsTidy c (reconcile_one c now job s)
  unfolding reconcile_one
  reconcile_one-IsTidy now job s tidy = elim (Option-cases (lookup job.id s.entries)) [
    | inl e ↦ rw (e, reconcile_one) (schedule-IsTidy c now job s e tidy)
    | inr (entry, e) ↦ elim (Bool-cases (ltb entry.scheduled_at job.updated_at)) [
      | inl old ↦
          rw (e, old, reconcile_one)
            (schedule-IsTidy c now job (unschedule c job.id entry s)
              (unfold unschedule in lookup-delete job.id s.entries)
              (unschedule-IsTidy c job.id entry s e tidy))
      | inr recent ↦ rw (e, recent, reconcile_one) tidy
    ]
  ]

  reconcile-IsTidy :
      (rows : List (ℕ × JobRow)) (s : Scheduler c) → IsTidy c s → IsTidy c (reconcile c rows s)
  unfolding reconcile
  reconcile-IsTidy [] s tidy = tidy
  reconcile-IsTidy ((now, job) ∷ rows) s tidy =
      reconcile-IsTidy rows (reconcile_one c now job s) (reconcile_one-IsTidy now job s tidy)

  sync-IsTidy :
      (rows : Option (List (ℕ × JobRow))) (s : Scheduler c) → IsTidy c s → IsTidy c (sync c rows s)
  unfolding sync
  sync-IsTidy none s tidy = tidy
  sync-IsTidy (some rows) s tidy =
      reconcile-IsTidy (active_rows rows) _
        (sweep-IsTidy (map (λ p. p.1) (active_rows rows)) (map (λ p. p.0) s.entries) s tidy)

  replace-IsTidy :
      (id : Text) (context : ℕ) (e : Entry) (s : Scheduler c)
      → lookup id s.entries ≡ some e
      → IsTidy c s
      → IsTidy c (replace c id context s)
  unfolding replace
  replace-IsTidy id context e s found tidy =
      let contexts : List ℕ = elim e.cancel [ none ↦ s.cancelled | some old ↦ old ∷ s.cancelled ] in
      rw (found, replace)
        (updated-IsTidy c id e (record e { cancel = some context }) s contexts found refl tidy)

  -- Turns of `sync`, and callbacks of jobs that are on the timetable.
  pub data Reach : Scheduler c → Type 0 where
    start :
        (t : c.Table)
        → ((k : ℕ) → c.runner t k ≡ none)
        → Reach (record { table = t; entries = []; cancelled = [] })
    synced : {s : Scheduler c} (rows : Option (List (ℕ × JobRow))) → Reach s → Reach (sync c rows s)
    replaced :
        {s : Scheduler c} (id : Text) (context : ℕ) (e : Entry)
        → Reach s
        → lookup id s.entries ≡ some e
        → Reach (replace c id context s)

  -- However often the worker reads the jobs, whatever rows it reads and whichever expressions cron
  -- refuses, and as long as only jobs that are on the timetable replace their runs: each callback on
  -- the timetable is that of the entry of its job, and each entry has a callback of its job.
  pub Reach-IsTidy : {s : Scheduler c} → Reach s → IsTidy c s
  unfolding lookup
  Reach-IsTidy (start t empty) =
      (λ k job runs. absurd (clash (empty k) runs), λ id e found. absurd (clash refl found))
  Reach-IsTidy (synced {s} rows reach) = sync-IsTidy rows s (Reach-IsTidy reach)
  Reach-IsTidy (replaced {s} id context e reach found) =
      replace-IsTidy id context e s found (Reach-IsTidy reach)
