-- ===== src/Server/Scheduler/Staleness.antt =====
-- A job that changes while the worker reads the jobs.
use mathlib.Core.Path.{subst}
use irwandhi_gitops_lab.Base.{
  ℕ, ◌≡◌, ◌≤◌, refl, false, none, some, List, [], ◌∷◌, ◌++◌, arith, filter, ltb, Option-cases, inl,
  inr,
}
use irwandhi_gitops_lab.Text.{Text, lit, eq_text_refl}
use irwandhi_gitops_lab.Server.Store.{JobRow, find}
use irwandhi_gitops_lab.Server.Scheduler.{
  Cron, Entry, Scheduler, lookup, delete, schedule, sweep_one, sweep, reconcile_one, reconcile,
  active_rows, sync,
}
use irwandhi_gitops_lab.Server.Scheduler.Timetable.{is_row}
use irwandhi_gitops_lab.Server.Scheduler.Freshness.{IsAccepted}

at_own : (id : Text) (e : Entry) → lookup id ((id, e) ∷ []) ≡ some e
unfolding lookup
at_own id e = rw (eq_text_refl id) refl

own_row : (job : JobRow) → find (is_row job.id) (job ∷ []) ≡ some job
unfolding find
own_row job = rw (eq_text_refl job.id) refl

module _ (c : Cron) where
  -- A first turn schedules the one job that it reads.
  first :
      (now : ℕ) (job : JobRow) (t : c.Table) (contexts : List ℕ)
      → job.status ≡ lit "active"
      → sync c (some ((now, job) ∷ [])) (record { table = t; entries = []; cancelled = contexts })
        ≡ schedule c now job (record { table = t; entries = []; cancelled = contexts })
  unfolding sync active_rows filter sweep reconcile reconcile_one lookup
  first now job t contexts active = rw (active, eq_text_refl (lit "active")) refl

  active_one :
      (n : ℕ) (job : JobRow)
      → job.status ≡ lit "active"
      → active_rows ((n, job) ∷ []) ≡ (n, job) ∷ []
  unfolding active_rows filter
  active_one n job active = simp (active, eq_text_refl (lit "active")) refl

  module _ (later : ℕ) (changed : JobRow) (e : Entry) (t : c.Table) (contexts : List ℕ) where
    abbrev only : Scheduler c
    only = record { table = t; entries = (changed.id, e) ∷ []; cancelled = contexts }

    kept : sweep_one c (changed ∷ []) changed.id only ≡ only
    unfolding sweep_one
    kept = rw (at_own changed.id e, sweep_one, own_row changed) refl

    quiet :
        ltb e.scheduled_at changed.updated_at ≡ false → reconcile_one c later changed only ≡ only
    unfolding reconcile_one
    quiet recent = rw (at_own changed.id e, reconcile_one, recent) refl

    -- A turn that reads a job whose only entry is recent changes nothing.
    steady :
        changed.status ≡ lit "active"
        → ltb e.scheduled_at changed.updated_at ≡ false
        → sync c (some ((later, changed) ∷ [])) only ≡ only
    unfolding sync sweep reconcile
    steady active recent = rw (active_one later changed active, kept) (quiet recent)

  -- A job is read, then changed, and only then put on the timetable, with the time of that moment:
  -- where cron accepts its expression and nothing had an entry before, the next turn, which
  -- reads the changed job, leaves the callback that runs the job as it was before the change.
  pub stale_callback :
      (now later : ℕ) (job changed : JobRow) (t : c.Table) (contexts : List ℕ)
      → IsAccepted c job
      → job.status ≡ lit "active"
      → changed.status ≡ lit "active"
      → changed.id ≡ job.id
      → changed.updated_at ≤ now
      → let s =
          sync c
            (some ((now, job) ∷ []))
            (record { table = t; entries = []; cancelled = contexts }) in
        (e : Entry) × (lookup job.id (sync c (some ((later, changed) ∷ [])) s).entries ≡ some e)
        × (c.runner (sync c (some ((later, changed) ∷ [])) s).table e.cron_id ≡ some job)
  unfolding schedule delete filter lookup
  stale_callback now later job changed t contexts accepted active active' same early =
      elim (Option-cases
        (c.add_func (lit "CRON_TZ=" ++ (job.timezone ++ (lit " " ++ job.cron_expression))) job t)) [
          | inl e ↦ absurd (accepted t e)
          | inr ((k, t'), e) ↦
              let (fresh, runs, rest) = c.add_func-new _ job t t' k e in
              let recent : ltb now changed.updated_at ≡ false = ground (arith, early) in
              let entry : Entry = record { cron_id = k; scheduled_at = now; cancel = none } in
              let settled =
                subst
                  (λ i.
                    sync c (some ((later, changed) ∷ []))
                      (record { table = t'; entries = (i, entry) ∷ []; cancelled = contexts })
                    ≡ record { table = t'; entries = (i, entry) ∷ []; cancelled = contexts })
                  same (steady later changed entry t' contexts active' recent) in
              rw (first now job t contexts active, schedule, e, settled)
                (entry, at_own job.id entry, runs)
        ]
