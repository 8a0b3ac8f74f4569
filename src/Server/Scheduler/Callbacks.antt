-- ===== src/Server/Scheduler/Callbacks.antt =====
-- What the turns for other jobs keep of a job's entry and callback.
use irwandhi_gitops_lab.Base.{
  ℕ, ◌≡◌, ◌≢◌, refl, sym, ap, ◌∙◌, none, some, List, [], ◌∷◌, ◌++◌, Bool-cases, Option-cases, inl,
  inr, map, ltb,
}
use irwandhi_gitops_lab.Text.{Text, lit}
use irwandhi_gitops_lab.Server.Store.{JobRow, find}
use irwandhi_gitops_lab.Server.Scheduler.{
  Cron, Entry, Scheduler, lookup, unschedule, schedule, sweep_one, sweep, reconcile_one, reconcile,
}
use irwandhi_gitops_lab.Server.Scheduler.Entries.{clash, agree}
use irwandhi_gitops_lab.Server.Scheduler.Timetable.{
  is_row, unschedule-other, reconcile_one-other, find-rest,
}
use irwandhi_gitops_lab.Server.Scheduler.Tidy.{IsTidy}
use irwandhi_gitops_lab.Server.Scheduler.Turns.{reconcile_one-IsTidy}

module _ (c : Cron) where
  -- What schedules or removes another job keeps the callback of an entry.
  schedule-runner :
      (now k : ℕ) (job own : JobRow) (s : Scheduler c)
      → c.runner s.table k ≡ some own
      → c.runner (schedule c now job s).table k ≡ some own
  unfolding schedule
  schedule-runner now k job own s runs =
      elim (Option-cases (
        c.add_func (lit "CRON_TZ=" ++ (job.timezone ++ (lit " " ++ job.cron_expression))) job
          s.table)) [
            | inl e ↦ rw (e, schedule) runs
            | inr ((n, t'), e) ↦
                let (fresh, its, rest) = c.add_func-new _ job s.table t' n e in
                let apart : k ≢ n = λ same. clash fresh (rw same at runs) in
                rw (e, schedule) (rest k apart ∙ runs)
          ]

  unschedule-runner :
      (id id' : Text) (e e' : Entry) (s : Scheduler c) (own : JobRow)
      → IsTidy c s
      → id' ≢ id
      → lookup id s.entries ≡ some e
      → lookup id' s.entries ≡ some e'
      → c.runner s.table e'.cron_id ≡ some own
      → c.runner (unschedule c id e s).table e'.cron_id ≡ some own
  unfolding unschedule
  unschedule-runner id id' e e' s own (owned, running) ne found found' runs =
      let (job, job_runs, at_id) = running id e found in
      let (job', job_runs', at_id') = running id' e' found' in
      let apart : e'.cron_id ≢ e.cron_id = λ same.
        ne (sym at_id' ∙ (ap (λ j. j.id) (agree (rw same at job_runs') job_runs) ∙ at_id)) in
      (c.remove-gone e.cron_id s.table).1 e'.cron_id apart ∙ runs

  reconcile_one-runner :
      (now : ℕ) (job own : JobRow) (id : Text) (e : Entry) (s : Scheduler c)
      → IsTidy c s
      → id ≢ job.id
      → lookup id s.entries ≡ some e
      → c.runner s.table e.cron_id ≡ some own
      → c.runner (reconcile_one c now job s).table e.cron_id ≡ some own
  unfolding reconcile_one
  reconcile_one-runner now job own id e s tidy ne found runs =
      elim (Option-cases (lookup job.id s.entries)) [
        | inl h ↦ rw (h, reconcile_one) (schedule-runner now e.cron_id job own s runs)
        | inr (entry, h) ↦ elim (Bool-cases (ltb entry.scheduled_at job.updated_at)) [
          | inl old ↦
              rw (h, old, reconcile_one)
                (schedule-runner now e.cron_id job own (unschedule c job.id entry s)
                  (unschedule-runner job.id id entry e s own tidy ne h found runs))
          | inr recent ↦ rw (h, recent, reconcile_one) runs
        ]
      ]

  pub reconcile-runner :
      (rows : List (ℕ × JobRow)) (own : JobRow) (id : Text) (e : Entry) (s : Scheduler c)
      → IsTidy c s
      → find (is_row id) (map (λ p. p.1) rows) ≡ none
      → lookup id s.entries ≡ some e
      → c.runner s.table e.cron_id ≡ some own
      → c.runner (reconcile c rows s).table e.cron_id ≡ some own
  unfolding reconcile
  reconcile-runner [] own id e s tidy free found runs = runs
  reconcile-runner ((now, job) ∷ rows) own id e s tidy free found runs =
      let (ne, rest) = find-rest (now, job) rows id free in
      reconcile-runner rows own id e (reconcile_one c now job s)
        (reconcile_one-IsTidy c now job s tidy) rest (reconcile_one-other c now job id s ne ∙ found)
        (reconcile_one-runner now job own id e s tidy ne found runs)

  -- The sweep keeps the entries of active jobs.
  sweep_one-kept :
      (active : List JobRow) (key id : Text) (s : Scheduler c)
      → find (is_row id) active ≢ none
      → lookup id (sweep_one c active key s).entries ≡ lookup id s.entries
  unfolding sweep_one
  sweep_one-kept active key id s kept = elim (Option-cases (lookup key s.entries)) [
    | inl e ↦ rw (e, sweep_one) refl
    | inr (entry, e) ↦ elim (Option-cases (find (is_row key) active)) [
      | inl gone ↦
          let apart : id ≢ key = λ same. kept (rw (sym same) at gone) in
          rw (e, gone, sweep_one) (unschedule-other c key id entry s apart)
      | inr (job, h) ↦ rw (e, h, sweep_one) refl
    ]
  ]

  pub sweep-kept :
      (active : List JobRow) (keys : List Text) (id : Text) (s : Scheduler c)
      → find (is_row id) active ≢ none
      → lookup id (sweep c active keys s).entries ≡ lookup id s.entries
  unfolding sweep
  sweep-kept active [] id s kept = refl
  sweep-kept active (key ∷ keys) id s kept =
      sweep-kept active keys id (sweep_one c active key s) kept
      ∙ sweep_one-kept active key id s kept
