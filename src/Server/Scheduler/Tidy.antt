-- ===== src/Server/Scheduler/Tidy.antt =====
-- The map of entries and the timetable of cron agree: no callback is left behind.
use mathlib.Core.Path.{subst}
use native.Mathlib.Decide.{ℕ_discrete}
use irwandhi_gitops_lab.Base.{
  ℕ, ◌≡◌, ◌≢◌, sym, ap, ◌∙◌, none, some, List, ◌∷◌, ◌++◌, Bool-cases, Option-cases, inl, inr,
}
use irwandhi_gitops_lab.Text.{Text, lit, eq_text, eq_text_iff}
use irwandhi_gitops_lab.Server.Store.{JobRow}
use irwandhi_gitops_lab.Server.Scheduler.{
  Cron, Entry, Scheduler, lookup, delete, unschedule, schedule,
}
use irwandhi_gitops_lab.Server.Scheduler.Entries.{
  lookup-delete, lookup-delete-other, lookup-put, lookup-put-other, clash, agree,
}

module _ (c : Cron) where
  -- Each callback is that of the entry of its job, and each entry has a callback of its job.
  abbrev pub IsTidy : Scheduler c → Type 0
  IsTidy s =
      ((k : ℕ) (job : JobRow)
        → c.runner s.table k ≡ some job
        → (e : Entry) × (lookup job.id s.entries ≡ some e) × (e.cron_id ≡ k))
      × ((id : Text) (e : Entry)
          → lookup id s.entries ≡ some e
          → (job : JobRow) × (c.runner s.table e.cron_id ≡ some job) × (job.id ≡ id))

  pub unschedule-IsTidy :
      (id : Text) (e : Entry) (s : Scheduler c)
      → lookup id s.entries ≡ some e
      → IsTidy s
      → IsTidy (unschedule c id e s)
  unfolding unschedule
  unschedule-IsTidy id e s found (owned, running) = (owned', running')
    where
      owned' :
          (k : ℕ) (job : JobRow)
          → c.runner (c.remove e.cron_id s.table) k ≡ some job
          → (e' : Entry) × (lookup job.id (delete id s.entries) ≡ some e') × (e'.cron_id ≡ k)
      owned' k job runs = elim (ℕ_discrete k e.cron_id) [
        | yes same ↦ absurd (clash (c.remove-gone e.cron_id s.table).0 (rw same at runs))
        | no ne ↦
            let (e', at_job, its) =
              owned k job (sym ((c.remove-gone e.cron_id s.table).1 k ne) ∙ runs) in
            let apart : job.id ≢ id =
              λ same. ne (sym its ∙ ap (λ x. x.cron_id) (agree (rw same at at_job) found)) in
            (e', lookup-delete-other id job.id s.entries apart ∙ at_job, its)
      ]

      running' :
          (id' : Text) (e' : Entry)
          → lookup id' (delete id s.entries) ≡ some e'
          → (job : JobRow) × (c.runner (c.remove e.cron_id s.table) e'.cron_id ≡ some job)
            × (job.id ≡ id')
      running' id' e' found' =
          let apart : id' ≢ id = λ same. clash (lookup-delete id s.entries) (rw same at found') in
          let (job, runs, its) =
            running id' e' (sym (lookup-delete-other id id' s.entries apart) ∙ found') in
          let (old, old_runs, old_its) = running id e found in
          let other : e'.cron_id ≢ e.cron_id = λ same.
            apart (sym its ∙ (ap (λ j. j.id) (agree (rw same at runs) old_runs) ∙ old_its)) in
          (job, (c.remove-gone e.cron_id s.table).1 e'.cron_id other ∙ runs, its)

  added-IsTidy :
      (now : ℕ) (job : JobRow) (s : Scheduler c) (k : ℕ) (t' : c.Table)
      → lookup job.id s.entries ≡ none
      → c.runner s.table k ≡ none
      → c.runner t' k ≡ some job
      → ((n : ℕ) → n ≢ k → c.runner t' n ≡ c.runner s.table n)
      → IsTidy s
      → IsTidy (record s {
        table = t';
        entries =
            (job.id, record { cron_id = k; scheduled_at = now; cancel = none })
            ∷ delete job.id s.entries;
      })
  added-IsTidy now job s k t' free fresh new rest (owned, running) = (owned', running')
    where
      entry : Entry
      entry = record { cron_id = k; scheduled_at = now; cancel = none }

      owned' :
          (n : ℕ) (j : JobRow)
          → c.runner t' n ≡ some j
          → (e : Entry) × (lookup j.id ((job.id, entry) ∷ delete job.id s.entries) ≡ some e)
            × (e.cron_id ≡ n)
      owned' n j runs = elim (ℕ_discrete n k) [
        | yes same ↦ (
          entry,
          subst (λ x. lookup x.id ((job.id, entry) ∷ delete job.id s.entries) ≡ some entry)
              (agree new (rw same at runs)) (lookup-put job.id entry s.entries),
          sym same,
        )
        | no ne ↦
            let (e, at_job, its) = owned n j (sym (rest n ne) ∙ runs) in
            let apart : j.id ≢ job.id = λ same. clash free (rw same at at_job) in
            (e, lookup-put-other job.id j.id entry s.entries apart ∙ at_job, its)
      ]

      running' :
          (id : Text) (e : Entry)
          → lookup id ((job.id, entry) ∷ delete job.id s.entries) ≡ some e
          → (j : JobRow) × (c.runner t' e.cron_id ≡ some j) × (j.id ≡ id)
      running' id e found = elim (Bool-cases (eq_text id job.id)) [
        | inl h ↦
            let same = (eq_text_iff id job.id).0 h in
            let its = agree (lookup-put job.id entry s.entries) (rw same at found) in
            (job, subst (λ x. c.runner t' x.cron_id ≡ some job) its new, sym same)
        | inr h ↦
            let apart : id ≢ job.id = λ same. let hit = (eq_text_iff id job.id).1 same in cc in
            let (j, runs, its) =
              running id e (sym (lookup-put-other job.id id entry s.entries apart) ∙ found) in
            let other : e.cron_id ≢ k = λ same. clash fresh (rw same at runs) in
            (j, rest e.cron_id other ∙ runs, its)
      ]

  pub schedule-IsTidy :
      (now : ℕ) (job : JobRow) (s : Scheduler c)
      → lookup job.id s.entries ≡ none
      → IsTidy s
      → IsTidy (schedule c now job s)
  unfolding schedule
  schedule-IsTidy now job s free (owned, running) =
      elim (Option-cases (
        c.add_func (lit "CRON_TZ=" ++ (job.timezone ++ (lit " " ++ job.cron_expression))) job
          s.table)) [
            | inl e ↦ rw (e, schedule) (owned, running)
            | inr ((k, t'), e) ↦
                let (fresh, runs, rest) = c.add_func-new _ job s.table t' k e in
                rw (e, schedule) (added-IsTidy now job s k t' free fresh runs rest (owned, running))
          ]

  pub updated-IsTidy :
      (id : Text) (e e' : Entry) (s : Scheduler c) (contexts : List ℕ)
      → lookup id s.entries ≡ some e
      → e'.cron_id ≡ e.cron_id
      → IsTidy s
      → IsTidy (record s { entries = (id, e') ∷ delete id s.entries; cancelled = contexts })
  updated-IsTidy id e e' s contexts found kept (owned, running) = (owned', running')
    where
      owned' :
          (k : ℕ) (job : JobRow)
          → c.runner s.table k ≡ some job
          → (x : Entry) × (lookup job.id ((id, e') ∷ delete id s.entries) ≡ some x)
            × (x.cron_id ≡ k)
      owned' k job runs =
          let (x, at_job, its) = owned k job runs in
          elim (Bool-cases (eq_text job.id id)) [
            | inl h ↦
                let same = (eq_text_iff job.id id).0 h in
                (
                  e',
                  rw same (lookup-put id e' s.entries),
                  kept ∙ (ap (λ y. y.cron_id) (agree found (rw same at at_job)) ∙ its),
                )
            | inr h ↦
                let apart : job.id ≢ id = λ same. let hit = (eq_text_iff job.id id).1 same in cc in
                (x, lookup-put-other id job.id e' s.entries apart ∙ at_job, its)
          ]

      running' :
          (id' : Text) (x : Entry)
          → lookup id' ((id, e') ∷ delete id s.entries) ≡ some x
          → (job : JobRow) × (c.runner s.table x.cron_id ≡ some job) × (job.id ≡ id')
      running' id' x found' = elim (Bool-cases (eq_text id' id)) [
        | inl h ↦
            let same = (eq_text_iff id' id).0 h in
            let its = agree (lookup-put id e' s.entries) (rw same at found') in
            let (job, runs, at_id) = running id e found in
            (
              job,
              ap (c.runner s.table) (sym (ap (λ y. y.cron_id) its) ∙ kept) ∙ runs,
              at_id ∙ sym same,
            )
        | inr h ↦
            let apart : id' ≢ id = λ same. let hit = (eq_text_iff id' id).1 same in cc in
            running id' x (sym (lookup-put-other id id' e' s.entries apart) ∙ found')
      ]
