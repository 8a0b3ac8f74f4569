-- ===== src/Server/Scheduler/Timetable.antt =====
-- Which jobs are on the timetable after a turn of `sync`.
use irwandhi_gitops_lab.Base.{
  ℕ, ◌≡◌, ◌≢◌, refl, sym, ◌∙◌, Bool, none, some, List, [], ◌∷◌, ◌++◌, arith, Bool-cases,
  Option-cases, inl, inr, map, ltb,
}
use irwandhi_gitops_lab.Text.{Text, lit, eq_text, eq_text_iff}
use irwandhi_gitops_lab.Server.Store.{JobRow, find}
use irwandhi_gitops_lab.Server.Scheduler.{
  Cron, Entry, Entries, Scheduler, lookup, delete, unschedule, schedule, sweep_one, sweep,
  reconcile_one, reconcile, active_rows, sync,
}
use irwandhi_gitops_lab.Server.Scheduler.Entries.{
  lookup-delete, lookup-delete-other, lookup-put-other, clash, Text-cases,
}

abbrev pub is_row : Text → JobRow → Bool
is_row id job = eq_text job.id id

-- An entry that stands in the map is that of a key.
lookup-key :
    (id : Text) (es : Entries)
    → find (λ k. eq_text k id) (map (λ p. p.0) es) ≡ none
    → lookup id es ≡ none
unfolding lookup find
lookup-key id [] free = refl
lookup-key id ((key, e) ∷ es) free = ground (arith, lookup-key id es, free)

pub find-rest :
    (p : ℕ × JobRow) (rows : List (ℕ × JobRow)) (id : Text)
    → find (is_row id) (map (λ q. q.1) (p ∷ rows)) ≡ none
    → (id ≢ p.1.id) × (find (is_row id) (map (λ q. q.1) rows) ≡ none)
unfolding find
find-rest p rows id gone = elim (Bool-cases (eq_text p.1.id id)) [
  | inl h ↦ absurd (clash (rw (h, find) at gone) refl)
  | inr h ↦ (λ same. let hit = (eq_text_iff p.1.id id).1 (sym same) in cc, rw (h, find) at gone)
]

delete-none :
    (key id : Text) (es : Entries) → lookup id es ≡ none → lookup id (delete key es) ≡ none
delete-none key id es free = elim (Text-cases id key) [
  | inl same ↦ rw same (lookup-delete key es)
  | inr ne ↦ lookup-delete-other key id es ne ∙ free
]

module _ (c : Cron) where
  -- The sweep adds no entry.
  sweep_one-none :
      (active : List JobRow) (key id : Text) (s : Scheduler c)
      → lookup id s.entries ≡ none
      → lookup id (sweep_one c active key s).entries ≡ none
  unfolding sweep_one unschedule
  sweep_one-none active key id s free = elim (Option-cases (lookup key s.entries)) [
    | inl e ↦ rw (e, sweep_one) free
    | inr (entry, e) ↦ elim (Option-cases (find (is_row key) active)) [
      | inl gone ↦ rw (e, gone, sweep_one) (delete-none key id s.entries free)
      | inr (job, kept) ↦ rw (e, kept, sweep_one) free
    ]
  ]

  -- The turn of a key whose job is not active takes its entry away.
  sweep_one-gone :
      (active : List JobRow) (id : Text) (s : Scheduler c)
      → find (is_row id) active ≡ none
      → lookup id (sweep_one c active id s).entries ≡ none
  unfolding sweep_one unschedule
  sweep_one-gone active id s gone = elim (Option-cases (lookup id s.entries)) [
    | inl e ↦ rw (e, sweep_one) e
    | inr (entry, e) ↦ rw (e, gone, sweep_one) (lookup-delete id s.entries)
  ]

  sweep-none :
      (active : List JobRow) (keys : List Text) (id : Text) (s : Scheduler c)
      → lookup id s.entries ≡ none
      → lookup id (sweep c active keys s).entries ≡ none
  unfolding sweep
  sweep-none active [] id s free = free
  sweep-none active (key ∷ keys) id s free =
      sweep-none active keys id (sweep_one c active key s) (sweep_one-none active key id s free)

  sweep-gone :
      (active : List JobRow) (keys : List Text) (id : Text) (s : Scheduler c)
      → find (is_row id) active ≡ none
      → (find (λ k. eq_text k id) keys ≡ none → lookup id s.entries ≡ none)
      → lookup id (sweep c active keys s).entries ≡ none
  unfolding sweep find
  sweep-gone active [] id s gone else_free = else_free refl
  sweep-gone active (key ∷ keys) id s gone else_free = elim (Bool-cases (eq_text key id)) [
    | inl h ↦
        let same = (eq_text_iff key id).0 h in
        sweep-none active keys id (sweep_one c active key s)
          (rw same (sweep_one-gone active id s gone))
    | inr h ↦
        sweep-gone active keys id (sweep_one c active key s) gone
          (λ none_left. sweep_one-none active key id s (else_free (rw h none_left)))
  ]

  pub schedule-other :
      (now : ℕ) (job : JobRow) (id : Text) (s : Scheduler c)
      → id ≢ job.id
      → lookup id (schedule c now job s).entries ≡ lookup id s.entries
  unfolding schedule
  schedule-other now job id s ne =
      elim (Option-cases (
        c.add_func (lit "CRON_TZ=" ++ (job.timezone ++ (lit " " ++ job.cron_expression))) job
          s.table)) [
            | inl e ↦ rw (e, schedule) refl
            | inr (added, e) ↦ rw (e, schedule) (lookup-put-other job.id id _ s.entries ne)
          ]

  pub unschedule-other :
      (key id : Text) (e : Entry) (s : Scheduler c)
      → id ≢ key
      → lookup id (unschedule c key e s).entries ≡ lookup id s.entries
  unfolding unschedule
  unschedule-other key id e s ne = lookup-delete-other key id s.entries ne

  -- A turn for another job leaves an id as it is.
  pub reconcile_one-other :
      (now : ℕ) (job : JobRow) (id : Text) (s : Scheduler c)
      → id ≢ job.id
      → lookup id (reconcile_one c now job s).entries ≡ lookup id s.entries
  unfolding reconcile_one
  reconcile_one-other now job id s ne = elim (Option-cases (lookup job.id s.entries)) [
    | inl e ↦ rw (e, reconcile_one) (schedule-other now job id s ne)
    | inr (entry, e) ↦ elim (Bool-cases (ltb entry.scheduled_at job.updated_at)) [
      | inl old ↦
          rw (e, old, reconcile_one)
            (schedule-other now job id (unschedule c job.id entry s) ne
              ∙ unschedule-other job.id id entry s ne)
      | inr recent ↦ rw (e, recent, reconcile_one) refl
    ]
  ]

  pub reconcile-other :
      (rows : List (ℕ × JobRow)) (id : Text) (s : Scheduler c)
      → find (is_row id) (map (λ p. p.1) rows) ≡ none
      → lookup id (reconcile c rows s).entries ≡ lookup id s.entries
  unfolding reconcile find
  reconcile-other [] id s gone = refl
  reconcile-other ((now, job) ∷ rows) id s gone =
      let (ne, rest) = find-rest (now, job) rows id gone in
      reconcile-other rows id (reconcile_one c now job s) rest ∙ reconcile_one-other now job id s ne

  -- After a turn of `sync` that could read the jobs, only active jobs have an entry.
  pub sync-active :
      (rows : List (ℕ × JobRow)) (id : Text) (s : Scheduler c)
      → find (is_row id) (map (λ p. p.1) (active_rows rows)) ≡ none
      → lookup id (sync c (some rows) s).entries ≡ none
  unfolding sync
  sync-active rows id s gone =
      reconcile-other (active_rows rows) id _ gone
      ∙ sweep-gone (map (λ p. p.1) (active_rows rows)) (map (λ p. p.0) s.entries) id s gone
          (lookup-key id s.entries)
