-- ===== src/Server/Scheduler.antt =====
-- apps/cronpilot-worker/scheduler/scheduler.go: which jobs the worker keeps on its timetable. A time
-- is a count of some unit since a fixed moment.
pub mod Entries
pub mod Tidy
pub mod Turns
pub mod Timetable
pub mod Callbacks
pub mod Freshness
pub mod Staleness
use irwandhi_gitops_lab.Base.{
  ℕ, Bool, true, false, not, ◌||◌, Option, none, some, List, [], ◌∷◌, ◌++◌, ◌≡◌, ◌≢◌, if◌then◌else◌,
  ltb, filter, map,
}
use irwandhi_gitops_lab.Text.{Text, lit, eq_text}
use irwandhi_gitops_lab.Server.Store.{JobRow, find}

-- The library robfig/cron: a timetable whose entries have numbers, each with the job that its
-- callback runs. `AddFunc` refuses an expression that it cannot parse; else it makes a new entry.
-- `Remove` takes an entry away, and passes over a number that names none.
pub record Cron : Type 1 where
  pub Table : Type 0
  pub add_func : Text → JobRow → Table → Option (ℕ × Table)
  pub remove : ℕ → Table → Table
  pub runner : Table → ℕ → Option JobRow
  pub add_func-new :
      (expr : Text) (job : JobRow) (t t' : Table) (k : ℕ)
      → add_func expr job t ≡ some (k, t')
      → (runner t k ≡ none)
        × (runner t' k ≡ some job)
        × ((n : ℕ) → n ≢ k → runner t' n ≡ runner t n)
  pub remove-gone :
      (k : ℕ) (t : Table)
      → (runner (remove k t) k ≡ none) × ((n : ℕ) → n ≢ k → runner (remove k t) n ≡ runner t n)

-- `cancel` is the number of the context whose `cancelFn` the entry has, if it has one.
pub record Entry : Type 0 where
  pub cron_id : ℕ
  pub scheduled_at : ℕ
  pub cancel : Option ℕ

-- The map from the ids of jobs to entries.
abbrev pub Entries : Type 0
Entries = List (Text × Entry)

unfoldable pub lookup : Text → Entries → Option Entry
lookup id [] = none
lookup id ((key, e) ∷ es) = let rest = lookup id es in if eq_text key id then some e else rest

unfoldable pub delete : Text → Entries → Entries
delete id es = filter (λ p. not (eq_text p.0 id)) es

-- `WHERE status = 'active'`.
unfoldable pub active_rows : List (ℕ × JobRow) → List (ℕ × JobRow)
active_rows rows = filter (λ p. eq_text p.1.status (lit "active")) rows

module _ (c : Cron) where
  -- `cancelled` are the contexts that were cancelled so far.
  pub record Scheduler : Type 0 where
    pub table : c.Table
    pub entries : Entries
    pub cancelled : List ℕ

  -- Cancel, `Remove`, and delete from the map.
  unfoldable pub unschedule : Text → Entry → Scheduler → Scheduler
  unfolding delete
  unschedule id e s = record {
    table = c.remove e.cron_id s.table;
    entries = delete id s.entries;
    cancelled = elim e.cancel [ none ↦ s.cancelled | some context ↦ context ∷ s.cancelled ];
  }

  -- `AddFunc`, and the new entry; `now` is the time when the map is written.
  unfoldable pub schedule : ℕ → JobRow → Scheduler → Scheduler
  unfolding delete
  schedule now job s =
      elim (c.add_func (lit "CRON_TZ=" ++ (job.timezone ++ (lit " " ++ job.cron_expression))) job
        s.table) [
          | none ↦ s
          | some added ↦ record s {
            table = added.1;
            entries =
                (job.id, record { cron_id = added.0; scheduled_at = now; cancel = none })
                ∷ delete job.id s.entries;
          }
        ]

  -- The change of the map by the callback of a job whose policy is "Replace"; `context` is the new
  -- context. A missing key reads as an entry of zeros.
  unfoldable pub replace : Text → ℕ → Scheduler → Scheduler
  unfolding lookup delete
  replace id context s =
      let e : Entry = elim (lookup id s.entries) [
        | none ↦ record { cron_id = 0; scheduled_at = 0; cancel = none }
        | some e ↦ e
      ] in
      record s {
        entries = (id, record e { cancel = some context }) ∷ delete id s.entries;
        cancelled = elim e.cancel [ none ↦ s.cancelled | some old ↦ old ∷ s.cancelled ];
      }

  -- One turn of the loop that removes; a turn of `range` sees the map as it is then.
  unfoldable pub sweep_one : List JobRow → Text → Scheduler → Scheduler
  unfolding lookup unschedule
  sweep_one active id s = elim (lookup id s.entries) [
    | none ↦ s
    | some e ↦ elim (find (λ job. eq_text job.id id) active) [
      | none ↦ unschedule id e s
      | some job ↦ s
    ]
  ]

  unfoldable pub sweep : List JobRow → List Text → Scheduler → Scheduler
  unfolding sweep_one
  sweep active [] s = s
  sweep active (id ∷ ids) s = sweep active ids (sweep_one active id s)

  -- One turn of the loop that adds.
  unfoldable pub reconcile_one : ℕ → JobRow → Scheduler → Scheduler
  unfolding lookup unschedule schedule
  reconcile_one now job s = elim (lookup job.id s.entries) [
    | none ↦ schedule now job s
    | some e ↦
        if ltb e.scheduled_at job.updated_at then schedule now job (unschedule job.id e s) else s
  ]

  -- Each job with the time of its turn.
  unfoldable pub reconcile : List (ℕ × JobRow) → Scheduler → Scheduler
  unfolding reconcile_one
  reconcile [] s = s
  reconcile ((now, job) ∷ rest) s = reconcile rest (reconcile_one now job s)

  -- `sync` on the rows that its query read (`none` where the query failed), with the time at which
  -- the turn of each row would write the map.
  unfoldable pub sync : Option (List (ℕ × JobRow)) → Scheduler → Scheduler
  unfolding active_rows sweep reconcile
  sync none s = s
  sync (some rows) s =
      reconcile (active_rows rows)
        (sweep (map (λ p. p.1) (active_rows rows)) (map (λ p. p.0) s.entries) s)
