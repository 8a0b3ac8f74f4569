-- ===== src/Server/Jobs/Calls/Refinement.antt =====
-- The handlers keep the promise of the calls.
use irwandhi_gitops_lab.Base.{
  ℕ, ◌≡◌, refl, sym, ◌∙◌, Bool, true, false, not, ◌&&◌, Option, none, some, [], ◌∷◌, arith, filter,
  Option-cases, Bool-cases, inl, inr, if◌then◌else◌,
}
use irwandhi_gitops_lab.Text.{Text, lit, eq_text, eq_text_refl, eq_text_iff}
use irwandhi_gitops_lab.Server.Store.{JobRow, find, update_where}
use irwandhi_gitops_lab.Server.Store.Laws.{
  find-update_where-other, find-update_where-same, find-filter-same, find-filter-other, find-none,
}
use irwandhi_gitops_lab.Server.Answer.{Answer}
use irwandhi_gitops_lab.Server.Jobs.{
  Jobs, is_owned, has_id, is_job_of, update_row, delete_row, set_fields, set_status, inserted,
  create_job, update_job, delete_job, set_job_status, pause_job, resume_job,
}
use irwandhi_gitops_lab.Server.Jobs.Calls.{Call, View, run, view, amend, promise, status_code}

-- No two rows have the same id.
abbrev pub IsKeyed : Jobs → Type 0
IsKeyed [] = Unit
IsKeyed (row ∷ rows) = (find (has_id row.id) rows ≡ none) × IsKeyed rows

-- A table and a status against a view and a status.
abbrev Agrees : Text → Jobs × ℕ → View × ℕ → Type 0
Agrees uid (jobs, code) (v, code') = ((id : Text) → view uid jobs id ≡ v id) × (code ≡ code')

module _ (uid id : Text) where
  job_of-id : (row : JobRow) → is_job_of uid id row ≡ true → row.id ≡ id
  unfolding is_job_of has_id
  job_of-id row h = (eq_text_iff row.id id).0 (ground arith)

  same_id :
      (s t : JobRow → Bool) (row : JobRow)
      → ((r : JobRow) → t r ≡ (is_job_of uid id r && s r))
      → is_job_of uid id row ≡ true
      → (r : JobRow) → t r ≡ true
      → has_id row.id r ≡ true
  unfolding has_id
  same_id s t row split e r h =
      (eq_text_iff r.id row.id).1 (job_of-id r (ground (arith, split r, h)) ∙ sym (job_of-id row e))

  -- At most one row has the id, so what is tested beside the id is tested of that row.
  find-tested :
      (s t : JobRow → Bool) (jobs : Jobs)
      → ((row : JobRow) → t row ≡ (is_job_of uid id row && s row))
      → IsKeyed jobs
      → find t jobs
        ≡ elim (view uid jobs id) [ none ↦ none | some row ↦ if s row then some row else none ]
  unfolding find view
  find-tested s t [] split keyed = refl
  find-tested s t (row ∷ rows) split (free, keyed) = elim (Bool-cases (is_job_of uid id row)) [
    | inl e ↦
        let later = find-none (has_id row.id) t rows (same_id s t row split e) free in
        ground (arith, later, split row, e)
    | inr e ↦ ground (arith, find-tested s t rows split keyed, split row, e)
  ]

  apart :
      (id' : Text) (s : JobRow → Bool)
      → eq_text id' id ≡ false
      → (row : JobRow) → is_job_of uid id' row ≡ true
      → (is_job_of uid id row && s row) ≡ false
  unfolding is_job_of has_id
  apart id' s ne row h =
      let same = (eq_text_iff row.id id').0 (ground (arith, h)) in rw (same, ne) refl

  abbrev answered : {A : Type 0} → Jobs × Answer A → Jobs × ℕ
  answered (jobs, answer) = (jobs, status_code answer)

  written :
      (s t : JobRow → Bool) (set : JobRow → JobRow) (jobs : Jobs) (row : JobRow)
      → ((row : JobRow) → t row ≡ (is_job_of uid id row && s row))
      → ((key : Text) (row : JobRow) → is_job_of uid key (set row) ≡ is_job_of uid key row)
      → view uid jobs id ≡ some row
      → s row ≡ true
      → (key : Text)
      → view uid (update_where t set jobs) key
        ≡ (if eq_text key id then some (set row) else view uid jobs key)
  unfolding view
  written s t set jobs row split keeps e allowed key = elim (Bool-cases (eq_text key id)) [
    | inl h ↦
        rw
          (
            h,
            (eq_text_iff key id).0 h,
            find-update_where-same (is_job_of uid id) s t set jobs split (keeps id),
            e,
            allowed,
          )
          refl
    | inr h ↦ rw h (
        find-update_where-other (is_job_of uid key) t set jobs
          (λ r own. split r ∙ apart key s h r own) (keeps key))
  ]

  amended :
      (s t : JobRow → Bool) (set : JobRow → JobRow) (missing : Text) (fault : Option Text)
      (jobs : Jobs)
      → ((row : JobRow) → t row ≡ (is_job_of uid id row && s row))
      → ((key : Text) (row : JobRow) → is_job_of uid key (set row) ≡ is_job_of uid key row)
      → IsKeyed jobs
      → Agrees uid
          (answered (update_row t set missing fault jobs))
          (amend id s (λ row. some (set row)) 200 fault (view uid jobs))
  unfolding update_row amend status_code
  amended s t set missing (some fault) jobs split keeps keyed = (λ key. refl, refl)
  amended s t set missing none jobs split keeps keyed = elim (Option-cases (view uid jobs id)) [
    | inl e ↦ rw (find-tested s t jobs split keyed, e, update_row, amend) (λ key. refl, refl)
    | inr (row, e) ↦ elim (Bool-cases (s row)) [
      | inl allowed ↦
          rw (find-tested s t jobs split keyed, e, allowed, update_row, amend)
            (written s t set jobs row split keeps e allowed, refl)
      | inr refused ↦
          rw (find-tested s t jobs split keyed, e, refused, update_row, amend) (λ key. refl, refl)
    ]
  ]

  gone :
      (jobs : Jobs) (key : Text)
      → view uid (filter (λ row. not (is_job_of uid id row)) jobs) key
        ≡ (if eq_text key id then none else view uid jobs key)
  unfolding view
  gone jobs key = elim (Bool-cases (eq_text key id)) [
    | inl h ↦ rw (h, (eq_text_iff key id).0 h) (find-filter-same (is_job_of uid id) jobs)
    | inr h ↦ rw h (
        find-filter-other (is_job_of uid key) (is_job_of uid id) jobs
          (λ r own. ground (arith, apart key (λ row. true) h r own)))
  ]

  removed :
      (fault : Option Text) (jobs : Jobs)
      → Agrees uid
          (answered (delete_row (is_job_of uid id) fault jobs))
          (amend id (λ row. true) (λ row. none) 204 fault (view uid jobs))
  unfolding delete_row amend status_code view
  removed (some fault) jobs = (λ key. refl, refl)
  removed none jobs = elim (Option-cases (view uid jobs id)) [
    | inl e ↦ rw (e, delete_row, amend) (λ key. refl, refl)
    | inr (row, e) ↦ rw (e, delete_row, amend) (gone jobs, refl)
  ]

  ne_sym : (key : Text) → eq_text key id ≡ false → eq_text id key ≡ false
  ne_sym key h = elim (Bool-cases (eq_text id key)) [
    | inl e ↦ let back = (eq_text_iff key id).1 (sym ((eq_text_iff id key).0 e)) in cc
    | inr e ↦ e
  ]

  created :
      (jobs : Jobs) (new : JobRow) (key : Text)
      → new.id ≡ id
      → new.user_id ≡ some uid
      → view uid (new ∷ jobs) key ≡ (if eq_text key id then some new else view uid jobs key)
  unfolding view find is_job_of has_id is_owned
  created jobs new key same own = elim (Bool-cases (eq_text key id)) [
    | inl h ↦ rw (h, (eq_text_iff key id).0 h, same, own, eq_text_refl id, eq_text_refl uid) refl
    | inr h ↦ let other = ne_sym key h in rw (h, same, other) refl
  ]

-- On a table without a repeated id, each call of an owner does what is promised of it on the map
-- from ids to the owner's jobs, and answers with the status that is promised.
pub run-refines :
    (uid : Text) (now : ℕ) (call : Call) (jobs : Jobs)
    → IsKeyed jobs
    → ((id : Text)
        → view uid (run uid now call jobs).0 id ≡ (promise uid now call (view uid jobs)).0 id)
      × (run uid now call jobs).1 ≡ (promise uid now call (view uid jobs)).1
unfolding run promise create_job update_job delete_job pause_job resume_job set_job_status
    status_code is_job_of has_id is_owned set_fields set_status inserted
run-refines uid now (Call.create id none fault) jobs keyed = (λ key. refl, refl)
run-refines uid now (Call.create id (some b) (some fault)) jobs keyed = (λ key. refl, refl)
run-refines uid now (Call.create id (some b) none) jobs keyed =
    (λ key. created uid id jobs _ key refl refl, refl)
run-refines uid now (Call.update id none fault) jobs keyed = (λ key. refl, refl)
run-refines uid now (Call.update id (some b) fault) jobs keyed =
    amended uid id (λ row. true) _ _ _ fault jobs (λ row. ground arith) (λ key row. refl) keyed
run-refines uid now (Call.remove id fault) jobs keyed = removed uid id fault jobs
run-refines uid now (Call.pause id fault) jobs keyed =
    amended uid id (λ row. eq_text row.status (lit "active")) _ _ _ fault jobs (λ row. refl)
      (λ key row. refl) keyed
run-refines uid now (Call.resume id fault) jobs keyed =
    amended uid id (λ row. eq_text row.status (lit "paused")) _ _ _ fault jobs (λ row. refl)
      (λ key row. refl) keyed
