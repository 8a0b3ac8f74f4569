-- ===== src/Tests/Timetables.antt =====
-- The worker's timetable at concrete inputs, on a cron that keeps its entries in a list.
use mathlib.Core.List.{Memᴰ}
use mathlib.Core.Path.{subst}
use irwandhi_gitops_lab.Base.{
  ℕ, zero, suc, ◌≡◌, ◌≢◌, refl, ap, Option, none, some, List, [], ◌∷◌, ◌++◌, arith, filter, length,
  is_empty, Bool-cases, inl, inr, if◌then◌else◌,
}
use irwandhi_gitops_lab.Text.{Text, lit, eq_text}
use irwandhi_gitops_lab.Server.Store.{JobRow, find}
use irwandhi_gitops_lab.Server.Jobs.{inserted}
use irwandhi_gitops_lab.Server.Scheduler.{Cron, Entry, Scheduler, lookup, active_rows, sync}
use irwandhi_gitops_lab.Server.Scheduler.Entries.{clash, agree}
use irwandhi_gitops_lab.Server.Scheduler.Tidy.{IsTidy}
use irwandhi_gitops_lab.Server.Scheduler.Turns.{Reach, Reach-IsTidy}
use irwandhi_gitops_lab.Server.Scheduler.Freshness.{IsAccepted, IsServed, sync-IsServed}
use irwandhi_gitops_lab.Server.Scheduler.Staleness.{stale_callback}

abbrev Slots : Type 0
Slots = List (Option JobRow)

slot : Slots → ℕ → Option JobRow
slot [] n = none
slot (x ∷ xs) zero = x
slot (x ∷ xs) (suc n) = slot xs n

clear : ℕ → Slots → Slots
clear n [] = []
clear zero (x ∷ xs) = none ∷ xs
clear (suc n) (x ∷ xs) = x ∷ clear n xs

slot-length : (xs : Slots) → slot xs (length xs) ≡ none
unfolding slot
slot-length [] = refl
slot-length (x ∷ xs) = slot-length xs

slot-snoc : (xs : Slots) (job : JobRow) → slot (xs ++ some job ∷ []) (length xs) ≡ some job
unfolding slot
slot-snoc [] job = refl
slot-snoc (x ∷ xs) job = slot-snoc xs job

slot-snoc-other :
    (xs : Slots) (job : JobRow) (n : ℕ) → n ≢ length xs → slot (xs ++ some job ∷ []) n ≡ slot xs n
unfolding slot
slot-snoc-other [] job zero ne = absurd (ne refl)
slot-snoc-other [] job (suc n) ne = refl
slot-snoc-other (x ∷ xs) job zero ne = refl
slot-snoc-other (x ∷ xs) job (suc n) ne = slot-snoc-other xs job n (λ e. ne (ap suc e))

slot-clear : (n : ℕ) (xs : Slots) → slot (clear n xs) n ≡ none
unfolding slot clear
slot-clear n [] = refl
slot-clear zero (x ∷ xs) = refl
slot-clear (suc n) (x ∷ xs) = slot-clear n xs

slot-clear-other : (k n : ℕ) (xs : Slots) → n ≢ k → slot (clear k xs) n ≡ slot xs n
unfolding slot clear
slot-clear-other k n [] ne = refl
slot-clear-other zero zero (x ∷ xs) ne = absurd (ne refl)
slot-clear-other zero (suc n) (x ∷ xs) ne = refl
slot-clear-other (suc k) zero (x ∷ xs) ne = refl
slot-clear-other (suc k) (suc n) (x ∷ xs) ne = slot-clear-other k n xs (λ e. ne (ap suc e))

abbrev add : Text → JobRow → Slots → Option (ℕ × Slots)
add expr job t = if is_empty job.cron_expression then none else some (length t, t ++ some job ∷ [])

add-new :
    (expr : Text) (job : JobRow) (t t' : Slots) (k : ℕ)
    → add expr job t ≡ some (k, t')
    → (slot t k ≡ none) × (slot t' k ≡ some job) × ((n : ℕ) → n ≢ k → slot t' n ≡ slot t n)
add-new expr job t t' k e = elim (Bool-cases (is_empty job.cron_expression)) [
  | inl h ↦ absurd (clash refl (rw h at e))
  | inr h ↦
      subst
        (λ q.
          (slot t q.0 ≡ none)
          × (slot q.1 q.0 ≡ some job)
          × ((n : ℕ) → n ≢ q.0 → slot q.1 n ≡ slot t n))
        (agree refl (rw h at e)) (slot-length t, slot-snoc t job, slot-snoc-other t job)
]

abbrev cron : Cron
cron = record {
  Table = Slots;
  add_func = add;
  remove = clear;
  runner = slot;
  add_func-new = add-new;
  remove-gone = λ k t. (slot-clear k t, λ n ne. slot-clear-other k n t ne);
}

abbrev nightly : JobRow
nightly = inserted (lit "ann") (lit "j1") 5 (record {
  name = lit "nightly";
  description = [];
  cron_expression = lit "0 2 * * *";
  url = lit "https://example.org";
  method = lit "GET";
  headers = [];
  body = none;
  timezone = lit "UTC";
  timeout_seconds = 30;
  concurrency_policy = lit "Replace";
})

abbrev moved : JobRow
moved = record nightly { cron_expression = lit "0 3 * * *"; updated_at = 7 }

nightly-IsAccepted : IsAccepted cron nightly
unfolding inserted lit
nightly-IsAccepted t e = cc e

abbrev idle : Scheduler cron
idle = record { table = []; entries = []; cancelled = [] }

idle-Reach : Reach cron idle
unfolding slot
idle-Reach = Reach.start [] (λ k. refl)

abbrev rows : List (ℕ × JobRow)
rows = (8, nightly) ∷ []

Reach-IsTidy_example : IsTidy cron (sync cron (some rows) idle)
Reach-IsTidy_example = Reach-IsTidy cron (Reach.synced (some rows) idle-Reach)

abbrev both : List (ℕ × JobRow)
both = (6, record nightly { id = lit "j2" }) ∷ rows

nightly-active : active_rows rows ≡ rows
unfolding active_rows filter inserted eq_text lit
nightly-active = refl

sync-IsServed_example : IsServed cron nightly idle (sync cron (some rows) idle)
unfolding find
sync-IsServed_example =
    sync-IsServed cron 8 nightly rows idle (rw nightly-active (refl, tt))
      (rw nightly-active (Memᴰ.head refl)) nightly-IsAccepted (Reach-IsTidy cron idle-Reach)

stale_callback_example :
    (e : Entry) × (lookup nightly.id
        (sync cron (some ((9, moved) ∷ [])) (sync cron (some rows) idle)).entries
      ≡ some e)
    × (cron.runner (sync cron (some ((9, moved) ∷ [])) (sync cron (some rows) idle)).table e.cron_id
        ≡ some nightly)
unfolding inserted
stale_callback_example =
    stale_callback cron 8 9 nightly moved [] [] nightly-IsAccepted refl refl refl (omega arith)
