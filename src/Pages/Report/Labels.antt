-- ===== src/Pages/Report/Labels.antt =====
-- How many days of the bar chart get a label.
use native.Mathlib.Nat.{suc-mod, mod-lt, mod-eq_of_lt, mod_self, zero-mod, add-mul, mul-le-mul}
use irwandhi_gitops_lab.Base.{
  ℕ, suc, ◌+◌, ◌*◌, ◌%◌, ◌≤◌, ◌<◌, ◌≡◌, ◌≢◌, ◌⊎◌, inl, inr, ◌∙◌, ap, List, [], ◌∷◌, ◌++◌, length,
  arith, ◌==◌, if◌then◌else◌, ltb, Bool-cases,
}
use irwandhi_gitops_lab.Doubles.{Doubles}
use irwandhi_gitops_lab.Pages.Report.BarChart.{
  Day, Mark, max_total, label_step, failure_bar, success_bar, day_label, marks,
}

unfoldable pub count_labels : {d : Doubles} → List (Mark d) → ℕ
count_labels [] = 0
count_labels (Mark.rect x y w h fill ∷ ms) = count_labels ms
count_labels (Mark.label x y text ∷ ms) = suc (count_labels ms)

count_labels-append :
    {d : Doubles} (ms ns : List (Mark d))
    → count_labels (ms ++ ns) ≡ count_labels ms + count_labels ns
unfolding count_labels
count_labels-append [] ns = omega arith
count_labels-append (Mark.rect x y w h fill ∷ ms) ns = count_labels-append ms ns
count_labels-append (Mark.label x y text ∷ ms) ns = omega (arith, count_labels-append ms ns)

count_labels-failure_bar :
    (d : Doubles) (n m i : ℕ) (day : Day) → count_labels (failure_bar d n m i day) ≡ 0
unfolding failure_bar count_labels
count_labels-failure_bar d n m i day = ground arith

count_labels-success_bar :
    (d : Doubles) (n m i : ℕ) (day : Day) → count_labels (success_bar d n m i day) ≡ 0
unfolding success_bar count_labels
count_labels-success_bar d n m i day = ground arith

count_labels-marks :
    (d : Doubles) (n m i : ℕ) (day : Day) (data_ : List Day)
    → count_labels (marks d n m i (day ∷ data_))
      ≡ count_labels (day_label d n i day) + count_labels (marks d n m (suc i) data_)
unfolding marks
count_labels-marks d n m i day data_ =
    rw
      (
        count_labels-append (failure_bar d n m i day) _,
        count_labels-failure_bar d n m i day,
        count_labels-append (success_bar d n m i day) _,
        count_labels-success_bar d n m i day,
        count_labels-append (day_label d n i day) _,
      )
      (omega arith)

-- The remainder goes up by one, or from the last one back to zero.
suc-mod-cases :
    (i s : ℕ)
    → 1 ≤ s
    → ((suc (i % s) < s) × (suc i % s ≡ suc (i % s))) ⊎ ((suc (i % s) ≡ s) × (suc i % s ≡ 0))
suc-mod-cases i s pos = elim (Bool-cases (suc (i % s) == s)) [
  | inl e ↦
      let e' : suc (i % s) ≡ s = ground arith in
      inr (e', suc-mod i s ∙ (ap (λ a. a % s) e' ∙ mod_self s))
  | inr e ↦
      let ne : suc (i % s) ≢ s = ground arith in
      let lt : suc (i % s) < s = omega (arith, mod-lt i pos, ne) in
      inl (lt, suc-mod i s ∙ mod-eq_of_lt lt)
]

count_labels-day_label :
    (d : Doubles) (n i : ℕ) (day : Day)
    → count_labels (day_label d n i day) ≡ (if (i % label_step n) == 0 then 1 else 0)
unfolding day_label count_labels
count_labels-day_label d n i day = ground arith

-- How far the labels may be ahead of one in `s` days, at a day with the remainder `r`.
abbrev budget : ℕ → ℕ → ℕ
budget s r = if r == 0 then s else r

-- One day more, labelled if its remainder is zero, keeps within the budget.
budget_step :
    (c s len r r' : ℕ)
    → ((suc r < s) × (r' ≡ suc r)) ⊎ ((suc r ≡ s) × (r' ≡ 0))
    → suc (c * s) ≤ len + budget s r'
    → suc (((if r == 0 then 1 else 0) + c) * s) ≤ suc len + budget s r
budget_step c s len r r' next h =
    let more : (1 + c) * s ≡ s + c * s = omega (arith, add-mul 1 c s) in ground arith

marks_bound :
    (d : Doubles) (n m i : ℕ) (data_ : List Day)
    → 1 ≤ label_step n
    → suc (count_labels (marks d n m i data_) * label_step n)
      ≤ length data_ + budget (label_step n) (i % label_step n)
marks_bound d n m i [] pos = unfold marks count_labels in ground arith
marks_bound d n m i (day ∷ data_) pos =
    rw (count_labels-marks d n m i day data_, count_labels-day_label d n i day)
      (budget_step (count_labels (marks d n m (suc i) data_)) (label_step n) (length data_) _ _
        (suc-mod-cases i (label_step n) pos) (marks_bound d n m (suc i) data_ pos))

at_most_ten : (c s n : ℕ) → suc (c * s) ≤ n + s → n ≤ 10 * s → c ≤ 10
at_most_ten c s n h k = elim (Bool-cases (ltb 10 c)) [
  | inl e ↦
      let many : 11 ≤ c = ground arith in
      let product : 11 * s ≤ c * s = mul-le-mul many (omega arith) in omega arith
  | inr e ↦ ground arith
]

-- The chart labels at most ten days, however many it shows.
pub bar_chart_labels :
    (d : Doubles) (day : Day) (data_ : List Day)
    → let days = day ∷ data_ in count_labels (marks d (length days) (max_total days) 0 days) ≤ 10
bar_chart_labels d day data_ =
    let n = length (day ∷ data_) in
    let pos : 1 ≤ label_step n = unfold label_step in omega arith in
    let bound = marks_bound d n (max_total (day ∷ data_)) 0 (day ∷ data_) pos in
    let zero_mod : 0 % label_step n ≡ 0 = zero-mod (label_step n) in
    at_most_ten _ (label_step n) n (ground (arith, bound, zero_mod))
      (unfold label_step in omega arith)
