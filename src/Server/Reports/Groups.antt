-- ===== src/Server/Reports/Groups.antt =====
-- The groups of the timeline's query count the executions of their days.
use irwandhi_gitops_lab.Base.{
  ℕ, ◌≡◌, refl, ◌∙◌, Bool, true, false, ◌&&◌, Option, none, some, List, [], ◌∷◌, arith,
  if◌then◌else◌, ◌==◌, filter, inl, inr, Bool-cases,
}
use irwandhi_gitops_lab.Text.{Text, lit, eq_text}
use irwandhi_gitops_lab.Server.Store.{ExecutionRow, find, count_where}
use irwandhi_gitops_lab.Server.Executor.{Executions}
use irwandhi_gitops_lab.Server.Reports.Timeline.{
  day_of, Group, empty_group, counted, add, group_by_day,
}

abbrev pub of_day : ℕ → Group → Bool
of_day d g = g.day == d

abbrev pub or_empty : ℕ → Option Group → Group
or_empty d none = empty_group d
or_empty d (some g) = g

-- The group of a day after one more execution.
find-add :
    (d : ℕ) (e : ExecutionRow) (gs : List Group)
    → find (of_day d) (add e gs) ≡ (
        if day_of e == d
        then some (counted e (or_empty d (find (of_day d) gs)))
        else find (of_day d) gs)
unfolding find add counted empty_group
find-add d e [] = ground arith
find-add d e (g ∷ gs) = ground (arith, find-add d e gs)

pub find_first :
    (d : ℕ) (g : Group) (gs : List Group) → (g.day == d) ≡ true → find (of_day d) (g ∷ gs) ≡ some g
unfolding find
find_first d g gs same = rw same refl

pub find_rest :
    (d : ℕ) (g : Group) (gs : List Group)
    → (g.day == d) ≡ false
    → find (of_day d) (g ∷ gs) ≡ find (of_day d) gs
unfolding find
find_rest d g gs other = rw other refl

-- No day has two groups.
abbrev pub IsDistinct : List Group → Type 0
IsDistinct [] = Unit
IsDistinct (g ∷ gs) = (find (of_day g.day) gs ≡ none) × IsDistinct gs

add-IsDistinct : (e : ExecutionRow) (gs : List Group) → IsDistinct gs → IsDistinct (add e gs)
unfolding add find counted
add-IsDistinct e [] h = (refl, tt)
add-IsDistinct e (g ∷ gs) (h, hs) = elim (Bool-cases (g.day == day_of e)) [
  | inl same ↦ rw same (h, hs)
  | inr other ↦ rw other (find-add g.day e gs ∙ ground arith, add-IsDistinct e gs hs)
]

pub group_by_day-IsDistinct : (es : Executions) → IsDistinct (group_by_day es)
unfolding group_by_day
group_by_day-IsDistinct [] = tt
group_by_day-IsDistinct (e ∷ es) = add-IsDistinct e (group_by_day es) (group_by_day-IsDistinct es)

-- An execution of a day, and one that has a status too.
abbrev pub on : ℕ → ExecutionRow → Bool
on d e = day_of e == d

abbrev pub on_with : ℕ → Text → ExecutionRow → Bool
on_with d status e = day_of e == d && eq_text e.status status

abbrev pub counts : ℕ → Executions → Group
counts d es = record {
  day = d;
  success = count_where (on_with d (lit "success")) es;
  failure = count_where (on_with d (lit "failure")) es;
  total = count_where (on d) es;
}

counts_on :
    (d : ℕ) (e : ExecutionRow) (es : Executions)
    → (day_of e == d) ≡ true
    → counted e (counts d es) ≡ counts d (e ∷ es)
unfolding counted count_where
counts_on d e es same = rw same (ground arith)

counts_off :
    (d : ℕ) (e : ExecutionRow) (es : Executions)
    → (day_of e == d) ≡ false
    → counts d es ≡ counts d (e ∷ es)
unfolding count_where
counts_off d e es other = rw other (ground arith)

pub group_by_day-counts :
    (d : ℕ) (es : Executions) → or_empty d (find (of_day d) (group_by_day es)) ≡ counts d es
unfolding group_by_day
group_by_day-counts d [] = unfold find in unfold empty_group in unfold count_where in refl
group_by_day-counts d (e ∷ es) = elim (Bool-cases (day_of e == d)) [
  | inl same ↦
      rw (find-add d e (group_by_day es), same, group_by_day-counts d es) (counts_on d e es same)
  | inr other ↦
      rw (find-add d e (group_by_day es), other)
        (group_by_day-counts d es ∙ counts_off d e es other)
]

-- Executions that a filter drops on other days only are counted all the same.
pub count_where-filter :
    (test keep : ExecutionRow → Bool) (es : Executions)
    → ((e : ExecutionRow) → test e ≡ true → keep e ≡ true)
    → count_where test (filter keep es) ≡ count_where test es
unfolding count_where filter
count_where-filter test keep [] h = refl
count_where-filter test keep (e ∷ es) h = ground (arith, count_where-filter test keep es h, h e)
