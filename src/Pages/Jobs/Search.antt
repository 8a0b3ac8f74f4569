-- ===== src/Pages/Jobs/Search.antt =====
-- Which jobs a search shows.
use mathlib.Core.List.{Memᴰ}
use irwandhi_gitops_lab.Base.{Bool, true, ◌||◌, List, ◌≡◌, ◌↔◌, ◌⊎◌, inl, inr, arith, mem-filter}
use irwandhi_gitops_lab.Text.{Text, Occurs, includes_iff}
use irwandhi_gitops_lab.Records.{Job}
use irwandhi_gitops_lab.Pages.Jobs.{Lowering, is_found, filtered}

or-cases : (a b : Bool) → a || b ≡ true → (a ≡ true) ⊎ (b ≡ true)
or-cases a b h = ground arith

module _ (l : Lowering) where
  open l use {lower}

  is_found_iff :
      (search : Text) (job : Job)
      → (is_found l search job ≡ true)
        ↔ (Occurs (lower search) (lower job.name) ⊎ Occurs (lower search) (lower job.url))
  unfolding is_found
  is_found_iff search job =
      let on_name = includes_iff (lower job.name) (lower search) in
      let on_url = includes_iff (lower job.url) (lower search) in
      (
        λ h. elim (or-cases _ _ h) [ inl p ↦ inl (on_name.0 p) | inr q ↦ inr (on_url.0 q) ],
        λ o. elim o [ inl p ↦ rw (on_name.1 p) | inr q ↦ let found = on_url.1 q in ground arith ],
      )

  -- A search shows exactly the jobs whose name or URL contains the text, letter case aside.
  pub mem-filtered :
      (search : Text) (jobs : List Job) (job : Job)
      → Memᴰ job (filtered l search jobs) ↔ (
          Memᴰ job jobs
          × (Occurs (lower search) (lower job.name) ⊎ Occurs (lower search) (lower job.url)))
  unfolding filtered
  mem-filtered search jobs job =
      let (to, from) = mem-filter (is_found l search) job jobs in
      let (found, find) = is_found_iff search job in
      (λ m. ((to m).0, found (to m).1), λ p. from (p.0, find p.1))
