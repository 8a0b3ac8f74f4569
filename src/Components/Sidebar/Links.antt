-- ===== src/Components/Sidebar/Links.antt =====
-- Where the links of the sidebar lead.
use irwandhi_gitops_lab.Base.{
  ℕ, suc, true, some, List, [], ◌∷◌, ◌≡◌, refl, arith, All, Bool-cases, inl, inr, if◌then◌else◌,
}
use irwandhi_gitops_lab.Text.{Text}
use irwandhi_gitops_lab.Session.{Auth, is_authenticated, is_admin}
use irwandhi_gitops_lab.Session.Guards.{protected_route, admin_route}
use irwandhi_gitops_lab.App.{Page, Router, path_of, visit, element}
use irwandhi_gitops_lab.Dom.{each}
use irwandhi_gitops_lab.Dom.Links.{links}
use irwandhi_gitops_lab.Components.Sidebar.{sidebar}

-- The pages that the sidebar offers.
abbrev pub offered : Auth → List Page
offered auth =
    Page.dashboard
    ∷ Page.jobs
    ∷ Page.new_job
    ∷ Page.report
    ∷ (if is_admin auth then Page.admin_jobs ∷ Page.admin_users ∷ [] else [])

abbrev paths_of : List Page → List Text
paths_of [] = []
paths_of (p ∷ ps) = path_of p ∷ paths_of ps

-- In a signed-in session the sidebar links to the paths of these pages, and a visit to any of them
-- ends there.
pub sidebar_lem :
    (M : Type 0) (router : Router) (auth : Auth) (fuel : ℕ)
    → is_authenticated auth ≡ true
    → (links (sidebar {M = M} auth) ≡ paths_of (offered auth))
      × All (λ p. visit router auth (suc fuel) p ≡ some p) (offered auth)
unfolding links sidebar each path_of visit element protected_route admin_route
sidebar_lem M router auth fuel h = elim (Bool-cases (is_admin auth)) [
  | inl admin ↦ rw admin (
    refl,
    (
      ground arith,
      (ground arith, (ground arith, (ground arith, (ground arith, (ground arith, tt))))),
    ),
  )
  | inr other ↦ rw other (refl, (ground arith, (ground arith, (ground arith, (ground arith, tt)))))
]
