-- ===== src/Text/Search.antt =====
-- `startsWith` and `includes`.
use irwandhi_gitops_lab.Base.{
  ◌≡◌, refl, ◌↔◌, Bool, true, false, ◌&&◌, ◌||◌, [], ◌∷◌, ◌++◌, arith, ◌==◌, Bool-cases, inl, inr,
  ap, is_empty,
}
use irwandhi_gitops_lab.Text.Defs.{Text}

-- `s.startsWith(t)`.
unfoldable pub starts_with : Text → Text → Bool
starts_with s [] = true
starts_with [] (b ∷ t) = false
starts_with (a ∷ s) (b ∷ t) = a == b && starts_with s t

-- `s.includes(t)`.
unfoldable pub includes : Text → Text → Bool
unfolding starts_with
includes [] t = is_empty t
includes (a ∷ s) t = starts_with (a ∷ s) t || includes s t

starts_with-split : (s t : Text) → starts_with s t ≡ true → (r : Text) × (s ≡ t ++ r)
unfolding starts_with
starts_with-split s [] h = (s, refl)
starts_with-split [] (b ∷ t) h = cc
starts_with-split (a ∷ s) (b ∷ t) h =
    let same : starts_with s t ≡ true = ground arith in
    let (r, e) = starts_with-split s t same in (r, ground arith)

pub starts_with-append : (t r : Text) → starts_with (t ++ r) t ≡ true
unfolding starts_with
starts_with-append [] r = refl
starts_with-append (b ∷ t) r = ground (arith, starts_with-append t r)

-- Where a text occurs in another.
abbrev pub Occurs : Text → Text → Type 0
Occurs t s = (before : Text) × (after : Text) × (s ≡ before ++ (t ++ after))

includes-Occurs : (s t : Text) → includes s t ≡ true → Occurs t s
unfolding includes
includes-Occurs [] [] h = ([], [], refl)
includes-Occurs [] (b ∷ t) h = cc
includes-Occurs (a ∷ s) t h = elim (Bool-cases (starts_with (a ∷ s) t)) [
  | inl here ↦ let (r, e) = starts_with-split (a ∷ s) t here in ([], r, e)
  | inr no_start ↦
      let (p, q, e) = includes-Occurs s t (rw no_start at h) in
      (a ∷ p, q, ap (λ (l : Text). a ∷ l) e)
]

includes_here : (t r : Text) → includes (t ++ r) t ≡ true
unfolding includes
includes_here [] [] = refl
includes_here [] (a ∷ r) = refl
includes_here (b ∷ t) r = rw (starts_with-append (b ∷ t) r)

includes_later : (p s t : Text) → includes s t ≡ true → includes (p ++ s) t ≡ true
unfolding includes
includes_later [] s t h = h
includes_later (a ∷ p) s t h = let ih = includes_later p s t h in ground arith

-- `includes` finds exactly the texts that occur.
pub includes_iff : (s t : Text) → (includes s t ≡ true) ↔ Occurs t s
includes_iff s t =
    (includes-Occurs s t, λ o. rw o.2 (includes_later o.0 (t ++ o.1) t (includes_here t o.1)))
