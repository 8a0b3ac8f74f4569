-- ===== src/Text/Split.antt =====
-- White space, `trim`, and `split(/\s+/)`.
use irwandhi_gitops_lab.Base.{
  ℕ, ◌≡◌, refl, ◌≢◌, Bool, true, false, not, ◌&&◌, ◌||◌, List, [], ◌∷◌, ◌++◌, arith, leb, ◌==◌,
  if◌then◌else◌, is_empty, All, map, append_assoc, append-nil,
}
use irwandhi_gitops_lab.Text.Defs.{Text}

-- The white space and line terminators of the language: what `\s` matches and `trim` removes.
unfoldable pub is_space : ℕ → Bool
is_space c =
    leb 9 c && leb c 13
    || c == 32
    || c == 160
    || c == 0x1680
    || leb 0x2000 c && leb c 0x200a
    || c == 0x2028
    || c == 0x2029
    || c == 0x202f
    || c == 0x205f
    || c == 0x3000
    || c == 0xfeff

unfoldable pub trim_start : Text → Text
unfolding is_space
trim_start [] = []
trim_start (c ∷ s) = let rest = trim_start s in if is_space c then rest else c ∷ s

unfoldable pub trim_end : Text → Text
unfolding is_space
trim_end [] = []
trim_end (c ∷ s) = let rest = trim_end s in if is_space c && is_empty rest then [] else c ∷ rest

unfoldable pub trim : Text → Text
unfolding trim_start trim_end
trim s = trim_end (trim_start s)

-- The pieces between the runs of white space; `gap` says that the last unit was white space, and
-- `cur` is the piece read so far.
unfoldable pub split_from : Bool → Text → Text → List Text
split_from gap cur [] = cur ∷ []
split_from gap cur (c ∷ s) =
    let rest = split_from (is_space c) (if is_space c then [] else cur ++ c ∷ []) s in
    if is_space c && not gap then cur ∷ rest else rest

unfoldable pub split_space : Text → List Text
unfolding split_from is_space
split_space s = split_from false [] s

abbrev pub IsBlank : Text → Type 0
IsBlank s = All (λ c. is_space c ≡ true) s

abbrev pub IsGap : Text → Type 0
IsGap s = IsBlank s × (s ≢ [])

abbrev pub NoSpace : Text → Type 0
NoSpace s = All (λ c. is_space c ≡ false) s

-- A field: not empty, and free of white space.
abbrev pub IsWord : Text → Type 0
IsWord s = NoSpace s × (s ≢ [])

trim_start_blank : (s t : Text) → IsBlank s → trim_start (s ++ t) ≡ trim_start t
unfolding trim_start
trim_start_blank [] t h = refl
trim_start_blank (c ∷ s) t (h, hs) = rw h (trim_start_blank s t hs)

trim_start_word : (s t : Text) → IsWord s → trim_start (s ++ t) ≡ s ++ t
unfolding trim_start
trim_start_word [] t h = absurd (h.1 refl)
trim_start_word (c ∷ s) t h = rw h.0.0

trim_end_blank : (s : Text) → IsBlank s → trim_end s ≡ []
unfolding trim_end
trim_end_blank [] h = refl
trim_end_blank (c ∷ s) (h, hs) = rw (h, trim_end_blank s hs)

trim_end_trail : (s t : Text) → IsBlank t → trim_end (s ++ t) ≡ trim_end s
unfolding trim_end
trim_end_trail [] t h = trim_end_blank t h
trim_end_trail (c ∷ s) t h = rw (trim_end_trail s t h)

-- A text that does not end in white space.
abbrev IsSolid : Text → Type 0
IsSolid s = (trim_end s ≡ s) × (is_empty s ≡ false)

IsWord-IsSolid : (s : Text) → IsWord s → IsSolid s
unfolding trim_end
IsWord-IsSolid [] h = absurd (h.1 refl)
IsWord-IsSolid (c ∷ s) h = (go (c ∷ s) h.0, refl)
  where
    go : (s : Text) → NoSpace s → trim_end s ≡ s
    go [] h = refl
    go (c ∷ s) (h, hs) = rw (h, go s hs)

append-IsSolid : (s t : Text) → IsSolid t → IsSolid (s ++ t)
unfolding trim_end
append-IsSolid [] t h = h
append-IsSolid (c ∷ s) t h = let ih = append-IsSolid s t h in ground arith

split_from_letters :
    (cur w t : Text) → NoSpace w → split_from false cur (w ++ t) ≡ split_from false (cur ++ w) t
unfolding split_from
split_from_letters cur [] t h = rw append-nil
split_from_letters cur (c ∷ w) t (h, hs) =
    rw (h, split_from_letters (cur ++ c ∷ []) w t hs, append_assoc)

split_from_word :
    (gap : Bool) (w t : Text) → IsWord w → split_from gap [] (w ++ t) ≡ split_from false w t
unfolding split_from
split_from_word gap [] t h = absurd (h.1 refl)
split_from_word gap (c ∷ w) t h = rw h.0.0 (split_from_letters (c ∷ []) w t h.0.1)

split_from_blank : (g t : Text) → IsBlank g → split_from true [] (g ++ t) ≡ split_from true [] t
unfolding split_from
split_from_blank [] t h = refl
split_from_blank (c ∷ g) t (h, hs) = rw h (split_from_blank g t hs)

split_from_gap :
    (cur g t : Text) → IsGap g → split_from false cur (g ++ t) ≡ cur ∷ split_from true [] t
unfolding split_from
split_from_gap cur [] t h = absurd (h.1 refl)
split_from_gap cur (c ∷ g) t h = rw (h.0.0, split_from_blank g t h.0.1)

-- A first word, and further words, each behind its gap.
abbrev pub lay_tail : List (Text × Text) → Text
lay_tail [] = []
lay_tail ((g, w) ∷ r) = g ++ (w ++ lay_tail r)

abbrev pub lay_out : Text → List (Text × Text) → Text
lay_out w r = w ++ lay_tail r

abbrev pub IsLayout : List (Text × Text) → Type 0
IsLayout r = All (λ p. IsGap p.0 × IsWord p.1) r

lay_out-IsSolid :
    (w : Text) (r : List (Text × Text)) → IsWord w → IsLayout r → IsSolid (lay_out w r)
lay_out-IsSolid w [] h k = rw append-nil (IsWord-IsSolid w h)
lay_out-IsSolid w ((g, v) ∷ r) h ((_, hv), k) =
    append-IsSolid w _ (append-IsSolid g _ (lay_out-IsSolid v r hv k))

split_from-lay_tail :
    (w : Text) (r : List (Text × Text))
    → IsLayout r
    → split_from false w (lay_tail r) ≡ w ∷ map (λ p. p.1) r
split_from-lay_tail w [] k = unfold split_from in refl
split_from-lay_tail w ((g, v) ∷ r) ((hg, hv), k) = rw (
  split_from_gap w g (v ++ lay_tail r) hg,
  split_from_word true v (lay_tail r) hv,
  split_from-lay_tail v r k,
)

-- Trimming and splitting recovers the words of a layout, whatever white space lies around them.
pub split_space-trim-lay_out :
    (lead trail w : Text) (r : List (Text × Text))
    → IsBlank lead
    → IsBlank trail
    → IsWord w
    → IsLayout r
    → split_space (trim (lead ++ (lay_out w r ++ trail))) ≡ w ∷ map (λ p. p.1) r
unfolding split_space trim
split_space-trim-lay_out lead trail w r hl ht hw k = rw (
  trim_start_blank lead (lay_out w r ++ trail) hl,
  append_assoc w (lay_tail r) trail,
  trim_start_word w (lay_tail r ++ trail) hw,
  ← append_assoc w (lay_tail r) trail,
  trim_end_trail (lay_out w r) trail ht,
  (lay_out-IsSolid w r hw k).0,
  split_from_word false w (lay_tail r) hw,
  split_from-lay_tail w r k,
)
