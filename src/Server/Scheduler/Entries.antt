-- ===== src/Server/Scheduler/Entries.antt =====
-- The map of entries.
use irwandhi_gitops_lab.Base.{
  ◌≡◌, ◌≢◌, ◌⊎◌, refl, sym, Option, none, some, [], ◌∷◌, arith, filter, Bool-cases, inl, inr,
}
use irwandhi_gitops_lab.Text.{Text, eq_text, eq_text_refl, eq_text_iff}
use irwandhi_gitops_lab.Server.Scheduler.{Entry, Entries, lookup, delete}

pub lookup-delete : (id : Text) (es : Entries) → lookup id (delete id es) ≡ none
unfolding lookup delete filter
lookup-delete id [] = refl
lookup-delete id ((key, e) ∷ es) = ground (arith, lookup-delete id es)

pub lookup-delete-other :
    (id id' : Text) (es : Entries) → id' ≢ id → lookup id' (delete id es) ≡ lookup id' es
unfolding lookup delete filter
lookup-delete-other id id' [] ne = refl
lookup-delete-other id id' ((key, e) ∷ es) ne = elim (Bool-cases (eq_text key id)) [
  | inl h ↦
      let same = (eq_text_iff key id).0 h in
      rw h (ground (arith, lookup-delete-other id id' es ne, (eq_text_iff key id').0))
  | inr h ↦ rw h (ground (arith, lookup-delete-other id id' es ne))
]

pub lookup-put :
    (id : Text) (e : Entry) (es : Entries) → lookup id ((id, e) ∷ delete id es) ≡ some e
unfolding lookup
lookup-put id e es = rw (eq_text_refl id) refl

pub lookup-put-other :
    (id id' : Text) (e : Entry) (es : Entries)
    → id' ≢ id
    → lookup id' ((id, e) ∷ delete id es) ≡ lookup id' es
unfolding lookup
lookup-put-other id id' e es ne = elim (Bool-cases (eq_text id id')) [
  | inl h ↦ absurd (ne (sym ((eq_text_iff id id').0 h)))
  | inr h ↦ rw h (lookup-delete-other id id' es ne)
]

pub Text-cases : (s t : Text) → (s ≡ t) ⊎ (s ≢ t)
Text-cases s t = elim (Bool-cases (eq_text s t)) [
  | inl h ↦ inl ((eq_text_iff s t).0 h)
  | inr h ↦ inr (λ e. let hit = (eq_text_iff s t).1 e in cc)
]

pub clash {ℓ} : {A : Type ℓ} {o : Option A} {a : A} → o ≡ none → o ≡ some a → ⊥
clash {o = none} e h = cc
clash {o = some b} e h = cc

pub agree {ℓ} : {A : Type ℓ} {o : Option A} {a b : A} → o ≡ some a → o ≡ some b → a ≡ b
agree e h = cc
