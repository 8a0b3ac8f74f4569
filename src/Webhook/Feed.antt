-- ===== src/Webhook/Feed.antt =====
-- A dashboard that keeps up shows what the receiver keeps.
use irwandhi_gitops_lab.Base.{
  ℕ, zero, suc, ◌≤◌, ◌<◌, ◌≡◌, refl, sym, ap, ◌∙◌, true, List, [], ◌∷◌, ◌++◌, arith, ltb, length,
  take, Bool-cases, inl, inr,
}
use irwandhi_gitops_lab.Text.{Text}
use irwandhi_gitops_lab.Webhook.{
  Entry, SlowEntry, max_entries, add, add_slow, remove_slow, Event, capacity, offer, captured,
  Dashboard, show, World, connect, receive, clear_history, begin_slow, end_slow,
}

-- The handlers run one after the other, each while the channel has room for its event; between them
-- events reach the dashboard in their order.
pub data Reach (start : World) : World → Type 0 where
  connected : Reach start (connect start)
  received :
      {w : World} (status : Text) (e : Entry)
      → Reach start w
      → length w.queue < capacity
      → Reach start (receive status e w)
  cleared : {w : World} → Reach start w → length w.queue < capacity → Reach start (clear_history w)
  slow_began :
      {w : World} (s : SlowEntry)
      → Reach start w
      → length w.queue < capacity
      → Reach start (begin_slow s w)
  slow_ended :
      {w : World} (id : Text)
      → Reach start w
      → length w.queue < capacity
      → Reach start (end_slow id w)
  delivered :
      {w : World} (event : Event) (rest : List Event)
      → Reach start w
      → w.queue ≡ event ∷ rest
      → Reach start (record w { queue = rest; dashboard = show event w.dashboard })

-- The dashboard once the events on their way have come.
unfoldable pub settled : List Event → Dashboard → Dashboard
settled [] d = d
settled (event ∷ queue) d = settled queue (show event d)

settled-last :
    (queue : List Event) (event : Event) (d : Dashboard)
    → settled (queue ++ event ∷ []) d ≡ show event (settled queue d)
unfolding settled
settled-last [] event d = refl
settled-last (first ∷ queue) event d = settled-last queue event (show first d)

take-take {ℓ} : {A : Type ℓ} (n : ℕ) (xs : List A) → take n (take (suc n) xs) ≡ take n xs
take-take zero xs = refl
take-take (suc n) [] = refl
take-take (suc n) (x ∷ xs) = ap (λ (ys : List _). x ∷ ys) (take-take n xs)

take-all {ℓ} : {A : Type ℓ} (n : ℕ) (xs : List A) → length xs ≤ n → take n xs ≡ xs
take-all zero [] h = refl
take-all zero (x ∷ xs) h = absurd (omega arith)
take-all (suc n) [] h = refl
take-all (suc n) (x ∷ xs) h = ap (λ (ys : List _). x ∷ ys) (take-all n xs (omega arith))

add-take : (e : Entry) (es : List Entry) → add e es ≡ take max_entries (e ∷ es)
unfolding add
add-take e es = elim (Bool-cases (ltb max_entries (suc (length es)))) [
  | inl full ↦ rw full refl
  | inr room ↦ rw room (sym (take-all max_entries (e ∷ es) (ground arith)))
]

-- What the receiver keeps is the last requests that the dashboard will show.
abbrev pub IsFaithful : World → Type 0
IsFaithful w =
    (w.entries ≡ take max_entries (settled w.queue w.dashboard).requests)
    × (w.slows ≡ (settled w.queue w.dashboard).active_slows)

offered :
    (event : Event) (w : World)
    → length w.queue < capacity
    → settled (offer event w.queue) w.dashboard ≡ show event (settled w.queue w.dashboard)
unfolding offer
offered event w room =
    let fits : ltb (length w.queue) capacity ≡ true = ground arith in
    rw fits (settled-last w.queue event w.dashboard)

module _ (start : World) (kept : length start.entries ≤ max_entries) where
  -- If a dashboard connects to a receiver that keeps at most 100 requests, and afterwards the handlers
  -- run one after the other and each finds room for its event in the dashboard's channel, then once
  -- the events on their way have come the dashboard shows exactly the slow requests that are running,
  -- and its newest 100 requests are exactly those that the receiver keeps.
  pub Reach-IsFaithful : {w : World} → Reach start w → IsFaithful w
  unfolding connect receive clear_history begin_slow end_slow settled show
  Reach-IsFaithful connected = (sym (take-all max_entries start.entries kept), refl)
  Reach-IsFaithful (received {w} status e reach room) =
      let ih = Reach-IsFaithful reach in
      let x = captured status e in
      let shown = (settled w.queue w.dashboard).requests in
      rw (offered (Event.request x) w room) (
        add-take x w.entries
            ∙ ap (λ (ys : List Entry). x ∷ take 99 ys) ih.0
            ∙ ap (λ (ys : List Entry). x ∷ ys) (take-take 99 shown),
        ih.1,
      )
  Reach-IsFaithful (cleared {w} reach room) =
      rw (offered Event.clear w room) (refl, (Reach-IsFaithful reach).1)
  Reach-IsFaithful (slow_began {w} s reach room) =
      let ih = Reach-IsFaithful reach in
      rw (offered (Event.slow_start s) w room) (ih.0, ap (add_slow s) ih.1)
  Reach-IsFaithful (slow_ended {w} id reach room) =
      let ih = Reach-IsFaithful reach in
      rw (offered (Event.slow_end id) w room) (ih.0, ap (remove_slow id) ih.1)
  Reach-IsFaithful (delivered {w} event rest reach queued) =
      let ih = Reach-IsFaithful reach in
      let same : settled w.queue w.dashboard ≡ settled rest (show event w.dashboard) =
        ap (λ q. settled q w.dashboard) queued in
      (
        ih.0 ∙ ap (λ (d : Dashboard). take max_entries d.requests) same,
        ih.1 ∙ ap (λ (d : Dashboard). d.active_slows) same,
      )
