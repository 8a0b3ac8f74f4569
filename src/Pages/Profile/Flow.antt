-- ===== src/Pages/Profile/Flow.antt =====
-- When the password form makes its request, and what it shows.
use irwandhi_gitops_lab.Base.{ℕ, ◌+◌, ◌-◌, ◌≤◌, true, false, [], ◌∷◌, ◌≡◌, ◌≢◌, refl, arith, length}
use irwandhi_gitops_lab.Text.{Text, lit, eq_text, eq_text_iff, ne_of_eq_text}
use irwandhi_gitops_lab.Api.Auth.{change_password}
use irwandhi_gitops_lab.Effects.{Effect, Failure}
use irwandhi_gitops_lab.Pages.Profile.{Page, Msg, blank, update}

mismatch-ne-nil : lit "New passwords do not match" ≢ []
mismatch-ne-nil = ne_of_eq_text _ [] (unfold lit eq_text in refl)

short-ne-nil : lit "New password must be at least 6 characters" ≢ []
short-ne-nil = ne_of_eq_text _ [] (unfold lit eq_text in refl)

-- A new password that the form accepts.
abbrev pub IsAccepted : Page → Type 0
IsAccepted p = (p.next ≡ p.confirm) × (6 ≤ length p.next)

-- Submitting an accepted new password sends the request with the two passwords, and shows neither
-- message; the fields stay.
pub submit-accepted :
    (p : Page)
    → IsAccepted p
    → let (p', effects) = update p Msg.submit in
      (effects ≡ Effect.call (change_password p.current p.next) ∷ [])
      × (p'.pending ≡ true)
      × (p'.field_error ≡ [])
      × (p'.success ≡ false)
      × (p'.current ≡ p.current)
      × (p'.next ≡ p.next)
      × (p'.confirm ≡ p.confirm)
unfolding update
submit-accepted p accepted = ground (arith, eq_text_iff p.next p.confirm)

-- Submitting any other new password sends nothing, starts no mutation and shows an error; the
-- fields stay.
pub submit-refused :
    (p : Page)
    → ¬ IsAccepted p
    → let (p', effects) = update p Msg.submit in
      (effects ≡ [])
      × (p'.pending ≡ p.pending)
      × (p'.field_error ≢ [])
      × (p'.success ≡ false)
      × (p'.current ≡ p.current)
      × (p'.next ≡ p.next)
      × (p'.confirm ≡ p.confirm)
unfolding update
submit-refused p refused =
    ground (arith, eq_text_iff p.next p.confirm, mismatch-ne-nil, short-ne-nil)

-- The page with the timers that its successes have started.
pub record World : Type 0 where
  pub page : Page
  pub timers : ℕ

abbrev react : World → Msg → Page
react w m = (update w.page m).0

-- The user submits only where the button is not disabled; an outcome needs a pending mutation, and
-- a timer runs out once.
pub data Step : World → World → Type 0 where
  current_typed :
      (w : World) (v : Text) → Step w (record w { page = react w (Msg.current_typed v) })
  next_typed : (w : World) (v : Text) → Step w (record w { page = react w (Msg.next_typed v) })
  confirm_typed :
      (w : World) (v : Text) → Step w (record w { page = react w (Msg.confirm_typed v) })
  submit : (w : World) → w.page.pending ≡ false → Step w (record w { page = react w Msg.submit })
  changed :
      (w : World)
      → w.page.pending ≡ true
      → Step w (record { page = react w Msg.changed; timers = w.timers + 1 })
  failed :
      (w : World) (err : Failure)
      → w.page.pending ≡ true
      → Step w (record w { page = react w (Msg.failed err) })
  timed_out :
      (w : World)
      → 1 ≤ w.timers
      → Step w (record { page = react w Msg.timed_out; timers = w.timers - 1 })

pub data Reach : World → Type 0 where
  start : Reach (record { page = blank; timers = 0 })
  next : {w v : World} → Reach w → Step w v → Reach v

pub record IsCalm (w : World) : Type 0 where
  pub one_message : w.page.success ≡ true → w.page.field_error ≡ []
  pub quiet_while_pending :
      w.page.pending ≡ true → (w.page.success ≡ false) × (w.page.field_error ≡ [])
  pub timed : w.page.success ≡ true → 1 ≤ w.timers

Step-IsCalm : {w v : World} → Step w v → IsCalm w → IsCalm v
unfolding update
Step-IsCalm (current_typed w v) i = ground arith
Step-IsCalm (next_typed w v) i = ground arith
Step-IsCalm (confirm_typed w v) i = ground arith
Step-IsCalm (submit w h) i = ground arith
Step-IsCalm (changed w h) i = ground arith
Step-IsCalm (failed w err h) i = ground arith
Step-IsCalm (timed_out w h) i = ground arith

-- The page never shows the success message beside an error, shows neither while a change is
-- pending, and shows the success message only while a timer will take it away.
pub Reach-IsCalm : {w : World} → Reach w → IsCalm w
unfolding blank
Reach-IsCalm start = ground arith
Reach-IsCalm (next r step) = Step-IsCalm step (Reach-IsCalm r)
