-- ===== src/Webhook.antt =====
-- apps/cron-webhook: the receiver of main.go, which keeps the last requests and tells its dashboard of
-- them, and the script of public/index.html, which shows them.
pub mod Feed
use irwandhi_gitops_lab.Base.{
  ℕ, ◌≡◌, Bool, not, ◌&&◌, List, [], ◌∷◌, ◌++◌, if◌then◌else◌, ltb, leb, length, take, filter,
}
use irwandhi_gitops_lab.Text.{Text, lit, eq_text}
use irwandhi_gitops_lab.Server.Query.{ℤ, atoi}

pub record Entry : Type 0 where
  pub id : Text
  pub method : Text
  pub path : Text
  pub query : List (Text × Text)
  pub headers : List (Text × Text)
  pub body : Text
  pub timestamp : ℕ
  pub responded_with : ℕ

pub record SlowEntry : Type 0 where
  pub id : Text
  pub delay_sec : ℕ
  pub started_at : ℕ

abbrev pub max_entries : ℕ
max_entries = 100

-- `add` of the store.
unfoldable pub add : Entry → List Entry → List Entry
add e entries =
    let all = e ∷ entries in if ltb max_entries (length all) then take max_entries all else all

-- `add` and `remove` of the slow store; a map by ids.
unfoldable pub remove_slow : Text → List SlowEntry → List SlowEntry
remove_slow id slows = filter (λ s. not (eq_text s.id id)) slows

unfoldable pub add_slow : SlowEntry → List SlowEntry → List SlowEntry
unfolding remove_slow
add_slow s slows = remove_slow s.id slows ++ s ∷ []

pub data Event : Type 0 where
  request : Entry → Event
  clear : Event
  slow_start : SlowEntry → Event
  slow_end : Text → Event

-- The capacity of a dashboard's channel.
abbrev pub capacity : ℕ
capacity = 8

-- `broadcast` to one channel: an event that does not fit is dropped.
unfoldable pub offer : Event → List Event → List Event
offer event queue = if ltb (length queue) capacity then queue ++ event ∷ [] else queue

-- The status that a request asks for by `__status`, and the delay of `/slow`.
unfoldable pub status_code : ℤ → ℕ
status_code (ℤ.pos n) = if leb 100 n && ltb n 600 then n else 200
status_code (ℤ.negsuc n) = 200

unfoldable pub delay_of : ℤ → ℕ
delay_of (ℤ.pos n) = if leb 1 n && leb n 120 then n else 5
delay_of (ℤ.negsuc n) = 5

-- The entry of a request that is captured; `status` is `__status` in its query, empty without one.
unfoldable pub captured : Text → Entry → Entry
unfolding status_code atoi
captured status e = record e { responded_with = status_code (atoi status) }

-- What the dashboard shows.
pub record Dashboard : Type 0 where
  pub requests : List Entry
  pub active_slows : List SlowEntry

-- `onmessage` on an event.
unfoldable pub show : Event → Dashboard → Dashboard
unfolding add_slow remove_slow
show (Event.request e) d = record d { requests = e ∷ d.requests }
show Event.clear d = record d { requests = [] }
show (Event.slow_start s) d = record d { active_slows = add_slow s d.active_slows }
show (Event.slow_end id) d = record d { active_slows = remove_slow id d.active_slows }

-- The receiver, and one dashboard with the channel that it is subscribed by.
pub record World : Type 0 where
  pub entries : List Entry
  pub slows : List SlowEntry
  pub queue : List Event
  pub dashboard : Dashboard

-- `/__events`: the `init` message is made, and the dashboard is subscribed.
unfoldable pub connect : World → World
connect w = record w {
  queue = [];
  dashboard = record { requests = w.entries; active_slows = w.slows };
}

-- The handlers, each with its broadcast.
unfoldable pub receive : Text → Entry → World → World
unfolding add offer captured
receive status e w = record w {
  entries = add (captured status e) w.entries;
  queue = offer (Event.request (captured status e)) w.queue;
}

unfoldable pub clear_history : World → World
unfolding offer
clear_history w = record w { entries = []; queue = offer Event.clear w.queue }

unfoldable pub begin_slow : SlowEntry → World → World
unfolding add_slow offer
begin_slow s w = record w { slows = add_slow s w.slows; queue = offer (Event.slow_start s) w.queue }

unfoldable pub end_slow : Text → World → World
unfolding remove_slow offer
end_slow id w = record w {
  slows = remove_slow id w.slows;
  queue = offer (Event.slow_end id) w.queue;
}
