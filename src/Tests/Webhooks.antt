-- ===== src/Tests/Webhooks.antt =====
-- The receiver and its dashboard at a concrete input.
use irwandhi_gitops_lab.Base.{[], ◌∷◌, arith}
use irwandhi_gitops_lab.Text.{lit}
use irwandhi_gitops_lab.Webhook.{Entry, SlowEntry, World, connect, receive, begin_slow, offer}
use irwandhi_gitops_lab.Webhook.Feed as Feed
use irwandhi_gitops_lab.Webhook.Feed.{IsFaithful, Reach-IsFaithful}

abbrev ping : Entry
ping = record {
  id = lit "a1";
  method = lit "GET";
  path = lit "/ping";
  query = [];
  headers = [];
  body = [];
  timestamp = 7;
  responded_with = 200;
}

abbrev slow : SlowEntry
slow = record { id = lit "b2"; delay_sec = 10; started_at = 9 }

-- A receiver that keeps one request.
abbrev before : World
before = record {
  entries = ping ∷ [];
  slows = [];
  queue = [];
  dashboard = record { requests = []; active_slows = [] };
}

abbrev after : World
after = begin_slow slow (receive (lit "503") (record ping { id = lit "a2" }) (connect before))

after-Reach : Feed.Reach before after
unfolding receive connect offer
after-Reach =
    Feed.Reach.slow_began slow
      (Feed.Reach.received (lit "503") (record ping { id = lit "a2" }) Feed.Reach.connected
        (omega arith))
      (omega arith)

Reach-IsFaithful_example : IsFaithful after
Reach-IsFaithful_example = Reach-IsFaithful before (omega arith) after-Reach
