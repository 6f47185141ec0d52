-- ===== src/Feed/Examples.antt =====
-- Examples for the feed: two events, of which the second read finds the second.
use codefort.Base.{ℕ, ◌+◌, ◌≤◌, not, some, [], ◌∷◌, ◌≡◌, refl, arith, select, length, pos}
use codefort.Feed.{Event, EventLog, prune_events, follow}
use codefort.Feed.Delivery.{asked_between, follow_delivers}
use codefort.Feed.Pruning.{is_old, newest, prune_events-newest}

abbrev push_event : ℕ → Event
push_event n = record {
  seq = n;
  type_name = "push";
  repo_id = some 1;
  actor = "ann";
  payload = "{}";
  created_at = 10;
}

abbrev before : EventLog
before = record { events = push_event 4 ∷ []; next_seq = 5 }

abbrev after : EventLog
after = record { events = push_event 4 ∷ push_event 6 ∷ []; next_seq = 7 }

follow_delivers_example :
    (0 ≤ (follow 1 ("push" ∷ []) (before ∷ after ∷ []) 0).1)
    × ((follow 1 ("push" ∷ []) (before ∷ after ∷ []) 0).0
        ≡ select
            (asked_between 1 ("push" ∷ []) 0 (follow 1 ("push" ∷ []) (before ∷ after ∷ []) 0).1)
            after.events)
follow_delivers_example =
    follow_delivers after 1 0 ("push" ∷ []) (before ∷ after ∷ []) (omega arith) (
      record { since = push_event 6 ∷ []; grown = refl },
      (record { since = []; grown = refl }, tt),
    )

prune_events-newest_example :
    (length (prune_events after (pos 1)).1.events ≤ 1)
    × ((prune_events after (pos 1)).1.events
        ≡ select (λ e. not (is_old (newest after.events) 1 e)) after.events)
    × ((prune_events after (pos 1)).0 + length (prune_events after (pos 1)).1.events
        ≡ length after.events)
prune_events-newest_example = prune_events-newest after 1 (omega arith) (omega arith)
