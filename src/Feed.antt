-- ===== src/Feed.antt =====
-- The outbound event feed: internal/storage/events.go, and the reads of handleEvents in
-- internal/server/events.go. The names that the query joins to an event are left out.
pub mod Delivery
pub mod Pruning
pub mod Examples
use codefort.Base.{
  ℕ, zero, suc, ◌+◌, String, Bool, true, false, ◌&&◌, ◌||◌, Option, none, some, List, [], ◌∷◌, ◌++◌,
  ◌==◌, nat_eq, string_eq, if◌then◌else◌, ltb, leb, select, delete, count, max_of, contains, ℤ, pos,
  negsuc,
}

pub record Event : Type 0 where
  pub seq : ℕ
  pub type_name : String
  pub repo_id : Option ℕ
  pub actor : String
  pub payload : String
  pub created_at : ℕ

-- `next_seq` is SQLite's counter for AUTOINCREMENT.
pub record EventLog : Type 0 where
  pub events : List Event
  pub next_seq : ℕ

-- A repository id of 0 is NULL.
pub append_event : EventLog → ℕ → String → ℕ → String → String → ℕ × EventLog
append_event l now event_type repo actor payload = (
  l.next_seq,
  record l {
    events =
        l.events
        ++ record {
          seq = l.next_seq;
          type_name = event_type;
          repo_id = if ltb 0 repo then some repo else none;
          actor = actor;
          payload = if payload == "" then "{}" else payload;
          created_at = now;
        }
          ∷ [];
    next_seq = suc l.next_seq;
  },
)

abbrev pub take {ℓ} : {A : Type ℓ} → ℕ → List A → List A
take zero xs = []
take (suc n) [] = []
take (suc n) (x ∷ xs) = x ∷ take n xs

-- e.repo_id = ?, for a repository that is given
abbrev pub in_repo : ℕ → Event → Bool
in_repo repo e = if ltb 0 repo then elim e.repo_id [ none ↦ false | some r ↦ r == repo ] else true

-- WHERE e.id > ? [AND e.repo_id = ?] ORDER BY e.id LIMIT ?
pub list_events_since : EventLog → ℕ → ℕ → ℕ → List Event
list_events_since l since repo limit =
    take (if limit == 0 then 500 else limit)
      (select (λ e. ltb since e.seq && in_repo repo e) l.events)

-- DELETE … WHERE id <= MAX(id) - keep, and the number of rows deleted
pub prune_events : EventLog → ℤ → ℕ × EventLog
prune_events l (negsuc k) = (0, l)
prune_events l (pos keep) =
    let old =
      λ (e : Event). leb (e.seq + keep) (max_of (λ _. true) (λ (x : Event). x.seq) l.events) in
    if keep == 0 then (0, l) else (count old l.events, record l { events = delete old l.events })

-- eventsBatch
abbrev pub events_batch : ℕ
events_batch = 500

-- The filter by types: an empty set lets all pass.
abbrev pub passes_types : List String → Event → Bool
passes_types [] e = true
passes_types (t ∷ ts) e = contains (t ∷ ts) e.type_name

-- lastSeq after a batch
abbrev pub last_seq : ℕ → List Event → ℕ
last_seq c [] = c
last_seq c (e ∷ es) = last_seq e.seq es

-- The loop of handleEvents: each round reads a batch behind the cursor from the log as it then is.
-- What is written to the client, and the cursor, which a client that reconnects sends back.
pub follow : ℕ → List String → List EventLog → ℕ → List Event × ℕ
unfolding list_events_since
follow repo types [] cursor = ([], cursor)
follow repo types (l ∷ ls) cursor =
    let batch = list_events_since l cursor repo events_batch in
    let (later, end_cursor) = follow repo types ls (last_seq cursor batch) in
    (select (passes_types types) batch ++ later, end_cursor)
