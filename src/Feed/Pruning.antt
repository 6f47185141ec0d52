-- ===== src/Feed/Pruning.antt =====
-- PruneEvents keeps a bounded feed of the newest events.
use codefort.Base.{
  ℕ, ◌+◌, ◌<◌, ◌≤◌, Bool, true, false, not, List, [], ◌∷◌, ◌≡◌, refl, ◌==◌, nat_eq, leb, select,
  delete, count, max_of, length, All, All-map, All-delete, Ascending, Ascending-delete, Bool-cases,
  inl, inr, arith, pos,
}
use codefort.Feed.{Event, EventLog, prune_events}
use codefort.Feed.Delivery.{seq_of}

abbrev pub newest : List Event → ℕ
newest es = max_of (λ _. true) seq_of es

newest-bound : (es : List Event) → All (λ e. e.seq ≤ newest es) es
newest-bound [] = tt
newest-bound (e ∷ es) = (
  omega arith,
  All-map (λ x. x.seq ≤ newest es) (λ x. x.seq ≤ newest (e ∷ es)) es (λ x l. omega (arith, l))
      (newest-bound es),
)

length_below :
    (low high : ℕ) (es : List Event)
    → low ≤ high
    → Ascending seq_of es
    → All (λ e. low < e.seq) es
    → All (λ e. e.seq ≤ high) es
    → length es + low ≤ high
length_below low high [] h a b c = omega arith
length_below low high (e ∷ es) h a b c =
    omega (arith, length_below e.seq high es c.0 a.1 a.0 c.1, b.0)

-- What a deletion leaves, and how much it deletes.
left_over :
    (p : Event → Bool) (es : List Event)
    → (delete p es ≡ select (λ e. not (p e)) es) × (count p es + length (delete p es) ≡ length es)
left_over p [] = (refl, omega arith)
left_over p (e ∷ es) = ground (arith, left_over p es)

length_within :
    (high keep : ℕ) (es : List Event)
    → Ascending seq_of es
    → All (λ e. high < e.seq + keep) es
    → All (λ e. e.seq ≤ high) es
    → length es ≤ keep
length_within high keep [] a b c = omega arith
length_within high keep (e ∷ es) a b c =
    omega (arith, length_below e.seq high es c.0 a.1 a.0 c.1, b.0)

abbrev pub is_old : ℕ → ℕ → Event → Bool
is_old high keep e = leb (e.seq + keep) high

recent :
    (high keep : ℕ) (es : List Event)
    → All (λ e. high < e.seq + keep) (delete (is_old high keep) es)
recent high keep [] = tt
recent high keep (e ∷ es) = elim (Bool-cases (is_old high keep e)) [
  | inl old ↦ rw old (recent high keep es)
  | inr new ↦ rw new (ground arith, recent high keep es)
]

-- With a positive limit and sequence numbers that ascend, pruning leaves at most that many events,
-- exactly those within the limit of the newest, in their order, and reports how many it deleted.
pub prune_events-newest :
    (l : EventLog) (keep : ℕ)
    → 0 < keep
    → Ascending seq_of l.events
    → (length (prune_events l (pos keep)).1.events ≤ keep)
      × ((prune_events l (pos keep)).1.events
          ≡ select (λ e. not (is_old (newest l.events) keep e)) l.events)
      × ((prune_events l (pos keep)).0 + length (prune_events l (pos keep)).1.events
          ≡ length l.events)
unfolding prune_events
prune_events-newest l keep positive a =
    let old = is_old (newest l.events) keep in
    let (selected, counted) = left_over old l.events in
    let bound =
      length_within (newest l.events) keep (delete old l.events)
        (Ascending-delete seq_of old l.events a) (recent (newest l.events) keep l.events)
        (All-delete (λ e. e.seq ≤ newest l.events) old l.events (newest-bound l.events)) in
    let kept : (keep == 0) ≡ false = ground arith in
    rw (prune_events, kept) (bound, selected, counted)
