-- ===== src/Feed/Delivery.antt =====
-- A client of the feed gets every event once, in order, however the reads fall.
use codefort.Base.{
  ℕ, zero, suc, ◌<◌, ◌≤◌, String, Bool, true, false, ◌&&◌, List, [], ◌∷◌, ◌++◌, ◌≡◌, refl, sym, ◌∙◌,
  ap, nat_eq, ltb, leb, select, All, All-map, Ascending, Bool-cases, inl, inr, arith,
}
use codefort.Feed.{
  Event, EventLog, take, in_repo, list_events_since, events_batch, passes_types, last_seq, follow,
}

abbrev pub seq_of : Event → ℕ
seq_of e = e.seq

select_nothing : (q : Event → Bool) (xs : List Event) → All (λ e. q e ≡ false) xs → select q xs ≡ []
select_nothing q [] h = refl
select_nothing q (x ∷ xs) h = ground (arith, h.0, select_nothing q xs h.1)

select-select :
    (p q : Event → Bool) (xs : List Event) → select p (select q xs) ≡ select (λ e. q e && p e) xs
select-select p q [] = refl
select-select p q (x ∷ xs) = ground (arith, select-select p q xs)

last_seq-ge :
    (d : ℕ) (xs : List Event) → Ascending seq_of xs → All (λ e. d < e.seq) xs → d ≤ last_seq d xs
last_seq-ge d [] a h = omega arith
last_seq-ge d (x ∷ xs) a h = omega (arith, last_seq-ge x.seq xs a.1 a.0, h.0)

-- A batch that was cut at a limit is everything up to its last event.
module _ (q : Event → Bool) where
  abbrev Beyond : ℕ → Event → Type 0
  Beyond d e = q e ≡ true → d < e.seq

  none_up_to :
      (d : ℕ) (xs : List Event) → All (Beyond d) xs → select (λ e. q e && leb e.seq d) xs ≡ []
  none_up_to d [] h = refl
  none_up_to d (x ∷ xs) h = ground (arith, h.0, none_up_to d xs h.1)

  Beyond-first : (x : Event) (ys : List Event) → All (λ y. x.seq < y.seq) ys → All (Beyond x.seq) ys
  Beyond-first x ys a = All-map (λ y. x.seq < y.seq) (Beyond x.seq) ys (λ y l _. l) a

  batch_bound :
      (n d : ℕ) (xs more : List Event)
      → Ascending seq_of (xs ++ more)
      → All (Beyond d) (xs ++ more)
      → d ≤ last_seq d (take n (select q xs))
  batch_bound zero d xs more a h = omega arith
  batch_bound (suc n) d [] more a h = omega arith
  batch_bound (suc n) d (x ∷ xs) more a h = elim (Bool-cases (q x)) [
    | inr e ↦ rw e (batch_bound (suc n) d xs more a.1 h.1)
    | inl e ↦
        rw e
          (omega (arith, batch_bound n x.seq xs more a.1 (Beyond-first x (xs ++ more) a.0), h.0 e))
  ]

  batch_is_window :
      (n d c : ℕ) (xs more : List Event)
      → Ascending seq_of (xs ++ more)
      → All (Beyond d) (xs ++ more)
      → c ≡ last_seq d (take n (select q xs))
      → take n (select q xs) ≡ select (λ e. q e && leb e.seq c) (xs ++ more)
  batch_is_window zero d c xs more a h at = rw at (sym (none_up_to d (xs ++ more) h))
  batch_is_window (suc n) d c [] more a h at = rw at (sym (none_up_to d more h))
  batch_is_window (suc n) d c (x ∷ xs) more a h at = elim (Bool-cases (q x)) [
    | inr e ↦ ground (arith, e, batch_is_window (suc n) d c xs more a.1 h.1)
    | inl e ↦
        let beyond = Beyond-first x (xs ++ more) a.0 in
        ground (
          arith,
          e,
          batch_bound n x.seq xs more a.1 beyond,
          batch_is_window n x.seq c xs more a.1 beyond,
        )
  ]

-- Two windows side by side.
windows_join :
    (p : Event → Bool) (a b c : ℕ) (xs : List Event)
    → a ≤ b
    → b ≤ c
    → Ascending seq_of xs
    → select (λ e. ltb a e.seq && (leb e.seq b && p e)) xs
        ++ select (λ e. ltb b e.seq && (leb e.seq c && p e)) xs
      ≡ select (λ e. ltb a e.seq && (leb e.seq c && p e)) xs
windows_join p a b c [] h k s = refl
windows_join p a b c (x ∷ xs) h k s = elim (Bool-cases (leb x.seq b)) [
  | inl low ↦ ground (arith, low, windows_join p a b c xs h k s.1)
  | inr high ↦ ground (
    arith,
    high,
    windows_join p a b c xs h k s.1,
    select_nothing (λ e. ltb a e.seq && (leb e.seq b && p e)) xs
        (All-map (λ y. x.seq < y.seq) (λ y. (ltb a y.seq && (leb y.seq b && p y)) ≡ false) xs
          (λ y l. ground arith) s.0),
  )
]

-- The events of a log between two cursors that a client asks for.
abbrev pub asked_between : ℕ → List String → ℕ → ℕ → Event → Bool
asked_between repo types low high e =
    ltb low e.seq && (leb e.seq high && (in_repo repo e && passes_types types e))

-- What was read of the log is the beginning of what it is later.
pub record IsEarlier (final l : EventLog) : Type 0 where
  pub since : List Event
  pub grown : final.events ≡ l.events ++ since

abbrev pub AllEarlier : EventLog → List EventLog → Type 0
AllEarlier final [] = Unit
AllEarlier final (l ∷ ls) = IsEarlier final l × AllEarlier final ls

select_same :
    (p q : Event → Bool) (xs : List Event) → ((e : Event) → p e ≡ q e) → select p xs ≡ select q xs
select_same p q [] h = refl
select_same p q (x ∷ xs) h = ground (arith, h x, select_same p q xs h)

regroup : (a b c d : Bool) → ((a && b) && c) && d ≡ (a && (c && (b && d)))
regroup a b c d = ground arith

one_round :
    (final l : EventLog) (repo cursor : ℕ) (types : List String)
    → IsEarlier final l
    → Ascending seq_of final.events
    → (cursor ≤ last_seq cursor (list_events_since l cursor repo events_batch))
      × (select (passes_types types) (list_events_since l cursor repo events_batch)
          ≡ select
              (asked_between repo types cursor
                (last_seq cursor (list_events_since l cursor repo events_batch)))
              final.events)
unfolding list_events_since
one_round final l repo cursor types early a =
    let q = λ (e : Event). ltb cursor e.seq && in_repo repo e in
    let a' : Ascending seq_of (l.events ++ early.since) = rw (← early.grown) a in
    let beyond = everywhere (Beyond q cursor) (λ e h. ground arith) (l.events ++ early.since) in
    let c = last_seq cursor (take 500 (select q l.events)) in
    let window = batch_is_window q 500 cursor c l.events early.since a' beyond refl in
    (
      batch_bound q 500 cursor l.events early.since a' beyond,
      ap (select (passes_types types)) window
          ∙ select-select (passes_types types) (λ e. q e && leb e.seq c) (l.events ++ early.since)
          ∙ select_same _ (asked_between repo types cursor c) (l.events ++ early.since) (λ e.
            regroup (ltb cursor e.seq) (in_repo repo e) (leb e.seq c) (passes_types types e))
          ∙ ap (select (asked_between repo types cursor c)) (sym early.grown),
    )
  where
    everywhere : (P : Event → Type 0) → ((e : Event) → P e) → (xs : List Event) → All P xs
    everywhere P f [] = tt
    everywhere P f (x ∷ xs) = (f x, everywhere P f xs)

select_empty :
    (repo cursor : ℕ) (types : List String) (xs : List Event)
    → [] ≡ select (asked_between repo types cursor cursor) xs
select_empty repo cursor types [] = refl
select_empty repo cursor types (x ∷ xs) = ground (arith, select_empty repo cursor types xs)

-- When events are only appended while a client reads, with sequence numbers that ascend, what it has
-- received is exactly the events of the log between the cursor it started at and the cursor it has
-- reached that match its repository and types, each once and in order, however the reads fall and
-- wherever the batches are cut.
pub follow_delivers :
    (final : EventLog) (repo cursor : ℕ) (types : List String) (ls : List EventLog)
    → Ascending seq_of final.events
    → AllEarlier final ls
    → (cursor ≤ (follow repo types ls cursor).1)
      × ((follow repo types ls cursor).0
          ≡ select (asked_between repo types cursor (follow repo types ls cursor).1) final.events)
unfolding follow
follow_delivers final repo cursor types [] a h =
    (omega arith, select_empty repo cursor types final.events)
follow_delivers final repo cursor types (l ∷ ls) a h =
    let batch = list_events_since l cursor repo events_batch in
    let c = last_seq cursor batch in
    let (forward, first) = one_round final l repo cursor types h.0 a in
    let (onward, rest) = follow_delivers final repo c types ls a h.1 in
    (
      omega arith,
      ap (λ b. b ++ (follow repo types ls c).0) first
          ∙ ap (λ b. select (asked_between repo types cursor c) final.events ++ b) rest
          ∙ windows_join (λ e. in_repo repo e && passes_types types e) cursor c
              (follow repo types ls c).1 final.events forward onward a,
    )
