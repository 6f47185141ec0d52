-- ===== src/Scheduler/Passes.antt =====
-- What a pass of the scheduler keeps, and how it makes progress.
use codefort.Base.{
  ◌≤◌, ◌<◌, ◌≡◌, refl, sym, ap, ◌∙◌, inl, inr, String, Bool, true, false, ◌||◌, Option, none, some,
  List, [], ◌∷◌, ◌++◌, arith, ◌==◌, string_eq, eq_iff, Bool-cases, Option-cases, length, contains,
  contains-append,
}
use codefort.Runs.{JobStatus, job_skipped, job_error}
use codefort.Ci.{Pipeline, needs_of}
use codefort.Scheduler.{
  succeeded, classify_job, Schedule, settle, settle_all, look, scan, Launch, stuck, wave, pass,
}
use codefort.Scheduler.Batches.{
  is_done, settle_all_status, settle_all_pending, settle_all_shorter, length-delete_lt,
}
use codefort.Scheduler.Soundness.{
  IsExplained, IsSound, classify_cases, Grows, grown_done, batch-Grows, batch-IsSound,
}

-- What holds after the jobs of `seen` have been looked at: a ready job may run, and a job that is
-- still pending otherwise has a need that has not succeeded.
record IsScanned (p : Pipeline) (outcome : String → JobStatus) (order before seen : List String)
    (sr : Schedule × List String) : Type 0 where
  sound : IsSound p outcome order sr.0
  ready_pending : (a : String) → contains sr.1 a ≡ true → contains sr.0.pending a ≡ true
  ready_done :
      (a d : String)
      → contains sr.1 a ≡ true
      → contains (needs_of p a) d ≡ true
      → is_done sr.0.status d ≡ true
  within : (a : String) → contains sr.0.pending a ≡ true → contains before a ≡ true
  shorter : length sr.0.pending ≤ length before
  waiting :
      (a : String)
      → contains seen a ≡ true
      → contains sr.0.pending a ≡ true
      → contains sr.1 a ≡ false
      → (d : String) × (contains (needs_of p a) d ≡ true) × (is_done sr.0.status d ≡ false)

skip-IsSound :
    (p : Pipeline) (outcome : String → JobStatus) (order : List String) (s : Schedule)
    (jn d : String) (x : JobStatus)
    → IsSound p outcome order s
    → contains s.pending jn ≡ true
    → contains (needs_of p jn) d ≡ true
    → s.status d ≡ some x
    → succeeded x ≡ false
    → IsSound p outcome order (settle jn job_skipped s)
skip-IsSound p outcome order s jn d x i here there is bad =
    batch-IsSound p outcome (λ y. job_skipped) order (jn ∷ []) s i
      (λ a h. ap (contains s.pending) (is_jn a h) ∙ here)
      (λ a h. inr (
        (
          d,
          x,
          ap (λ n. contains (needs_of p n) d) (is_jn a h) ∙ there,
          batch-Grows (λ y. job_skipped) (jn ∷ []) s (λ b k. only b k (i.pending_open jn here)) d x
              is,
          bad,
        ),
        inl refl,
      ))
  where
    is_jn : (a : String) → contains (jn ∷ []) a ≡ true → a ≡ jn
    is_jn a h = (eq_iff a jn).0 (ground arith)

    only : (a : String) → contains (jn ∷ []) a ≡ true → s.status jn ≡ none → s.status a ≡ none
    only a h n = ap s.status (is_jn a h) ∙ n

module _ (p : Pipeline) (outcome : String → JobStatus) (order before seen : List String)
    (jn : String) (s : Schedule) (ready : List String)
    (i : IsScanned p outcome order before seen (s, ready))
    (here : contains s.pending jn ≡ true) where
  skip-IsScanned :
      (d : String) (x : JobStatus)
      → contains (needs_of p jn) d ≡ true
      → s.status d ≡ some x
      → succeeded x ≡ false
      → IsScanned p outcome order before (jn ∷ seen) (settle jn job_skipped s, ready)
  skip-IsScanned d x there is bad = record {
    sound = skip-IsSound p outcome order s jn d x i.sound here there is bad;
    ready_pending = λ a h. elim (Bool-cases (a == jn)) [
      | inl e ↦
          let need : contains (needs_of p a) d ≡ true =
            ap (λ n. contains (needs_of p n) d) ((eq_iff a jn).0 e) ∙ there in
          absurd (ground (arith, is, bad, i.ready_done a d h need))
      | inr e ↦
          ground
            (arith, e, i.ready_pending a h, settle_all_pending (λ y. job_skipped) (jn ∷ []) s a)
    ];
    within =
        λ a h. i.within a (ground (arith, h, settle_all_pending (λ y. job_skipped) (jn ∷ []) s a));
    shorter = omega (arith, i.shorter, settle_all_shorter (λ y. job_skipped) (jn ∷ []) s);
    ready_done = λ a e h k.
        grown_done s.status (settle jn job_skipped s).status e grows (i.ready_done a e h k);
    waiting = λ a h k r. elim (Bool-cases (a == jn)) [
      | inl e ↦ absurd (ground (arith, e, k, settle_all_pending (λ y. job_skipped) (jn ∷ []) s a))
      | inr e ↦
          let (n, need, open_need) =
            i.waiting a (ground (arith, e, h))
              (ground (arith, k, settle_all_pending (λ y. job_skipped) (jn ∷ []) s a)) r in
          (n, need, still n open_need)
    ];
  }
    where
      grows : Grows s.status (settle jn job_skipped s).status
      grows b st k = elim (Bool-cases (b == jn)) [
        | inl e ↦
            absurd
              (ground (arith, k, i.sound.pending_open jn here, ap s.status ((eq_iff b jn).0 e)))
        | inr e ↦ ground (arith, e, k)
      ]

      done_option : Option JobStatus → Bool
      done_option o = elim o [ none ↦ false | some st ↦ succeeded st ]

      settled_here :
          (n : String) → (n == jn) ≡ true → (settle jn job_skipped s).status n ≡ some job_skipped
      settled_here n e = rw e refl

      settled_other :
          (n : String) → (n == jn) ≡ false → (settle jn job_skipped s).status n ≡ s.status n
      settled_other n e = rw e refl

      still :
          (n : String)
          → is_done s.status n ≡ false
          → is_done (settle jn job_skipped s).status n ≡ false
      still n h = elim (Bool-cases (n == jn)) [
        | inl e ↦ ap done_option (settled_here n e)
        | inr e ↦ ap done_option (settled_other n e) ∙ h
      ]

  ready-IsScanned :
      ((d : String) → contains (needs_of p jn) d ≡ true → is_done s.status d ≡ true)
      → IsScanned p outcome order before (jn ∷ seen) (s, ready ++ jn ∷ [])
  ready-IsScanned done = record {
    sound = i.sound;
    ready_pending = λ a h. elim (Bool-cases (a == jn)) [
      | inl e ↦ ap (contains s.pending) ((eq_iff a jn).0 e) ∙ here
      | inr e ↦ i.ready_pending a (ground (arith, e, h, contains-append ready (jn ∷ []) a))
    ];
    within = i.within;
    shorter = i.shorter;
    ready_done = λ a d h k. elim (Bool-cases (a == jn)) [
      | inl e ↦ done d (ap (λ n. contains (needs_of p n) d) (sym ((eq_iff a jn).0 e)) ∙ k)
      | inr e ↦ i.ready_done a d (ground (arith, e, h, contains-append ready (jn ∷ []) a)) k
    ];
    waiting = λ a h k r.
        i.waiting a (ground (arith, h, r, contains-append ready (jn ∷ []) a)) k
          (ground (arith, r, contains-append ready (jn ∷ []) a));
  }

  wait-IsScanned :
      (d : String)
      → contains (needs_of p jn) d ≡ true
      → s.status d ≡ none
      → IsScanned p outcome order before (jn ∷ seen) (s, ready)
  wait-IsScanned d there unset = record {
    sound = i.sound;
    ready_pending = i.ready_pending;
    within = i.within;
    shorter = i.shorter;
    ready_done = i.ready_done;
    waiting = λ a h k r. elim (Bool-cases (a == jn)) [
      | inl e ↦ (
        d,
        ap (λ n. contains (needs_of p n) d) ((eq_iff a jn).0 e) ∙ there,
        ground (arith, unset),
      )
      | inr e ↦ i.waiting a (ground (arith, e, h)) k r
    ];
  }

look-IsScanned :
    (p : Pipeline) (outcome : String → JobStatus) (order before seen : List String) (jn : String)
    (sr : Schedule × List String)
    → IsScanned p outcome order before seen sr
    → IsScanned p outcome order before (jn ∷ seen) (look p jn sr)
unfolding look classify_job
look-IsScanned p outcome order before seen jn (s, ready) i =
    elim (Bool-cases (contains s.pending jn)) [
      | inr gone ↦ rw gone (record {
        sound = i.sound;
        ready_pending = i.ready_pending;
        within = i.within;
        shorter = i.shorter;
        ready_done = i.ready_done;
        waiting = λ a h k r. elim (Bool-cases (a == jn)) [
          | inl e ↦ absurd (ground (arith, gone, k, ap (contains s.pending) ((eq_iff a jn).0 e)))
          | inr e ↦ i.waiting a (ground (arith, e, h)) k r
        ];
      })
      | inl here ↦ elim (classify_cases s.status true (needs_of p jn)) [
        | inl (c, d, x, there, is, bad) ↦
            rw (here, c)
              (skip-IsScanned p outcome order before seen jn s ready i here d x there is bad)
        | inr (inl (c, done)) ↦
            rw (here, c) (ready-IsScanned p outcome order before seen jn s ready i here done)
        | inr (inr (c, d, there, unset)) ↦
            rw (here, c)
              (wait-IsScanned p outcome order before seen jn s ready i here d there unset)
      ]
    ]

scan-IsScanned :
    (p : Pipeline) (outcome : String → JobStatus) (order before seen xs : List String)
    (sr : Schedule × List String)
    → IsScanned p outcome order before seen sr
    → (all : List String) × IsScanned p outcome order before all (scan p xs sr)
      × ((a : String) → (contains xs a || contains seen a) ≡ true → contains all a ≡ true)
unfolding scan
scan-IsScanned p outcome order before seen [] sr i = (seen, i, λ a h. h)
scan-IsScanned p outcome order before seen (jn ∷ xs) sr i =
    let (all, j, covers) =
      scan-IsScanned p outcome order before (jn ∷ seen) xs (look p jn sr)
        (look-IsScanned p outcome order before seen jn sr i) in
    (all, j, λ a h. covers a (ground (arith, h)))

-- Every job that a job of the order needs is in the order.
abbrev pub HasKnownNeeds : Pipeline → List String → Type 0
HasKnownNeeds p order =
    (a d : String)
    → contains order a ≡ true
    → contains (needs_of p a) d ≡ true
    → contains order d ≡ true

stuck-IsSound :
    (p : Pipeline) (outcome : String → JobStatus) (order before all : List String) (s : Schedule)
    → HasKnownNeeds p order
    → IsScanned p outcome order before all (s, [])
    → ((a : String) → contains before a ≡ true → contains all a ≡ true)
    → IsSound p outcome order (settle_all (λ x. job_error) s.pending s)
stuck-IsSound p outcome order before all s known i covers =
    batch-IsSound p outcome (λ x. job_error) order s.pending s i.sound (λ a h. h) why
  where
    new : String → Option JobStatus
    new = (settle_all (λ x. job_error) s.pending s).status

    failed_need :
        (a d : String)
        → contains s.pending a ≡ true
        → contains (needs_of p a) d ≡ true
        → is_done s.status d ≡ false
        → (x : JobStatus) × (new d ≡ some x) × (succeeded x ≡ false)
    failed_need a d h need bad = elim (Option-cases (s.status d)) [
      | inl e ↦
          let in_pending = i.sound.open_pending d (known a d (i.sound.pending_order a h) need) e in
          (
            job_error,
            settle_all_status (λ x. job_error) s.pending s d ∙ ground (arith, in_pending),
            refl,
          )
      | inr (x, e) ↦ (
        x,
        batch-Grows (λ y. job_error) s.pending s i.sound.pending_open d x e,
        ground (arith, e, bad),
      )
    ]

    why : (a : String) → contains s.pending a ≡ true → IsExplained p outcome new a job_error
    why a h =
        let (d, need, bad) = i.waiting a (covers a (i.within a h)) h refl in
        let (x, is, lost) = failed_need a d h need bad in inr ((d, x, need, is, lost), inr refl)

wave-IsSound :
    (p : Pipeline) (outcome : String → JobStatus) (order before all ready : List String)
    (s : Schedule)
    → IsScanned p outcome order before all (s, ready)
    → IsSound p outcome order (settle_all outcome ready s)
wave-IsSound p outcome order before all ready s i =
    batch-IsSound p outcome outcome order ready s i.sound i.ready_pending (λ a h. inl (
      (λ d k.
          grown_done s.status (settle_all outcome ready s).status d
            (batch-Grows outcome ready s unset) (i.ready_done a d h k)),
      refl,
    ))
  where
    unset : (a : String) → contains ready a ≡ true → s.status a ≡ none
    unset a h = i.sound.pending_open a (i.ready_pending a h)

-- A pass keeps a schedule sound; it leaves fewer jobs pending, or none when it is the last.
abbrev pub IsPassed : Pipeline → (String → JobStatus) → List String → Schedule → Launch → Type 0
IsPassed p outcome order s (stuck s') =
    IsSound p outcome order s' × ((a : String) → contains s'.pending a ≡ false)
IsPassed p outcome order s (wave s') =
    IsSound p outcome order s' × (length s'.pending < length s.pending)

pub pass-IsPassed :
    (p : Pipeline) (visit : List String → List String) (outcome : String → JobStatus)
    (order : List String) (s : Schedule)
    → HasKnownNeeds p order
    → ((a : String) → contains s.pending a ≡ true → contains (visit s.pending) a ≡ true)
    → IsSound p outcome order s
    → IsPassed p outcome order s (pass p visit outcome s)
unfolding pass
pass-IsPassed p visit outcome order s known every i =
    let (all, j, covers) =
      scan-IsScanned p outcome order s.pending [] (visit s.pending) (s, []) fresh in
    launch all (scan p (visit s.pending) (s, [])) j (λ a h. covers a (ground (arith, every a h)))
  where
    fresh : IsScanned p outcome order s.pending [] (s, [])
    fresh = record {
      sound = i;
      ready_pending = λ a h. absurd (ground arith);
      ready_done = λ a d h k. absurd (ground arith);
      within = λ a h. h;
      shorter = omega arith;
      waiting = λ a h k r. absurd (ground arith);
    }

    launch :
        (all : List String) (sr : Schedule × List String)
        → IsScanned p outcome order s.pending all sr
        → ((a : String) → contains s.pending a ≡ true → contains all a ≡ true)
        → IsPassed p outcome order s (elim sr.1 [
          | [] ↦ stuck (settle_all (λ x. job_error) sr.0.pending sr.0)
          | jn ∷ rest ↦ wave (settle_all outcome (jn ∷ rest) sr.0)
        ])
    launch all (s', []) j covers = (
      stuck-IsSound p outcome order s.pending all s' known j covers,
      λ a. ground (arith, settle_all_pending (λ x. job_error) s'.pending s' a),
    )
    launch all (s', jn ∷ rest) j covers = (
      wave-IsSound p outcome order s.pending all (jn ∷ rest) s' j,
      omega (
        arith,
        settle_all_shorter outcome rest (settle jn (outcome jn) s'),
        j.shorter,
        length-delete_lt jn s'.pending (j.ready_pending jn (ground (arith, (eq_iff jn jn).1 refl))),
      ),
    )
