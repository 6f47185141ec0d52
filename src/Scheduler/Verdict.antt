-- ===== src/Scheduler/Verdict.antt =====
-- How a CI run ends: every job's status, and the run's own.
use codefort.Base.{
  ℕ, zero, suc, ◌<◌, ◌≤◌, ◌≡◌, refl, ap, ◌∙◌, ◌⊎◌, inl, inr, String, true, false, not, ◌||◌, Option,
  none, some, List, [], ◌∷◌, arith, string_eq, Bool-cases, Option-cases, if◌then◌else◌, length,
  contains,
}
use codefort.Runs.{JobStatus, job_success, RunStatus, success, failed}
use codefort.Ci.{Pipeline, needs_of}
use codefort.Scheduler.{
  Context, alive, is_alive, succeeded, Schedule, Launch, stuck, wave, pass, is_empty, passes, begin,
  leftover, final_status, execute_jobs,
}
use codefort.Scheduler.Batches.{is_done}
use codefort.Scheduler.Soundness.{IsExplained, IsSound, grown-IsExplained}
use codefort.Scheduler.Passes.{HasKnownNeeds, IsPassed, pass-IsPassed}

-- Each pass of the loop visits every pending job, in whatever order.
abbrev pub IsVisit : (ℕ → List String → List String) → Type 0
IsVisit visit =
    (n : ℕ) (xs : List String) (a : String) → contains xs a ≡ true → contains (visit n xs) a ≡ true

begin-IsSound :
    (p : Pipeline) (outcome : String → JobStatus) (order : List String)
    → IsSound p outcome order (begin order)
begin-IsSound p outcome order = record {
  pending_open = λ a h. refl;
  open_pending = λ a h k. h;
  pending_order = λ a h. h;
  explained = λ a st h. absurd (ground arith);
  clean = λ h a st k. absurd (ground arith);
  dirty = λ h. absurd (ground arith);
}

empty_pending : (xs : List String) (a : String) → is_empty xs ≡ true → contains xs a ≡ false
empty_pending [] a h = refl
empty_pending (x ∷ xs) a h = absurd (ground arith)

module _ (p : Pipeline) (visit : ℕ → List String → List String) (outcome : String → JobStatus)
    (ctx : ℕ → Context) (order : List String) (known : HasKnownNeeds p order)
    (every : IsVisit visit) where
  -- The loop ends within its fuel with a sound schedule, and with no job pending unless the context
  -- was over at some test.
  abbrev EndsWell : ℕ → ℕ → Schedule → Type 0
  EndsWell fuel n s =
      (s' : Schedule) × (passes p visit outcome ctx fuel n s ≡ some s')
      × IsSound p outcome order s'
      × (((k : ℕ) → is_alive (ctx k) ≡ true) → (a : String) → contains s'.pending a ≡ false)

  after_pass :
      (fuel n : ℕ) (s : Schedule)
      → ((s' : Schedule)
          → length s'.pending ≤ fuel
          → IsSound p outcome order s'
          → EndsWell fuel (suc n) s')
      → length s.pending ≤ suc fuel
      → (is_empty s.pending || not (is_alive (ctx n))) ≡ false
      → (l : Launch) → pass p (visit n) outcome s ≡ l
      → IsPassed p outcome order s l
      → EndsWell (suc fuel) n s
  unfolding passes
  after_pass fuel n s again le e (stuck s') same (j, none_left) =
      (s', ground (arith, e, same), j, λ on. none_left)
  after_pass fuel n s again le e (wave s') same (j, fewer) =
      let (s'', eq, sound, done) = again s' (omega (arith, le, fewer)) j in
      (s'', ground (arith, e, same, eq), sound, done)

  passes-EndsWell :
      (fuel n : ℕ) (s : Schedule)
      → length s.pending ≤ fuel
      → IsSound p outcome order s
      → EndsWell fuel n s
  unfolding passes
  passes-EndsWell zero n s le i =
      let nothing : is_empty s.pending ≡ true = no_pending s.pending le in
      (s, ground (arith, nothing), i, λ on a. empty_pending s.pending a nothing)
    where
      no_pending : (xs : List String) → length xs ≤ 0 → is_empty xs ≡ true
      no_pending [] h = refl
      no_pending (x ∷ xs) h = absurd (omega (arith, h))
  passes-EndsWell (suc fuel) n s le i =
      elim (Bool-cases (is_empty s.pending || not (is_alive (ctx n)))) [
        | inl e ↦
            (s, ground (arith, e), i, λ on a. empty_pending s.pending a (ground (arith, e, on n)))
        | inr e ↦
            after_pass fuel n s (passes-EndsWell fuel (suc n)) le e (pass p (visit n) outcome s)
              refl (pass-IsPassed p (visit n) outcome order s known (every n s.pending) i)
      ]

-- The end of the loop, with no job pending.
module _ (p : Pipeline) (outcome : String → JobStatus) (order : List String) (s : Schedule)
    (i : IsSound p outcome order s) (done : (a : String) → contains s.pending a ≡ false) where
  abbrev final : String → Option JobStatus
  final x = if contains s.pending x then none else s.status x

  final_same : (a : String) → final a ≡ s.status a
  final_same a = rw (done a) refl

  has_status : (a : String) → contains order a ≡ true → (st : JobStatus) × (s.status a ≡ some st)
  has_status a k = elim (Option-cases (s.status a)) [
    | inl e ↦ absurd (ground (arith, done a, i.open_pending a k e))
    | inr (st, e) ↦ (st, e)
  ]

  IsExplained-end :
      (a : String)
      → contains order a ≡ true
      → (st : JobStatus) × (final a ≡ some st) × IsExplained p outcome final a st
  IsExplained-end a k =
      let (st, e) = has_status a k in
      (
        st,
        final_same a ∙ e,
        grown-IsExplained p outcome s.status final a st (λ b x h. final_same b ∙ h)
            (i.explained a st e),
      )

  verdict_end :
      (((if s.any_not_success then failed else success) ≡ success)
        × ((a : String) → contains order a ≡ true → is_done final a ≡ true))
      ⊎ (((if s.any_not_success then failed else success) ≡ failed)
          × (a : String) × (contains order a ≡ true)
          × (is_done final a ≡ false))
  verdict_end = elim (Bool-cases s.any_not_success) [
    | inr e ↦ inl (
      rw e refl,
      λ a k.
          let (st, h) = has_status a k in
          ap (λ (o : Option JobStatus). elim o [ none ↦ false | some x ↦ succeeded x ])
            (final_same a ∙ h)
          ∙ i.clean e a st h,
    )
    | inl e ↦
        let (a, st, k, h, bad) = i.dirty e in
        inr (
          rw e refl,
          a,
          k,
          ap (λ (o : Option JobStatus). elim o [ none ↦ false | some x ↦ succeeded x ])
                (final_same a ∙ h)
              ∙ bad,
        )
  ]

execute_jobs_of :
    (p : Pipeline) (visit : ℕ → List String → List String) (outcome : String → JobStatus)
    (ctx : ℕ → Context) (order : List String) (s : Schedule)
    → passes p visit outcome ctx (length order) 0 (begin order) ≡ some s
    → execute_jobs p visit outcome ctx alive false order
      ≡ some (
        (λ x. if contains s.pending x then none else s.status x),
        if s.any_not_success then failed else success,
      )
unfolding execute_jobs final_status
execute_jobs_of p visit outcome ctx order s eq =
    ap
      (λ (o : Option Schedule). elim o as (λ x. Option ((String → Option JobStatus) × RunStatus)) [
        | none ↦ none
        | some x ↦ some (
          (λ a. if contains x.pending a then leftover alive else x.status a),
          final_status false alive x.any_not_success,
        )
      ])
      eq

-- When every need is a job of the order, every pass visits all pending jobs and the context is never
-- over, the loop ends, for every visiting order; every job of the order has a status, the outcome of
-- its run if all jobs it needs succeeded, and skipped or error, without a run, if one did not; and
-- the run is a success if every job succeeded, and failed otherwise.
pub execute_jobs-IsExplained :
    (p : Pipeline) (visit : ℕ → List String → List String) (outcome : String → JobStatus)
    (ctx : ℕ → Context) (order : List String)
    → HasKnownNeeds p order
    → IsVisit visit
    → ((k : ℕ) → is_alive (ctx k) ≡ true)
    → (status : String → Option JobStatus) × (verdict : RunStatus) × (execute_jobs p visit outcome
          ctx alive false order
        ≡ some (status, verdict))
      × ((a : String)
          → contains order a ≡ true
          → (st : JobStatus) × (status a ≡ some st) × IsExplained p outcome status a st)
      × (((verdict ≡ success) × ((a : String) → contains order a ≡ true → is_done status a ≡ true))
          ⊎ ((verdict ≡ failed)
              × (a : String) × (contains order a ≡ true)
              × (is_done status a ≡ false)))
execute_jobs-IsExplained p visit outcome ctx order known every on =
    let (s, eq, sound, done) =
      passes-EndsWell p visit outcome ctx order known every (length order) 0 (begin order)
        (omega arith) (begin-IsSound p outcome order) in
    (
      (λ x. if contains s.pending x then none else s.status x),
      (if s.any_not_success then failed else success),
      execute_jobs_of p visit outcome ctx order s eq,
      IsExplained-end p outcome order s sound (done on),
      verdict_end p outcome order s sound (done on),
    )

done_of :
    (status : String → Option JobStatus) (a : String) (st : JobStatus)
    → status a ≡ some st
    → is_done status a ≡ succeeded st
done_of status a st h =
    ap (λ (o : Option JobStatus). elim o [ none ↦ false | some x ↦ succeeded x ]) h

-- When every need is a job of the order, the needs have no cycle, which a rank that every need
-- lowers shows, every pass visits all pending jobs, the context is never over and every job that
-- runs ends in success, every job of the order succeeds and the run is a success.
pub execute_jobs_success :
    (p : Pipeline) (visit : ℕ → List String → List String) (outcome : String → JobStatus)
    (ctx : ℕ → Context) (order : List String) (rank : String → ℕ)
    → HasKnownNeeds p order
    → IsVisit visit
    → ((k : ℕ) → is_alive (ctx k) ≡ true)
    → ((a d : String)
        → contains order a ≡ true
        → contains (needs_of p a) d ≡ true
        → rank d < rank a)
    → ((a : String) → outcome a ≡ job_success)
    → (status : String → Option JobStatus) × (execute_jobs p visit outcome ctx alive false order
        ≡ some (status, success))
      × ((a : String) → contains order a ≡ true → status a ≡ some job_success)
execute_jobs_success p visit outcome ctx order rank known every on lower good =
    let (status, verdict, eq, why, end) =
      execute_jobs-IsExplained p visit outcome ctx order known every on in
    let all_good = ranked status why in
    (
      status,
      elim end [
        | inl (is, done) ↦ eq ∙ ap (λ v. some (status, v)) is
        | inr (is, a, k, bad) ↦
            absurd (ground (arith, bad, done_of status a job_success (all_good a k)))
      ],
      all_good,
    )
  where
    ranked :
        (status : String → Option JobStatus)
        → ((a : String)
            → contains order a ≡ true
            → (st : JobStatus) × (status a ≡ some st) × IsExplained p outcome status a st)
        → (a : String) → contains order a ≡ true
        → status a ≡ some job_success
    ranked status why a k = below (suc (rank a)) a (omega arith) k
      where
        below :
            (n : ℕ) (a : String)
            → rank a < n
            → contains order a ≡ true
            → status a ≡ some job_success
        below zero a l k = absurd (omega (arith, l))
        below (suc n) a l k =
            let (st, is, reason) = why a k in
            elim reason [
              | inl (done, same) ↦ is ∙ ap some (same ∙ good a)
              | inr ((d, x, need, set, bad), how) ↦
                  let d_good = below n d (omega (arith, l, lower a d k need)) (known a d k need) in
                  absurd (ground (arith, bad, set, d_good))
            ]
