-- ===== src/Scheduler/Soundness.antt =====
-- What the statuses of a schedule say of its jobs, and how settling jobs keeps it.
use codefort.Base.{
  ◌≡◌, refl, sym, ap, ◌∙◌, subst, ◌⊎◌, inl, inr, String, Bool, true, false, not, Option, none, some,
  List, [], ◌∷◌, arith, ◌==◌, string_eq, eq_iff, Bool-cases, Option-cases, contains, exists,
}
use codefort.Runs.{JobStatus, job_skipped, job_error}
use codefort.Ci.{Pipeline, needs_of}
use codefort.Scheduler.{succeeded, classify, Schedule, settle_all}
use codefort.Scheduler.Batches.{is_done, settle_all_status, settle_all_pending, settle_all_flag}

-- Why job `a` has status `st`: it ran, since every job it needs succeeded, or it did not run, since
-- one of them did not.
abbrev pub IsExplained :
    Pipeline → (String → JobStatus) → (String → Option JobStatus) → String → JobStatus → Type 0
IsExplained p outcome status a st =
    (((d : String) → contains (needs_of p a) d ≡ true → is_done status d ≡ true) × (st ≡ outcome a))
    ⊎ (((d : String) × (x : JobStatus) × (contains (needs_of p a) d ≡ true)
          × (status d ≡ some x)
          × (succeeded x ≡ false))
        × ((st ≡ job_skipped) ⊎ (st ≡ job_error)))

-- What every pass keeps, for the jobs of `order`.
pub record IsSound (p : Pipeline) (outcome : String → JobStatus) (order : List String)
    (s : Schedule) : Type 0 where
  pub pending_open : (a : String) → contains s.pending a ≡ true → s.status a ≡ none
  pub open_pending :
      (a : String) → contains order a ≡ true → s.status a ≡ none → contains s.pending a ≡ true
  pub pending_order : (a : String) → contains s.pending a ≡ true → contains order a ≡ true
  pub clean :
      s.any_not_success ≡ false
      → (a : String) (st : JobStatus) → s.status a ≡ some st
      → succeeded st ≡ true
  pub dirty :
      s.any_not_success ≡ true
      → (a : String) × (st : JobStatus) × (contains order a ≡ true)
        × (s.status a ≡ some st)
        × (succeeded st ≡ false)
  pub explained :
      (a : String) (st : JobStatus) → s.status a ≡ some st → IsExplained p outcome s.status a st

pub classify_cases :
    (status : String → Option JobStatus) (all : Bool) (deps : List String)
    → ((classify status all deps ≡ (false, true))
        × (d : String) × (x : JobStatus) × (contains deps d ≡ true)
        × (status d ≡ some x)
        × (succeeded x ≡ false))
      ⊎ ((classify status all deps ≡ (all, false))
          × ((d : String) → contains deps d ≡ true → is_done status d ≡ true))
      ⊎ ((classify status all deps ≡ (false, false))
          × (d : String) × (contains deps d ≡ true)
          × (status d ≡ none))
classify_cases status all [] = inr (inl (refl, λ d h. absurd (ground arith)))
classify_cases status all (dep ∷ deps) = elim (Option-cases (status dep)) [
  | inl e ↦ elim (classify_cases status false deps) [
    | inl (c, d, x, there, st, bad) ↦
        inl (ground (arith, e, c), d, x, ground (arith, there), st, bad)
    | inr (inl (c, all_done)) ↦
        inr (inr (ground (arith, e, c), dep, ground (arith, (eq_iff dep dep).1 refl), e))
    | inr (inr (c, d, there, unset)) ↦
        inr (inr (ground (arith, e, c), d, ground (arith, there), unset))
  ]
  | inr (x, e) ↦ elim (Bool-cases (succeeded x)) [
    | inr f ↦ inl (ground (arith, e, f), dep, x, ground (arith, (eq_iff dep dep).1 refl), e, f)
    | inl f ↦ elim (classify_cases status all deps) [
      | inl (c, d, y, there, st, bad) ↦
          inl (ground (arith, e, f, c), d, y, ground (arith, there), st, bad)
      | inr (inl (c, all_done)) ↦ inr (
          inl (
            ground (arith, e, f, c),
            λ d h. elim (Bool-cases (d == dep)) [
              | inl g ↦ ap (is_done status) ((eq_iff d dep).0 g) ∙ ground (arith, e, f)
              | inr g ↦ all_done d (ground (arith, g, h))
            ],
          ))
      | inr (inr (c, d, there, unset)) ↦
          inr (inr (ground (arith, e, f, c), d, ground (arith, there), unset))
    ]
  ]
]

-- A status that is set stays.
abbrev pub Grows : (String → Option JobStatus) → (String → Option JobStatus) → Type 0
Grows old new = (a : String) (st : JobStatus) → old a ≡ some st → new a ≡ some st

pub grown_done :
    (old new : String → Option JobStatus) (d : String)
    → Grows old new
    → is_done old d ≡ true
    → is_done new d ≡ true
grown_done old new d g h = elim (Option-cases (old d)) [
  | inl e ↦ absurd (ground (arith, e, h))
  | inr (x, e) ↦ ground (arith, e, h, g d x e)
]

pub grown-IsExplained :
    (p : Pipeline) (outcome : String → JobStatus) (old new : String → Option JobStatus) (a : String)
    (st : JobStatus)
    → Grows old new
    → IsExplained p outcome old a st
    → IsExplained p outcome new a st
grown-IsExplained p outcome old new a st g (inl (done, is)) =
    inl ((λ d h. grown_done old new d g (done d h)), is)
grown-IsExplained p outcome old new a st g (inr ((d, x, there, is, bad), how)) =
    inr ((d, x, there, g d x is, bad), how)

pub batch-Grows :
    (f : String → JobStatus) (xs : List String) (s : Schedule)
    → ((a : String) → contains xs a ≡ true → s.status a ≡ none)
    → Grows s.status (settle_all f xs s).status
batch-Grows f xs s unset a st e = elim (Bool-cases (contains xs a)) [
  | inl h ↦ absurd (ground (arith, e, unset a h))
  | inr h ↦ settle_all_status f xs s a ∙ ground (arith, h, e)
]

all_succeed :
    (f : String → JobStatus) (xs : List String) (a : String)
    → exists (λ x. not (succeeded (f x))) xs ≡ false
    → contains xs a ≡ true
    → succeeded (f a) ≡ true
all_succeed f [] a h c = absurd (ground arith)
all_succeed f (x ∷ xs) a h c = elim (Bool-cases (a == x)) [
  | inl e ↦ ap (λ y. succeeded (f y)) ((eq_iff a x).0 e) ∙ ground (arith, h)
  | inr e ↦ all_succeed f xs a (ground (arith, h)) (ground (arith, e, c))
]

one_fails :
    (f : String → JobStatus) (xs : List String)
    → exists (λ x. not (succeeded (f x))) xs ≡ true
    → (a : String) × (contains xs a ≡ true) × (succeeded (f a) ≡ false)
one_fails f [] h = absurd (ground arith)
one_fails f (x ∷ xs) h = elim (Bool-cases (succeeded (f x))) [
  | inr e ↦ (x, ground (arith, (eq_iff x x).1 refl), e)
  | inl e ↦
      let (a, there, bad) = one_fails f xs (ground (arith, e, h)) in (a, ground (arith, there), bad)
]

-- Settling pending jobs, each with a status that the result explains, keeps a schedule sound.
pub batch-IsSound :
    (p : Pipeline) (outcome f : String → JobStatus) (order xs : List String) (s : Schedule)
    → IsSound p outcome order s
    → ((a : String) → contains xs a ≡ true → contains s.pending a ≡ true)
    → ((a : String)
        → contains xs a ≡ true
        → IsExplained p outcome (settle_all f xs s).status a (f a))
    → IsSound p outcome order (settle_all f xs s)
batch-IsSound p outcome f order xs s i inside why = record {
  clean = λ h a st k. elim (Bool-cases (contains xs a)) [
    | inl c ↦
        let is : f a ≡ st = ground (arith, c, k, settle_all_status f xs s a) in
        ap succeeded (sym is) ∙ all_succeed f xs a (ground (arith, h, settle_all_flag f xs s)) c
    | inr c ↦
        let was : s.status a ≡ some st = ground (arith, c, k, settle_all_status f xs s a) in
        i.clean (ground (arith, h, settle_all_flag f xs s)) a st was
  ];
  dirty = λ h. elim (Bool-cases s.any_not_success) [
    | inl c ↦
        let (a, st, k, is, bad) = i.dirty c in
        (a, st, k, batch-Grows f xs s (λ b m. i.pending_open b (inside b m)) a st is, bad)
    | inr c ↦
        let (a, there, bad) = one_fails f xs (ground (arith, c, h, settle_all_flag f xs s)) in
        (
          a,
          f a,
          i.pending_order a (inside a there),
          settle_all_status f xs s a ∙ ground (arith, there),
          bad,
        )
  ];
  pending_open = λ a h.
      settle_all_status f xs s a
      ∙ ground (
        arith,
        h,
        settle_all_pending f xs s a,
        i.pending_open a (ground (arith, h, settle_all_pending f xs s a)),
      );
  open_pending = λ a k h. elim (Bool-cases (contains xs a)) [
    | inl c ↦ absurd (ground (arith, c, h, settle_all_status f xs s a))
    | inr c ↦
        let was : s.status a ≡ none = ground (arith, c, h, settle_all_status f xs s a) in
        ground (arith, c, settle_all_pending f xs s a, i.open_pending a k was)
  ];
  pending_order = λ a h. i.pending_order a (ground (arith, h, settle_all_pending f xs s a));
  explained = λ a st h. elim (Bool-cases (contains xs a)) [
    | inl c ↦
        let is : f a ≡ st = ground (arith, c, h, settle_all_status f xs s a) in
        subst (IsExplained p outcome (settle_all f xs s).status a) is (why a c)
    | inr c ↦
        let was : s.status a ≡ some st = ground (arith, c, h, settle_all_status f xs s a) in
        grown-IsExplained p outcome s.status (settle_all f xs s).status a st
          (batch-Grows f xs s (λ b m. i.pending_open b (inside b m))) (i.explained a st was)
  ];
}
