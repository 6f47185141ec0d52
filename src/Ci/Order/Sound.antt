-- ===== src/Ci/Order/Sound.antt =====
-- What holds between two steps of TopoOrder, and so of the order that it returns.
use codefort.Base.{
  ℕ, zero, suc, ◌+◌, ◌≤◌, ◌≡◌, refl, sym, ap, ◌∙◌, subst, inl, inr, String, true, false, some, List,
  [], ◌∷◌, ◌++◌, map, arith, ℤ, pos, negsuc, ltb, ◌==◌, string_eq, eq_iff, Bool-cases,
  if◌then◌else◌, length, length-append, contains, contains-append, count-append, All, All-map,
}
use codefort.Ci.{Pipeline, needs_of, job_names, occurrences, HasDistinctJobs}
use codefort.Ci.Order.{
  is_zero, set, release, Progress, emit, round, ordered, rounds, start, topo_order,
}
use codefort.Ci.Order.Degrees.{
  length-job_names, job_names-distinct, occurrences-job_names, contains-occurrences,
  absent-occurrences, unmet, unmet-append, met-occurrences, lower, lower-pos, release_once,
}

-- Each job of the list comes after every job it needs, given the jobs that came before the list.
abbrev pub IsOrderedAfter : Pipeline → List String → List String → Type 0
IsOrderedAfter p seen [] = Unit
IsOrderedAfter p seen (n ∷ ns) =
    All (λ d. contains seen d ≡ true) (needs_of p n) × IsOrderedAfter p (seen ++ n ∷ []) ns

-- What the loop keeps: the order so far is right and holds distinct jobs, a degree is -1 for an
-- emitted job and counts the unmet needs of every other, and no job is lost.
pub record IsPartial (p : Pipeline) (s : Progress) : Type 0 where
  pub follows : IsOrderedAfter p [] s.order
  pub once : (a : String) → occurrences a s.order ≤ 1
  pub closed : (a : String) → contains s.order a ≡ true → unmet s.order (needs_of p a) ≡ 0
  pub emitted :
      (a : String)
      → contains (job_names p) a ≡ true
      → contains s.order a ≡ true
      → s.indegree a ≡ negsuc 0
  pub waiting :
      (a : String)
      → contains (job_names p) a ≡ true
      → contains s.order a ≡ false
      → s.indegree a ≡ pos (unmet s.order (needs_of p a))
  pub known : (a : String) → contains s.order a ≡ true → contains (job_names p) a ≡ true
  pub balance : unmet s.order (job_names p) + length s.order ≡ length p.jobs

append-IsOrderedAfter :
    (p : Pipeline) (seen xs : List String) (a : String)
    → IsOrderedAfter p seen xs
    → All (λ d. contains (seen ++ xs) d ≡ true) (needs_of p a)
    → IsOrderedAfter p seen (xs ++ a ∷ [])
append-IsOrderedAfter p seen [] a h n = (
  All-map (λ d. contains (seen ++ []) d ≡ true) (λ d. contains seen d ≡ true) (needs_of p a)
      (λ d m. ground (arith, m, contains-append seen [] d)) n,
  tt,
)
append-IsOrderedAfter p seen (x ∷ xs) a h n = (
  h.0,
  append-IsOrderedAfter p (seen ++ x ∷ []) xs a h.1 (
      All-map (λ d. contains (seen ++ x ∷ xs) d ≡ true)
        (λ d. contains ((seen ++ x ∷ []) ++ xs) d ≡ true) (needs_of p a)
        (λ d m. ground (
          arith,
          m,
          contains-append seen (x ∷ xs) d,
          contains-append seen (x ∷ []) d,
          contains-append (seen ++ x ∷ []) xs d,
        ))
        n),
)

unmet-All :
    (order deps : List String) → unmet order deps ≡ 0 → All (λ d. contains order d ≡ true) deps
unmet-All order [] z = tt
unmet-All order (d ∷ deps) z = (ground arith, unmet-All order deps (ground arith))

unmet_mono :
    (order : List String) (name : String) (deps : List String)
    → unmet order deps ≡ 0
    → unmet (order ++ name ∷ []) deps ≡ 0
unmet_mono order name [] z = refl
unmet_mono order name (d ∷ deps) z =
    ground (arith, contains-append order (name ∷ []) d, unmet_mono order name deps)

pub start-IsPartial : (p : Pipeline) → IsPartial p (start p)
unfolding start
start-IsPartial p = record {
  follows = tt;
  once = λ a. omega arith;
  closed = λ a h. absurd (ground arith);
  emitted = λ a k h. absurd (ground arith);
  known = λ a h. absurd (ground arith);
  waiting = λ a k h. ap pos (none_met (needs_of p a));
  balance = omega (arith, none_met (job_names p), length-job_names p);
}
  where
    none_met : (deps : List String) → length deps ≡ unmet [] deps
    none_met [] = refl
    none_met (d ∷ deps) = ap suc (none_met deps)

pos_zero : (n : ℕ) → is_zero (pos n) ≡ true → n ≡ 0
pos_zero zero h = refl
pos_zero (suc n) h = absurd (ground arith)

-- A job of the pipeline whose degree is 0 is not emitted, and its needs are.
ready_job :
    (p : Pipeline) (s : Progress) (name : String)
    → IsPartial p s
    → contains (job_names p) name ≡ true
    → is_zero (s.indegree name) ≡ true
    → (contains s.order name ≡ false) × (unmet s.order (needs_of p name) ≡ 0)
ready_job p s name i there z = elim (Bool-cases (contains s.order name)) [
  | inl h ↦ absurd (ground (arith, i.emitted name there h))
  | inr h ↦ (h, pos_zero _ (ap is_zero (sym (i.waiting name there h)) ∙ z))
]

-- The degrees after `name` is emitted.
degree_after :
    (p : Pipeline) (s : Progress) (name a : String)
    → HasDistinctJobs p
    → contains (job_names p) a ≡ true
    → release p name (job_names p) (set name (negsuc 0) s.indegree) a
      ≡ lower (occurrences name (needs_of p a)) (if a == name then negsuc 0 else s.indegree a)
degree_after p s name a d there =
    release_once p name a (job_names p) (set name (negsuc 0) s.indegree)
      (omega (arith, job_names-distinct p d a, contains-occurrences a (job_names p) there))

-- The facts about one emitted job, with `order` and `name` for the order and the job.
module _ (p : Pipeline) (order : List String) (name a : String)
    (out : contains order name ≡ false) where
  once_after : occurrences a order ≤ 1 → occurrences a (order ++ name ∷ []) ≤ 1
  once_after u = elim (Bool-cases (name == a)) [
    | inr e ↦ ground (arith, e, u, count-append (λ x. x == a) order (name ∷ []))
    | inl e ↦ ground (
      arith,
      e,
      count-append (λ x. x == a) order (name ∷ []),
      absent-occurrences a order (ap (contains order) (sym ((eq_iff name a).0 e)) ∙ out),
    )
  ]

  closed_after :
      unmet order (needs_of p name) ≡ 0
      → (contains order a ≡ true → unmet order (needs_of p a) ≡ 0)
      → contains (order ++ name ∷ []) a ≡ true
      → unmet order (needs_of p a) ≡ 0
  closed_after met c h = elim (Bool-cases (a == name)) [
    | inl e ↦ ap (λ n. unmet order (needs_of p n)) ((eq_iff a name).0 e) ∙ met
    | inr e ↦ c (ground (arith, e, h, contains-append order (name ∷ []) a))
  ]

  emitted_after :
      (m : ℤ)
      → unmet order (needs_of p a) ≡ 0
      → (contains order a ≡ true → m ≡ negsuc 0)
      → contains (order ++ name ∷ []) a ≡ true
      → lower (occurrences name (needs_of p a)) (if a == name then negsuc 0 else m) ≡ negsuc 0
  emitted_after m met was h =
      rw (met-occurrences order name (needs_of p a) out met) (elim (Bool-cases (a == name)) [
        | inl e ↦ rw e refl
        | inr e ↦ rw e (was (ground (arith, e, h, contains-append order (name ∷ []) a)))
      ])

  waiting_after :
      (m : ℤ)
      → (contains order a ≡ false → m ≡ pos (unmet order (needs_of p a)))
      → contains (order ++ name ∷ []) a ≡ false
      → lower (occurrences name (needs_of p a)) (if a == name then negsuc 0 else m)
        ≡ pos (unmet (order ++ name ∷ []) (needs_of p a))
  waiting_after m was h =
      let other : (a == name) ≡ false = ground (arith, h, contains-append order (name ∷ []) a) in
      let before : contains order a ≡ false =
        ground (arith, h, contains-append order (name ∷ []) a) in
      rw (other, was before)
        (lower-pos (occurrences name (needs_of p a)) (unmet (order ++ name ∷ []) (needs_of p a)) _
          (unmet-append order name (needs_of p a) out))

  known_after :
      contains (job_names p) name ≡ true
      → (contains order a ≡ true → contains (job_names p) a ≡ true)
      → contains (order ++ name ∷ []) a ≡ true
      → contains (job_names p) a ≡ true
  known_after there k h = elim (Bool-cases (a == name)) [
    | inl e ↦ ap (contains (job_names p)) ((eq_iff a name).0 e) ∙ there
    | inr e ↦ k (ground (arith, e, h, contains-append order (name ∷ []) a))
  ]

emit-IsPartial :
    (p : Pipeline) (s : Progress) (name : String)
    → HasDistinctJobs p
    → contains (job_names p) name ≡ true
    → IsPartial p s
    → IsPartial p (emit p s name)
unfolding emit
emit-IsPartial p s name d there i = elim (Bool-cases (is_zero (s.indegree name))) [
  | inr e ↦ rw e i
  | inl e ↦
      let (out, met) = ready_job p s name i there e in
      let closed : (a : String)
          → contains (s.order ++ name ∷ []) a ≡ true
          → unmet s.order (needs_of p a) ≡ 0 =
        λ a h. closed_after p s.order name a out met (i.closed a) h in
      rw e (record {
        follows =
            append-IsOrderedAfter p [] s.order name i.follows
              (unmet-All s.order (needs_of p name) met);
        once = λ a. once_after p s.order name a out (i.once a);
        closed = λ a h. unmet_mono s.order name (needs_of p a) (closed a h);
        emitted = λ a k h.
            degree_after p s name a d k
            ∙ emitted_after p s.order name a out (s.indegree a) (closed a h) (i.emitted a k) h;
        waiting = λ a k h.
            degree_after p s name a d k
            ∙ waiting_after p s.order name a out (s.indegree a) (i.waiting a k) h;
        known = λ a h. known_after p s.order name a out there (i.known a) h;
        balance = omega (
          arith,
          i.balance,
          unmet-append s.order name (job_names p) out,
          job_names-distinct p d name,
          contains-occurrences name (job_names p) there,
          length-append s.order (name ∷ []),
        );
      })
]

round-IsPartial :
    (p : Pipeline) (names : List String) (s : Progress)
    → HasDistinctJobs p
    → All (λ n. contains (job_names p) n ≡ true) names
    → IsPartial p s
    → IsPartial p (round p names s)
unfolding round
round-IsPartial p [] s d h i = i
round-IsPartial p (n ∷ names) s d h i =
    round-IsPartial p names (emit p s n) d h.1 (emit-IsPartial p s n d h.0 i)

pub contains_self : (seen xs : List String) → All (λ n. contains (seen ++ xs) n ≡ true) xs
contains_self seen [] = tt
contains_self seen (x ∷ xs) = (
  ground (arith, contains-append seen (x ∷ xs) x, (eq_iff x x).1 refl),
  All-map (λ n. contains ((seen ++ x ∷ []) ++ xs) n ≡ true)
      (λ n. contains (seen ++ x ∷ xs) n ≡ true) xs
      (λ n m. ground (
        arith,
        m,
        contains-append (seen ++ x ∷ []) xs n,
        contains-append seen (x ∷ []) n,
        contains-append seen (x ∷ xs) n,
      ))
      (contains_self (seen ++ x ∷ []) xs),
)

pub whole_round-IsPartial :
    (p : Pipeline) (s : Progress)
    → HasDistinctJobs p
    → IsPartial p s
    → IsPartial p (round p (job_names p) (record s { progressed = false }))
whole_round-IsPartial p s d i =
    round-IsPartial p (job_names p) (record s { progressed = false }) d
      (contains_self [] (job_names p))
      (record {
        follows = i.follows;
        once = i.once;
        closed = i.closed;
        emitted = i.emitted;
        waiting = i.waiting;
        known = i.known;
        balance = i.balance;
      })

-- A partial order that is as long as the pipeline holds every job.
full_order :
    (p : Pipeline) (s : Progress) (a : String)
    → HasDistinctJobs p
    → IsPartial p s
    → ltb (length s.order) (length p.jobs) ≡ false
    → occurrences a s.order ≡ occurrences a (job_names p)
full_order p s a d i full = elim (Bool-cases (contains s.order a)) [
  | inl h ↦ omega (
    arith,
    i.once a,
    contains-occurrences a s.order h,
    job_names-distinct p d a,
    contains-occurrences a (job_names p) (i.known a h),
  )
  | inr h ↦ omega (
    arith,
    absent-occurrences a s.order h,
    met-occurrences s.order a (job_names p) h (omega (arith, i.balance, long full)),
  )
]
  where
    long : ltb (length s.order) (length p.jobs) ≡ false → length p.jobs ≤ length s.order
    long h = ground arith

rounds-ordered :
    (p : Pipeline) (fuel : ℕ) (s : Progress) (o : List String)
    → HasDistinctJobs p
    → IsPartial p s
    → rounds p fuel s ≡ some (ordered o)
    → IsOrderedAfter p [] o × ((a : String) → occurrences a o ≡ occurrences a (job_names p))
unfolding rounds
rounds-ordered p zero s o d i h = elim (Bool-cases (ltb (length s.order) (length p.jobs))) [
  | inl e ↦ absurd (ground (arith, e, h))
  | inr e ↦
      let same : s.order ≡ o = ground (arith, e, h) in
      subst
        (λ xs.
          IsOrderedAfter p [] xs × ((a : String) → occurrences a xs ≡ occurrences a (job_names p)))
        same (i.follows, λ a. full_order p s a d i e)
]
rounds-ordered p (suc fuel) s o d i h = elim (Bool-cases (ltb (length s.order) (length p.jobs))) [
  | inr e ↦
      let same : s.order ≡ o = ground (arith, e, h) in
      subst
        (λ xs.
          IsOrderedAfter p [] xs × ((a : String) → occurrences a xs ≡ occurrences a (job_names p)))
        same (i.follows, λ a. full_order p s a d i e)
  | inl e ↦ elim (Bool-cases (round p (job_names p) (record s { progressed = false })).progressed) [
    | inr f ↦ absurd (ground (arith, e, f, h))
    | inl f ↦ rounds-ordered p fuel _ o d (whole_round-IsPartial p s d i) (ground (arith, e, f, h))
  ]
]

-- When the job names are distinct, an order that TopoOrder returns has each job of the pipeline
-- exactly as often as the pipeline and puts it after every job that it needs.
pub topo_order_sound :
    (p : Pipeline) (o : List String)
    → HasDistinctJobs p
    → topo_order p ≡ some (ordered o)
    → IsOrderedAfter p [] o
      × ((a : String) → occurrences a o ≡ occurrences a (map (λ j. j.0) p.jobs))
unfolding topo_order
topo_order_sound p o d h =
    let (after, all) = rounds-ordered p (length p.jobs) (start p) o d (start-IsPartial p) h in
    (after, λ a. all a ∙ occurrences-job_names p a)
