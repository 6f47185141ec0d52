-- ===== src/Ci/Order/Complete.antt =====
-- TopoOrder of internal/ci/ci.go: its rounds, and the pipelines for which they end in an order.
use codefort.Base.{
  ℕ, zero, suc, ◌+◌, ◌≤◌, ◌<◌, ◌≡◌, refl, sym, ap, ◌∙◌, subst, ◌⊎◌, inl, inr, String, Bool, true,
  false, not, ◌&&◌, Option, some, List, [], ◌∷◌, arith, pos, ltb, ◌==◌, string_eq, eq_iff,
  Bool-cases, length, length-append, contains, count, All, least_of,
}
use codefort.Ci.{Pipeline, needs_of, job_names, HasDistinctJobs}
use codefort.Ci.Order.{
  is_zero, Progress, emit, round, Outcome, ordered, cyclic, rounds, start, topo_order,
}
use codefort.Ci.Order.Degrees.{unmet}
use codefort.Ci.Order.Sound.{IsPartial, start-IsPartial, whole_round-IsPartial, contains_self}

-- What Validate asks of the jobs: distinct names, no need that is not a job, and no cycle, which a
-- rank that every need lowers shows.
pub record IsValid (p : Pipeline) : Type 0 where
  pub distinct : HasDistinctJobs p
  pub known :
      (a d : String)
      → contains (job_names p) a ≡ true
      → contains (needs_of p a) d ≡ true
      → contains (job_names p) d ≡ true
  pub rank : String → ℕ
  pub descends :
      (a d : String)
      → contains (job_names p) a ≡ true
      → contains (needs_of p a) d ≡ true
      → rank d < rank a

emit-cases :
    (p : Pipeline) (s : Progress) (n : String)
    → ((is_zero (s.indegree n) ≡ false) × (emit p s n ≡ s))
      ⊎ (((emit p s n).progressed ≡ true) × (length s.order < length (emit p s n).order))
unfolding emit
emit-cases p s n = elim (Bool-cases (is_zero (s.indegree n))) [
  | inr e ↦ inl (e, rw e refl)
  | inl e ↦ inr (rw e refl, rw e (omega (arith, length-append s.order (n ∷ []))))
]

-- A round that emits nothing changes nothing, and one that emits a job makes the order longer.
round-cases :
    (p : Pipeline) (names : List String) (s : Progress)
    → ((round p names s ≡ s) × All (λ n. is_zero (s.indegree n) ≡ false) names)
      ⊎ (((round p names s).progressed ≡ true) × (length s.order < length (round p names s).order))
unfolding round
round-cases p [] s = inl (refl, tt)
round-cases p (n ∷ names) s = elim (emit-cases p s n) [
  | inl (e, same) ↦ elim (round-cases p names s) [
    | inl (still, none_ready) ↦ inl (ap (round p names) same ∙ still, (e, none_ready))
    | inr (flag, longer) ↦ inr (
      ap (λ x. (round p names x).progressed) same ∙ flag,
      subst (λ x. length s.order < length (round p names x).order) (sym same) longer,
    )
  ]
  | inr (flag, longer) ↦ elim (round-cases p names (emit p s n)) [
    | inl (still, none_ready) ↦ inr (
      ap (λ x. x.progressed) still ∙ flag,
      subst (λ x. length s.order < length x.order) (sym still) longer,
    )
    | inr (flag', longer') ↦ inr (flag', omega (arith, longer, longer'))
  ]
]

-- One pass of the outer loop over a progress with the flag cleared.
abbrev pass : Pipeline → Progress → Progress
pass p s = round p (job_names p) (record s { progressed = false })

pass_longer :
    (p : Pipeline) (s : Progress)
    → (pass p s).progressed ≡ true
    → length s.order < length (pass p s).order
pass_longer p s f = elim (round-cases p (job_names p) (record s { progressed = false })) [
  | inl (still, none_ready) ↦ absurd (ground (arith, f, ap (λ x. x.progressed) still))
  | inr (flag, longer) ↦ longer
]

rounds_next :
    (p : Pipeline) (fuel : ℕ) (s : Progress) (r : Option Outcome)
    → ltb (length s.order) (length p.jobs) ≡ true
    → (pass p s).progressed ≡ true
    → rounds p fuel (pass p s) ≡ r
    → rounds p (suc fuel) s ≡ r
unfolding rounds
rounds_next p fuel s r e f eq = ground (arith, e, f, eq)

rounds-total :
    (p : Pipeline) (fuel : ℕ) (s : Progress)
    → length p.jobs ≤ length s.order + fuel
    → (out : Outcome) × (rounds p fuel s ≡ some out)
unfolding rounds
rounds-total p zero s h = (ordered s.order, ground (arith, h))
rounds-total p (suc fuel) s h = elim (Bool-cases (ltb (length s.order) (length p.jobs))) [
  | inr e ↦ (ordered s.order, ground (arith, e))
  | inl e ↦ elim (Bool-cases (pass p s).progressed) [
    | inr f ↦ (cyclic, ground (arith, e, f))
    | inl f ↦
        let (out, eq) = rounds-total p fuel (pass p s) (omega (arith, h, pass_longer p s f)) in
        (out, rounds_next p fuel s _ e f eq)
  ]
]

-- TopoOrder terminates: as many rounds as there are jobs are enough for it to return an order or
-- report a cycle, for every pipeline.
pub topo_order-total : (p : Pipeline) → (out : Outcome) × (topo_order p ≡ some out)
unfolding topo_order
topo_order-total p = rounds-total p (length p.jobs) (start p) (omega arith)

All-contains :
    (P : String → Type 0) (xs : List String) (a : String) → All P xs → contains xs a ≡ true → P a
All-contains P [] a h c = absurd (ground arith)
All-contains P (x ∷ xs) a h c = elim (Bool-cases (a == x)) [
  | inl e ↦ subst P (sym ((eq_iff a x).0 e)) h.0
  | inr e ↦ All-contains P xs a h.1 (ground (arith, e, c))
]

count-All :
    (k q : String → Bool) (xs : List String)
    → All (λ x. k x ≡ true) xs
    → count (λ x. k x && q x) xs ≡ count q xs
count-All k q [] h = refl
count-All k q (x ∷ xs) h = ground (arith, h.0, count-All k q xs h.1)

some_unmet :
    (order deps : List String)
    → 1 ≤ unmet order deps
    → (d : String) × (contains deps d ≡ true) × (contains order d ≡ false)
some_unmet order [] h = absurd (omega (arith, h))
some_unmet order (d ∷ deps) h = elim (Bool-cases (contains order d)) [
  | inr e ↦ (d, ground (arith, (eq_iff d d).1 refl), e)
  | inl e ↦
      let (x, there, out) = some_unmet order deps (ground (arith, e, h)) in
      (x, ground (arith, there), out)
]

positive : (n : ℕ) → is_zero (pos n) ≡ false → 1 ≤ n
positive zero h = absurd (ground arith)
positive (suc n) h = omega arith

-- In a valid pipeline some job is ready as long as the order is not complete.
never_stuck :
    (p : Pipeline) (s : Progress)
    → IsValid p
    → IsPartial p s
    → length s.order < length p.jobs
    → All (λ n. is_zero (s.indegree n) ≡ false) (job_names p)
    → ⊥
never_stuck p s v i short none_ready =
    elim (least_of v.rank (λ n. contains (job_names p) n && not (contains s.order n))
      (job_names p)) [
        | inl z ↦ absurd (
            omega (
              arith,
              z,
              i.balance,
              short,
              count-All (contains (job_names p)) (λ n. not (contains s.order n)) (job_names p)
                  (contains_self [] (job_names p)),
            ))
        | inr (m, t, l) ↦
            let there : contains (job_names p) m ≡ true = ground (arith, t) in
            let out : contains s.order m ≡ false = ground (arith, t) in
            let stuck =
              All-contains (λ n. is_zero (s.indegree n) ≡ false) (job_names p) m none_ready there in
            let (d, need, unmet_d) =
              some_unmet s.order (needs_of p m)
                (positive _ (ap is_zero (sym (i.waiting m there out)) ∙ stuck)) in
            let known_d = v.known m d there need in
            let above =
              All-contains
                (λ x.
                  (contains (job_names p) x && not (contains s.order x)) ≡ true
                  → v.rank m ≤ v.rank x)
                (job_names p) d l known_d (ground (arith, known_d, unmet_d)) in
            absurd (omega (arith, above, v.descends m d there need))
      ]

rounds_complete :
    (p : Pipeline) (fuel : ℕ) (s : Progress)
    → IsValid p
    → IsPartial p s
    → length p.jobs ≤ length s.order + fuel
    → (o : List String) × (rounds p fuel s ≡ some (ordered o))
unfolding rounds
rounds_complete p zero s v i h = (s.order, ground (arith, h))
rounds_complete p (suc fuel) s v i h = elim (Bool-cases (ltb (length s.order) (length p.jobs))) [
  | inr e ↦ (s.order, ground (arith, e))
  | inl e ↦ elim (Bool-cases (pass p s).progressed) [
    | inl f ↦
        let (o, eq) =
          rounds_complete p fuel (pass p s) v (whole_round-IsPartial p s v.distinct i)
            (omega (arith, h, pass_longer p s f)) in
        (o, rounds_next p fuel s _ e f eq)
    | inr f ↦ elim (round-cases p (job_names p) (record s { progressed = false })) [
      | inr (flag, longer) ↦ absurd (ground (arith, f, flag))
      | inl (still, none_ready) ↦ absurd (never_stuck p s v i (ground (arith, e)) none_ready)
    ]
  ]
]

-- TopoOrder returns an order for every pipeline whose job names are distinct, whose needs are jobs of
-- it, and whose needs edges have no cycle.
pub topo_order_complete :
    (p : Pipeline) → IsValid p → (o : List String) × (topo_order p ≡ some (ordered o))
unfolding topo_order
topo_order_complete p v =
    rounds_complete p (length p.jobs) (start p) v (start-IsPartial p) (omega arith)
