-- ===== src/Ci/Order/Degrees.antt =====
-- The sorted names, and what the loop over the dependents of a job does to the degrees.
use codefort.Base.{
  ℕ, zero, suc, ◌+◌, ◌≤◌, ◌≡◌, refl, sym, ap, ◌∙◌, subst, inl, inr, String, true, false, not, List,
  [], ◌∷◌, ◌++◌, map, arith, ℤ, pos, ◌==◌, string_eq, eq_iff, Bool-cases, length, contains,
  contains-append, count,
}
use codefort.Ci.{
  Pipeline, needs_of, before, insert, sort_strings, job_names, occurrences, HasDistinctJobs,
}
use codefort.Ci.Order.{pred, set, decrement, release}

pub beq_sym : (a b : String) → (a == b) ≡ (b == a)
beq_sym a b = elim (Bool-cases (a == b)) [
  | inl e ↦ e ∙ sym ((eq_iff b a).1 (sym ((eq_iff a b).0 e)))
  | inr e ↦ elim (Bool-cases (b == a)) [
    | inr f ↦ e ∙ sym f
    | inl f ↦ absurd (ground (arith, e, (eq_iff a b).1 (sym ((eq_iff b a).0 f))))
  ]
]

occurrences-insert :
    (x a : String) (xs : List String) → occurrences x (insert a xs) ≡ occurrences x (a ∷ xs)
occurrences-insert x a [] = refl
occurrences-insert x a (b ∷ bs) = elim (Bool-cases (before a b)) [
  | inl e ↦ rw e refl
  | inr e ↦ rw e (ground (arith, occurrences-insert x a bs))
]

pub occurrences-sort_strings :
    (x : String) (xs : List String) → occurrences x (sort_strings xs) ≡ occurrences x xs
occurrences-sort_strings x [] = refl
occurrences-sort_strings x (a ∷ rest) =
    occurrences-insert x a (sort_strings rest) ∙ ground (arith, occurrences-sort_strings x rest)

length-insert : (a : String) (xs : List String) → length (insert a xs) ≡ suc (length xs)
length-insert a [] = refl
length-insert a (b ∷ bs) = elim (Bool-cases (before a b)) [
  | inl e ↦ rw e refl
  | inr e ↦ rw e (omega (arith, length-insert a bs))
]

length-map : {A B : Type 0} (f : A → B) (xs : List A) → length (map f xs) ≡ length xs
length-map f [] = refl
length-map f (x ∷ xs) = ap suc (length-map f xs)

length-sort_strings : (xs : List String) → length (sort_strings xs) ≡ length xs
length-sort_strings [] = refl
length-sort_strings (a ∷ rest) =
    length-insert a (sort_strings rest) ∙ ap suc (length-sort_strings rest)

pub length-job_names : (p : Pipeline) → length (job_names p) ≡ length p.jobs
unfolding job_names
length-job_names p = length-sort_strings (map (λ j. j.0) p.jobs) ∙ length-map (λ j. j.0) p.jobs

pub job_names-distinct :
    (p : Pipeline) → HasDistinctJobs p → (a : String) → occurrences a (job_names p) ≤ 1
unfolding job_names
job_names-distinct p d a = omega (arith, d a, occurrences-sort_strings a (map (λ j. j.0) p.jobs))

pub occurrences-job_names :
    (p : Pipeline) (a : String)
    → occurrences a (job_names p) ≡ occurrences a (map (λ j. j.0) p.jobs)
unfolding job_names
occurrences-job_names p a = occurrences-sort_strings a (map (λ j. j.0) p.jobs)

pub contains-occurrences :
    (a : String) (xs : List String) → contains xs a ≡ true → 1 ≤ occurrences a xs
contains-occurrences a [] h = cc
contains-occurrences a (x ∷ xs) h = ground (arith, beq_sym a x, contains-occurrences a xs)

pub absent-occurrences :
    (a : String) (xs : List String) → contains xs a ≡ false → occurrences a xs ≡ 0
absent-occurrences a [] h = refl
absent-occurrences a (x ∷ xs) h = ground (arith, beq_sym a x, absent-occurrences a xs)

-- How many entries of a list are not emitted yet.
abbrev pub unmet : List String → List String → ℕ
unmet order deps = count (λ d. not (contains order d)) deps

-- Emitting a new name meets exactly the entries that are that name.
pub unmet-append :
    (order : List String) (name : String) (deps : List String)
    → contains order name ≡ false
    → unmet order deps ≡ occurrences name deps + unmet (order ++ name ∷ []) deps
unmet-append order name [] h = refl
unmet-append order name (d ∷ deps) h = elim (Bool-cases (d == name)) [
  | inl e ↦
      let is : d ≡ name = (eq_iff d name).0 e in
      let out : contains order d ≡ false = ap (contains order) is ∙ h in
      ground (arith, e, out, contains-append order (name ∷ []) d, unmet-append order name deps h)
  | inr e ↦ ground (arith, e, contains-append order (name ∷ []) d, unmet-append order name deps h)
]

pub met-occurrences :
    (order : List String) (name : String) (deps : List String)
    → contains order name ≡ false
    → unmet order deps ≡ 0
    → occurrences name deps ≡ 0
met-occurrences order name deps h z = omega (arith, unmet-append order name deps h)

-- pred, n times
abbrev pub lower : ℕ → ℤ → ℤ
lower zero i = i
lower (suc n) i = lower n (pred i)

pub lower-pos : (n m k : ℕ) → k ≡ n + m → lower n (pos k) ≡ pos m
lower-pos zero m k h = ap pos (omega (arith, h))
lower-pos (suc n) m zero h = absurd (omega (arith, h))
lower-pos (suc n) m (suc k) h = lower-pos n m k (omega (arith, h))

pub decrement-same :
    (name other : String) (deps : List String) (m : String → ℤ)
    → decrement name other deps m other ≡ lower (occurrences name deps) (m other)
decrement-same name other [] m = refl
decrement-same name other (d ∷ deps) m = elim (Bool-cases (d == name)) [
  | inr e ↦ rw (e, decrement) (decrement-same name other deps m)
  | inl e ↦ rw e (
      decrement-same name other deps (set other (pred (m other)) m)
      ∙ rw ((eq_iff other other).1 refl) refl)
]

pub decrement-other :
    (name other x : String) (deps : List String) (m : String → ℤ)
    → (x == other) ≡ false
    → decrement name other deps m x ≡ m x
decrement-other name other x [] m h = refl
decrement-other name other x (d ∷ deps) m h = elim (Bool-cases (d == name)) [
  | inr e ↦ rw e (decrement-other name other x deps m h)
  | inl e ↦ rw e (decrement-other name other x deps (set other (pred (m other)) m) h ∙ rw h refl)
]

release-absent :
    (p : Pipeline) (name x : String) (others : List String) (m : String → ℤ)
    → occurrences x others ≡ 0
    → release p name others m x ≡ m x
release-absent p name x [] m h = refl
release-absent p name x (other ∷ others) m h =
    release-absent p name x others _ (ground arith)
    ∙ decrement-other name other x (needs_of p other) m (ground (arith, beq_sym x other))

-- Over distinct names, each job is lowered once for every one of its entries that is the name.
pub release_once :
    (p : Pipeline) (name x : String) (others : List String) (m : String → ℤ)
    → occurrences x others ≡ 1
    → release p name others m x ≡ lower (occurrences name (needs_of p x)) (m x)
release_once p name x [] m h = cc
release_once p name x (other ∷ others) m h = elim (Bool-cases (x == other)) [
  | inl e ↦
      let is : x ≡ other = (eq_iff x other).0 e in
      release-absent p name x others _ (ground (arith, h, beq_sym x other, e))
      ∙ subst
          (λ o. decrement name o (needs_of p o) m x ≡ lower (occurrences name (needs_of p x)) (m x))
          is (decrement-same name x (needs_of p x) m)
  | inr e ↦
      release_once p name x others _ (ground (arith, h, beq_sym x other, e))
      ∙ ap (lower (occurrences name (needs_of p x)))
          (decrement-other name other x (needs_of p other) m e)
]
