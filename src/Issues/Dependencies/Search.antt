-- ===== src/Issues/Dependencies/Search.antt =====
-- dependsOnReaches of internal/storage/dependencies.go and reachability along depends-on edges.
use mathlib.Core.List.{reverse-cons}
use codefort.Base.{
  ℕ, zero, suc, ◌+◌, ◌≤◌, ◌<◌, ◌≡◌, refl, subst, ◌⊎◌, inl, inr, Bool, true, false, not, ◌&&◌, ◌||◌,
  some, List, [], ◌∷◌, ◌++◌, reverse, arith, ◌==◌, nat_eq, nat_beq_iff, if◌then◌else◌, contains,
  contains-append, length, length-append, Bool-cases,
}
use codefort.Issues.{Dependency}
use codefort.Issues.Dependencies.{targets, walk, rounds, depends_on_reaches}

abbrev pub Edge : List Dependency → ℕ → ℕ → ℕ → Type 0
Edge ds repo u v = contains (targets ds repo u) v ≡ true

-- The chains of depends-on edges from `u`.
pub data Reach (ds : List Dependency) (repo u : ℕ) : ℕ → Type 0 where
  here : Reach ds repo u u
  next : {v w : ℕ} → Reach ds repo u v → Edge ds repo v w → Reach ds repo u w

pub Reach-trans :
    (ds : List Dependency) (repo : ℕ) {u v w : ℕ}
    → Reach ds repo u v
    → Reach ds repo v w
    → Reach ds repo u w
Reach-trans ds repo p here = p
Reach-trans ds repo p (next q e) = next (Reach-trans ds repo p q) e

contains-reverse : (xs : List ℕ) (a : ℕ) → contains (reverse xs) a ≡ contains xs a
contains-reverse [] a = refl
contains-reverse (x ∷ xs) a =
    rw (reverse-cons x xs)
      (ground (arith, contains-append (reverse xs) (x ∷ []) a, contains-reverse xs a))

length-reverse : (xs : List ℕ) → length (reverse xs) ≡ length xs
length-reverse [] = refl
length-reverse (x ∷ xs) =
    rw (reverse-cons x xs) (omega (arith, length-append (reverse xs) (x ∷ []), length-reverse xs))

-- The edges whose source is not visited yet.
unexplored : List Dependency → ℕ → List ℕ → ℕ
unexplored [] repo visited = 0
unexplored (d ∷ ds) repo visited =
    let rest = unexplored ds repo visited in
    if d.repo_id == repo && not (contains visited d.issue_number) then suc rest else rest

unexplored-le :
    (ds : List Dependency) (repo : ℕ) (visited : List ℕ) → unexplored ds repo visited ≤ length ds
unfolding unexplored
unexplored-le [] repo visited = omega arith
unexplored-le (d ∷ ds) repo visited = ground (arith, unexplored-le ds repo visited)

unexplored-visit :
    (ds : List Dependency) (repo : ℕ) (visited : List ℕ) (cur : ℕ)
    → contains visited cur ≡ false
    → unexplored ds repo (cur ∷ visited) + length (targets ds repo cur) ≡ unexplored ds repo visited
unfolding unexplored
unexplored-visit [] repo visited cur h = omega arith
unexplored-visit (d ∷ ds) repo visited cur h =
    ground (arith, unexplored-visit ds repo visited cur h, nat_beq_iff d.issue_number cur)

module _ (ds : List Dependency) (repo target : ℕ) where
  pushed_length :
      (cur : ℕ) (stack : List ℕ)
      → length (reverse (targets ds repo cur) ++ stack)
        ≡ length (targets ds repo cur) + length stack
  pushed_length cur stack = omega (
    arith,
    length-append (reverse (targets ds repo cur)) stack,
    length-reverse (targets ds repo cur),
  )

  walk_total :
      (fuel : ℕ) (visited stack : List ℕ)
      → unexplored ds repo visited + length stack < fuel
      → (b : Bool) × (walk ds repo target fuel visited stack ≡ some b)
  unfolding walk
  walk_total zero visited stack h = absurd (omega arith)
  walk_total (suc fuel) visited [] h = (false, refl)
  walk_total (suc fuel) visited (cur ∷ stack) h = elim (Bool-cases (cur == target)) [
    | inl e ↦ (true, rw e)
    | inr e ↦ rw e (elim (Bool-cases (contains visited cur)) [
      | inl old ↦ rw old (walk_total fuel visited stack (omega arith))
      | inr new ↦ rw new (
          walk_total fuel (cur ∷ visited) (reverse (targets ds repo cur) ++ stack)
            (omega (arith, unexplored-visit ds repo visited cur new, pushed_length cur stack)))
    ])
  ]

  pushed-Reach :
      (from cur : ℕ) (stack : List ℕ)
      → ((x : ℕ) → contains (cur ∷ stack) x ≡ true → Reach ds repo from x)
      → (x : ℕ) → contains (reverse (targets ds repo cur) ++ stack) x ≡ true
      → Reach ds repo from x
  pushed-Reach from cur stack h x m = elim (Bool-cases (contains stack x)) [
    | inl old ↦ h x (ground arith)
    | inr new ↦ next (h cur (ground (arith, nat_beq_iff cur cur))) (
        ground (
          arith,
          contains-append (reverse (targets ds repo cur)) stack x,
          contains-reverse (targets ds repo cur) x,
        ))
  ]

  walk_sound :
      (from fuel : ℕ) (visited stack : List ℕ)
      → ((x : ℕ) → contains stack x ≡ true → Reach ds repo from x)
      → walk ds repo target fuel visited stack ≡ some true
      → Reach ds repo from target
  unfolding walk
  walk_sound from zero visited stack h e = cc
  walk_sound from (suc fuel) visited [] h e = cc
  walk_sound from (suc fuel) visited (cur ∷ stack) h e = elim (Bool-cases (cur == target)) [
    | inl hit ↦
        subst (Reach ds repo from) ((nat_beq_iff cur target).0 hit)
          (h cur (ground (arith, nat_beq_iff cur cur)))
    | inr miss ↦ elim (Bool-cases (contains visited cur)) [
      | inl old ↦ walk_sound from fuel visited stack (λ x m. h x (ground arith)) (ground arith)
      | inr new ↦
          walk_sound from fuel (cur ∷ visited) (reverse (targets ds repo cur) ++ stack)
            (pushed-Reach from cur stack h) (ground arith)
    ]
  ]

  -- A set that is closed under edges, keeps every entry and leaves `target` out.
  record Closure (visited stack : List ℕ) : Type 0 where
    set : List ℕ
    closed : (v w : ℕ) → contains set v ≡ true → Edge ds repo v w → contains set w ≡ true
    avoids : contains set target ≡ false
    has_visited : (x : ℕ) → contains visited x ≡ true → contains set x ≡ true
    has_stack : (x : ℕ) → contains stack x ≡ true → contains set x ≡ true

  Closure-skip :
      (visited stack : List ℕ) (cur : ℕ)
      → contains visited cur ≡ true
      → Closure visited stack
      → Closure visited (cur ∷ stack)
  Closure-skip visited stack cur old c = record {
    set = c.set;
    closed = c.closed;
    avoids = c.avoids;
    has_visited = c.has_visited;
    has_stack = λ x m. ground (arith, nat_beq_iff x cur, c.has_visited cur old, c.has_stack x);
  }

  contains-pushed :
      (cur : ℕ) (stack : List ℕ) (x : ℕ)
      → contains (reverse (targets ds repo cur) ++ stack) x
        ≡ (contains (targets ds repo cur) x || contains stack x)
  contains-pushed cur stack x = cc (
    contains-append (reverse (targets ds repo cur)) stack x,
    contains-reverse (targets ds repo cur) x,
  )

  Closure-visit :
      (visited stack : List ℕ) (cur : ℕ)
      → Closure (cur ∷ visited) (reverse (targets ds repo cur) ++ stack)
      → Closure visited (cur ∷ stack)
  Closure-visit visited stack cur c = record {
    set = c.set;
    closed = c.closed;
    avoids = c.avoids;
    has_visited = λ x m. c.has_visited x (ground arith);
    has_stack = λ x m.
        ground
          (arith, nat_beq_iff x cur, c.has_visited x, c.has_stack x, contains-pushed cur stack x);
  }

  visit_keeps :
      (visited stack : List ℕ) (cur : ℕ)
      → ((v w : ℕ)
          → contains visited v ≡ true
          → Edge ds repo v w
          → (contains visited w || contains (cur ∷ stack) w) ≡ true)
      → (v w : ℕ) → contains (cur ∷ visited) v ≡ true
      → Edge ds repo v w
      → (contains (cur ∷ visited) w || contains (reverse (targets ds repo cur) ++ stack) w) ≡ true
  visit_keeps visited stack cur k v w m d = elim (Bool-cases (v == cur)) [
    | inl e ↦
        let d' : Edge ds repo cur w = subst (λ u. Edge ds repo u w) ((nat_beq_iff v cur).0 e) d in
        ground (arith, contains-pushed cur stack w)
    | inr e ↦ ground (arith, contains-pushed cur stack w, k v w (ground arith) d)
  ]

  walk_complete :
      (fuel : ℕ) (visited stack : List ℕ)
      → ((v w : ℕ)
          → contains visited v ≡ true
          → Edge ds repo v w
          → (contains visited w || contains stack w) ≡ true)
      → contains visited target ≡ false
      → walk ds repo target fuel visited stack ≡ some false
      → Closure visited stack
  unfolding walk
  walk_complete zero visited stack k a e = cc
  walk_complete (suc fuel) visited [] k a e = record {
    set = visited;
    closed = λ v w m d. ground (arith, k v w m d);
    avoids = a;
    has_visited = λ x m. m;
    has_stack = λ x m. cc;
  }
  walk_complete (suc fuel) visited (cur ∷ stack) k a e = elim (Bool-cases (cur == target)) [
    | inl hit ↦ absurd (ground arith)
    | inr miss ↦ elim (Bool-cases (contains visited cur)) [
      | inl old ↦ Closure-skip visited stack cur old (
          walk_complete fuel visited stack (λ v w m d. ground (arith, k v w m d, nat_beq_iff w cur))
            a (ground arith))
      | inr new ↦ Closure-visit visited stack cur (
          walk_complete fuel (cur ∷ visited) (reverse (targets ds repo cur) ++ stack)
            (visit_keeps visited stack cur k)
            (ground (arith, nat_beq_iff cur target, nat_beq_iff target cur)) (ground arith))
    ]
  ]

  Reach-closed :
      (set : List ℕ) {u v : ℕ}
      → ((v w : ℕ) → contains set v ≡ true → Edge ds repo v w → contains set w ≡ true)
      → contains set u ≡ true
      → Reach ds repo u v
      → contains set v ≡ true
  Reach-closed set k m here = m
  Reach-closed set k m (next {v = v} {w = w} p d) = k v w (Reach-closed set k m p) d

-- The walk always answers within its fuel.
pub depends_on_reaches_total :
    (ds : List Dependency) (repo from target : ℕ)
    → (b : Bool) × (depends_on_reaches ds repo from target ≡ some b)
unfolding depends_on_reaches
depends_on_reaches_total ds repo from target =
    walk_total ds repo target (rounds ds) [] (from ∷ []) (omega (arith, unexplored-le ds repo []))

-- The answer is true exactly when a chain of edges leads from `from` to `target`.
pub depends_on_reaches_sound :
    (ds : List Dependency) (repo from target : ℕ)
    → depends_on_reaches ds repo from target ≡ some true
    → Reach ds repo from target
unfolding depends_on_reaches
depends_on_reaches_sound ds repo from target =
    walk_sound ds repo target from (rounds ds) [] (from ∷ [])
      (λ x m. subst (Reach ds repo from) (ground (arith, nat_beq_iff x from)) here)

pub depends_on_reaches_complete :
    (ds : List Dependency) (repo from target : ℕ)
    → depends_on_reaches ds repo from target ≡ some false
    → ¬ Reach ds repo from target
unfolding depends_on_reaches
depends_on_reaches_complete ds repo from target e p =
    let c = walk_complete ds repo target (rounds ds) [] (from ∷ []) (λ v w m d. cc) refl e in
    cc (
      c.avoids,
      Reach-closed ds repo target c.set c.closed
          (c.has_stack from (ground (arith, nat_beq_iff from from))) p,
    )

-- Within its fuel the walk always answers.
pub depends_on_reaches_decides :
    (ds : List Dependency) (repo from target : ℕ)
    → (depends_on_reaches ds repo from target ≡ some true)
      ⊎ (depends_on_reaches ds repo from target ≡ some false)
depends_on_reaches_decides ds repo from target =
    let (b, e) = depends_on_reaches_total ds repo from target in
    elim (Bool-cases b) [ inl h ↦ inl (cc) | inr h ↦ inr (cc) ]
