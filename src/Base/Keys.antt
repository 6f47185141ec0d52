-- ===== src/Base/Keys.antt =====
-- Tables whose keys ascend: a row is found by its key, and the first match has the least key.
use Prim.Native.Nat.{ℕ, ◌≤◌, ◌<◌}
use mathlib.Core.Path.{◌≡◌, refl, sym, subst}
use mathlib.Core.Logic.{inl, inr, ◌⊎◌}
use mathlib.Core.Bool.{Bool, true}
use mathlib.Core.Option.{some}
use mathlib.Core.List.{List, [], ◌∷◌, ◌++◌}
use native.Mathlib.Omega.{arith}
use codefort.Base.Tests.{leb, nat_beq, nat_beq_iff, Bool-cases}
use codefort.Base.Lists.{All, All-append, All-map}
use codefort.Base.Rows.{select_first, update, delete, count, All-delete}

module _ {A : Type 0} (key : A → ℕ) where
  abbrev pub Ascending : List A → Type 0
  Ascending [] = Unit
  Ascending (x ∷ xs) = All (λ y. key x < key y) xs × Ascending xs

  pub Ascending-append :
      (xs : List A) (a : A) → Ascending xs → All (λ x. key x < key a) xs → Ascending (xs ++ a ∷ [])
  Ascending-append [] a h l = (tt, tt)
  Ascending-append (x ∷ xs) a h l =
      (All-append (λ y. key x < key y) xs (a ∷ []) h.0 (l.0, tt), Ascending-append xs a h.1 l.1)

  pub All-update_key :
      (P : ℕ → Type 0) (p : A → Bool) (f : A → A) (xs : List A)
      → ((x : A) → key (f x) ≡ key x)
      → All (λ y. P (key y)) xs
      → All (λ y. P (key y)) (update p f xs)
  All-update_key P p f [] k h = tt
  All-update_key P p f (x ∷ xs) k h = elim (Bool-cases (p x)) [
    | inl e ↦ rw (e, k x) (h.0, All-update_key P p f xs k h.1)
    | inr e ↦ rw e (h.0, All-update_key P p f xs k h.1)
  ]

  pub Ascending-update :
      (p : A → Bool) (f : A → A) (xs : List A)
      → ((x : A) → key (f x) ≡ key x)
      → Ascending xs
      → Ascending (update p f xs)
  Ascending-update p f [] k h = tt
  Ascending-update p f (x ∷ xs) k h =
      let later = All-update_key (λ n. key x < n) p f xs k h.0 in
      elim (Bool-cases (p x)) [
        | inl e ↦ rw (e, k x) (later, Ascending-update p f xs k h.1)
        | inr e ↦ rw e (later, Ascending-update p f xs k h.1)
      ]

  pub Ascending-delete : (p : A → Bool) (xs : List A) → Ascending xs → Ascending (delete p xs)
  Ascending-delete p [] h = tt
  Ascending-delete p (x ∷ xs) h = elim (Bool-cases (p x)) [
    | inl e ↦ rw e (Ascending-delete p xs h.1)
    | inr e ↦ rw e (All-delete (λ y. key x < key y) p xs h.0, Ascending-delete p xs h.1)
  ]

  count_below :
      (n : ℕ) (xs : List A) → All (λ y. n < key y) xs → count (λ x. nat_beq (key x) n) xs ≡ 0
  count_below n [] h = refl
  count_below n (x ∷ xs) h = ground (arith, count_below n xs h.1, h.0)

  pub count-Ascending : (n : ℕ) (xs : List A) → Ascending xs → count (λ x. nat_beq (key x) n) xs ≤ 1
  count-Ascending n [] h = omega arith
  count-Ascending n (x ∷ xs) h = elim (Bool-cases (nat_beq (key x) n)) [
    | inl e ↦ ground (
      arith,
      count_below n xs (subst (λ m. All (λ y. m < key y) xs) ((nat_beq_iff (key x) n).0 e) h.0),
    )
    | inr e ↦ rw e (count-Ascending n xs h.1)
  ]

  -- The first match is the match of least key.
  pub select_first-least :
      (p : A → Bool) (xs : List A) (a : A)
      → Ascending xs
      → select_first p xs ≡ some a
      → All (λ x. p x ≡ true → key a ≤ key x) xs
  select_first-least p [] a h e = tt
  select_first-least p (x ∷ xs) a h e = elim (Bool-cases (p x)) [
    | inl f ↦
        let is : x ≡ a = ground arith in
        subst (λ b. (p x ≡ true → key b ≤ key x) × All (λ y. p y ≡ true → key b ≤ key y) xs) is
          (
            (λ t. omega arith),
            All-map (λ y. key x < key y) (λ y. p y ≡ true → key x ≤ key y) xs
                (λ y l t. omega (arith, l)) h.0,
          )
    | inr f ↦ (λ t. absurd (ground arith), select_first-least p xs a h.1 (ground arith))
  ]

  -- The key of the first match finds it.
  pub select_first-key :
      (p : A → Bool) (xs : List A) (a : A)
      → Ascending xs
      → select_first p xs ≡ some a
      → select_first (λ x. nat_beq (key x) (key a)) xs ≡ some a
  select_first-key p [] a h e = cc
  select_first-key p (x ∷ xs) a h e = elim (Bool-cases (p x)) [
    | inl f ↦
        let is : x ≡ a = ground arith in rw (sym is) (ground (arith, nat_beq_iff (key x) (key x)))
    | inr f ↦
        let rest : select_first p xs ≡ some a = ground arith in
        ground (
          arith,
          select_first-key p xs a h.1 rest,
          All_at (λ y. key x < key y) p xs a h.0 rest,
          nat_beq_iff (key x) (key a),
        )
  ]
    where
      All_at :
          (P : A → Type 0) (p : A → Bool) (xs : List A) (a : A)
          → All P xs
          → select_first p xs ≡ some a
          → P a
      All_at P p [] a h e = cc
      All_at P p (x ∷ xs) a h e = elim (Bool-cases (p x)) [
        | inl f ↦ subst P (ground arith) h.0
        | inr f ↦ All_at P p xs a h.1 (ground arith)
      ]

-- The least key among the rows that pass a test.
pub least_of :
    {A : Type 0} (key : A → ℕ) (q : A → Bool) (xs : List A)
    → (count q xs ≡ 0) ⊎ ((m : A) × (q m ≡ true) × All (λ x. q x ≡ true → key m ≤ key x) xs)
least_of key q [] = inl refl
least_of key q (x ∷ xs) = elim (Bool-cases (q x)) [
  | inr e ↦ elim (least_of key q xs) [
    | inl z ↦ inl (ground arith)
    | inr (m, t, l) ↦ inr (m, t, (λ h. absurd (ground arith), l))
  ]
  | inl e ↦ elim (least_of key q xs) [
    | inl z ↦ inr (x, e, (λ h. omega arith, only_first key q x xs z))
    | inr (m, t, l) ↦ elim (Bool-cases (leb (key x) (key m))) [
      | inl f ↦ inr (
        x,
        e,
        (
          λ h. omega arith,
          All-map (λ y. q y ≡ true → key m ≤ key y) (λ y. q y ≡ true → key x ≤ key y) xs
              (λ y g h. ground (arith, g h)) l,
        ),
      )
      | inr f ↦ inr (m, t, (λ h. ground arith, l))
    ]
  ]
]
  where
    only_first :
        {A : Type 0} (key : A → ℕ) (q : A → Bool) (a : A) (xs : List A)
        → count q xs ≡ 0
        → All (λ x. q x ≡ true → key a ≤ key x) xs
    only_first key q a [] z = tt
    only_first key q a (x ∷ xs) z =
        (λ h. absurd (ground arith), only_first key q a xs (ground arith))
