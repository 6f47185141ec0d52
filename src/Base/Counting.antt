-- ===== src/Base/Counting.antt =====
-- How INSERT, UPDATE and DELETE change the number of rows that satisfy a test, and MAX.
use Prim.Native.Nat.{ℕ, ◌+◌, ◌≤◌, ◌<◌}
use mathlib.Core.Path.{◌≡◌, refl}
use mathlib.Core.Bool.{Bool, true, false, ◌&&◌}
use mathlib.Core.Option.{none, some}
use mathlib.Core.List.{List, [], ◌∷◌, ◌++◌}
use native.Mathlib.Omega.{arith}
use codefort.Base.Rows.{select_first, update, delete, count, exists, max_of}

module _ {A : Type 0} where
  pub count-append : (p : A → Bool) (xs ys : List A) → count p (xs ++ ys) ≡ count p xs + count p ys
  count-append p [] ys = omega arith
  count-append p (x ∷ xs) ys = ground (arith, count-append p xs ys)

  -- An update that keeps what a test reads keeps its count.
  pub count-update :
      (k p : A → Bool) (f : A → A) (xs : List A)
      → ((x : A) → k (f x) ≡ k x)
      → count k (update p f xs) ≡ count k xs
  count-update k p f [] h = refl
  count-update k p f (x ∷ xs) h = ground (arith, h x, count-update k p f xs h)

  pub count-delete-le : (k p : A → Bool) (xs : List A) → count k (delete p xs) ≤ count k xs
  count-delete-le k p [] = omega arith
  count-delete-le k p (x ∷ xs) = ground (arith, count-delete-le k p xs)

  -- A sharper test counts fewer rows.
  pub count-and-le : (k q : A → Bool) (xs : List A) → count (λ x. k x && q x) xs ≤ count k xs
  count-and-le k q [] = omega arith
  count-and-le k q (x ∷ xs) = ground (arith, count-and-le k q xs)

  pub count-select_first :
      (p : A → Bool) (xs : List A) (a : A) → select_first p xs ≡ some a → 1 ≤ count p xs
  count-select_first p [] a h = cc
  count-select_first p (x ∷ xs) a h = ground (arith, count-select_first p xs a)

  pub count_of_none : (p : A → Bool) (xs : List A) → select_first p xs ≡ none → count p xs ≡ 0
  count_of_none p [] h = refl
  count_of_none p (x ∷ xs) h = ground (arith, count_of_none p xs)

  pub exists-select_first :
      (p : A → Bool) (xs : List A) (a : A) → select_first p xs ≡ some a → exists p xs ≡ true
  exists-select_first p [] a h = cc
  exists-select_first p (x ∷ xs) a h = ground (arith, exists-select_first p xs a)

  pub exists_of_none : (p : A → Bool) (xs : List A) → select_first p xs ≡ none → exists p xs ≡ false
  exists_of_none p [] h = refl
  exists_of_none p (x ∷ xs) h = ground (arith, exists_of_none p xs)

  -- Where no row reaches a value, no row has it.
  pub count_above :
      (p k : A → Bool) (f : A → ℕ) (n : ℕ) (xs : List A)
      → ((x : A) → k x ≡ true → (p x ≡ true) × (f x ≡ n))
      → max_of p f xs < n
      → count k xs ≡ 0
  count_above p k f n [] h m = refl
  count_above p k f n (x ∷ xs) h m = ground (arith, h x, count_above p k f n xs h)
