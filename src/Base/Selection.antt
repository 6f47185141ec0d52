-- ===== src/Base/Selection.antt =====
-- What SELECT … LIMIT 1 finds after INSERT, UPDATE and DELETE.
use Prim.Native.Nat.{◌≤◌}
use mathlib.Core.Path.{◌≡◌, refl, subst}
use mathlib.Core.Logic.{inl, inr}
use mathlib.Core.Bool.{Bool, true, false, ◌&&◌}
use mathlib.Core.Option.{none, some}
use mathlib.Core.List.{List, [], ◌∷◌, ◌++◌}
use native.Mathlib.Omega.{arith}
use codefort.Base.Tests.{Bool-cases, if◌then◌else◌}
use codefort.Base.Lists.{All, Any}
use codefort.Base.Rows.{select_first, update, delete, count}
use codefort.Base.Counting.{count-and-le}

module _ {A : Type 0} where
  -- What a search finds satisfies the test and every predicate of the table.
  pub select_first_sound {κ} :
      (P : A → Type κ) (p : A → Bool) (xs : List A) (a : A)
      → All P xs
      → select_first p xs ≡ some a
      → (p a ≡ true) × P a
  select_first_sound P p [] a h e = cc
  select_first_sound P p (x ∷ xs) a h e = elim (Bool-cases (p x)) [
    | inl hit ↦ subst (λ y. (p y ≡ true) × P y) (ground arith) (hit, h.0)
    | inr miss ↦ select_first_sound P p xs a h.1 (ground arith)
  ]

  pub select_first_test :
      (p : A → Bool) (xs : List A) (a : A) → select_first p xs ≡ some a → p a ≡ true
  select_first_test p [] a e = cc
  select_first_test p (x ∷ xs) a e = ground (arith, select_first_test p xs a)

  pub select_first-append :
      (p : A → Bool) (xs ys : List A) (a : A)
      → select_first p xs ≡ some a
      → select_first p (xs ++ ys) ≡ some a
  select_first-append p [] ys a e = cc
  select_first-append p (x ∷ xs) ys a e = ground (arith, select_first-append p xs ys a)

  pub select_first-append_none :
      (p : A → Bool) (xs ys : List A)
      → select_first p xs ≡ none
      → select_first p (xs ++ ys) ≡ select_first p ys
  select_first-append_none p [] ys e = refl
  select_first-append_none p (x ∷ xs) ys e = ground (arith, select_first-append_none p xs ys)

  -- An update that keeps what the test reads.
  pub select_first-update :
      (k p : A → Bool) (f : A → A) (xs : List A) (a : A)
      → ((x : A) → k (f x) ≡ k x)
      → select_first k xs ≡ some a
      → select_first k (update p f xs) ≡ some (if p a then f a else a)
  select_first-update k p f [] a h e = cc
  select_first-update k p f (x ∷ xs) a h e = ground (arith, h x, select_first-update k p f xs a h)

  pub select_first-update-none :
      (k p : A → Bool) (f : A → A) (xs : List A)
      → ((x : A) → k (f x) ≡ k x)
      → select_first k xs ≡ none
      → select_first k (update p f xs) ≡ none
  select_first-update-none k p f [] h e = refl
  select_first-update-none k p f (x ∷ xs) h e =
      ground (arith, h x, select_first-update-none k p f xs h)

  -- An update of other rows.
  pub select_first-update_other :
      (k p : A → Bool) (f : A → A) (xs : List A)
      → ((x : A) → k (f x) ≡ k x)
      → ((x : A) → k x ≡ true → p x ≡ false)
      → select_first k (update p f xs) ≡ select_first k xs
  select_first-update_other k p f [] h d = refl
  select_first-update_other k p f (x ∷ xs) h d =
      ground (arith, h x, d x, select_first-update_other k p f xs h d)

  pub select_first-delete_other :
      (k p : A → Bool) (xs : List A)
      → ((x : A) → k x ≡ true → p x ≡ false)
      → select_first k (delete p xs) ≡ select_first k xs
  select_first-delete_other k p [] d = refl
  select_first-delete_other k p (x ∷ xs) d = ground (arith, d x, select_first-delete_other k p xs d)

  pub select_first-delete :
      (k p : A → Bool) (xs : List A) (a : A)
      → select_first k xs ≡ some a
      → p a ≡ false
      → select_first k (delete p xs) ≡ some a
  select_first-delete k p [] a e n = cc
  select_first-delete k p (x ∷ xs) a e n = ground (arith, select_first-delete k p xs a)

  -- Under a unique key, a sharper test counts the one row of the key or none.
  pub count_unique :
      (k q : A → Bool) (xs : List A) (a : A)
      → count k xs ≤ 1
      → select_first k xs ≡ some a
      → count (λ x. k x && q x) xs ≡ (if q a then 1 else 0)
  count_unique k q [] a u e = cc
  count_unique k q (x ∷ xs) a u e = ground (arith, count_unique k q xs a, count-and-le k q xs)

  pub count_selected :
      (p q : A → Bool) (xs : List A) (a : A)
      → select_first p xs ≡ some a
      → q a ≡ true
      → 1 ≤ count q xs
  count_selected p q [] a e t = cc
  count_selected p q (x ∷ xs) a e t = ground (arith, count_selected p q xs a)

  -- Two searches that find rows of one unique key find the same row.
  pub select_first_unique :
      (p q k : A → Bool) (xs : List A) (a b : A)
      → count k xs ≤ 1
      → select_first p xs ≡ some a
      → select_first q xs ≡ some b
      → k a ≡ true
      → k b ≡ true
      → a ≡ b
  select_first_unique p q k [] a b u e f s t = cc
  select_first_unique p q k (x ∷ xs) a b u e f s t =
      ground
        (arith, select_first_unique p q k xs a b, count_selected p k xs a, count_selected q k xs b)

  -- What a search finds is a row of the table.
  pub select_first-Any :
      (p : A → Bool) (xs : List A) (a : A) → select_first p xs ≡ some a → Any (λ x. x ≡ a) xs
  select_first-Any p [] a e = cc
  select_first-Any p (x ∷ xs) a e = elim (Bool-cases (p x)) [
    | inl hit ↦ inl (ground arith)
    | inr miss ↦ inr (select_first-Any p xs a (ground arith))
  ]
