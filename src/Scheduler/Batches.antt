-- ===== src/Scheduler/Batches.antt =====
-- Settling several jobs at once, and what the statuses of a schedule say.
use codefort.Base.{
  ◌≤◌, ◌<◌, ◌≡◌, refl, sym, ap, ◌∙◌, inl, inr, String, Bool, true, false, not, ◌&&◌, ◌||◌, Option,
  none, some, List, [], ◌∷◌, arith, ◌==◌, string_eq, eq_iff, Bool-cases, if◌then◌else◌, delete,
  length, contains, exists,
}
use codefort.Runs.{JobStatus}
use codefort.Ci.Order.Degrees.{beq_sym}
use codefort.Scheduler.{succeeded, Schedule, settle, settle_all}

-- A job whose status is set to success.
abbrev pub is_done : (String → Option JobStatus) → String → Bool
is_done status d = elim (status d) [ none ↦ false | some st ↦ succeeded st ]

pub settle_all_status :
    (f : String → JobStatus) (xs : List String) (s : Schedule) (a : String)
    → (settle_all f xs s).status a ≡ (if contains xs a then some (f a) else s.status a)
settle_all_status f [] s a = refl
settle_all_status f (x ∷ xs) s a = elim (Bool-cases (a == x)) [
  | inl e ↦
      let is : a ≡ x = (eq_iff a x).0 e in
      settle_all_status f xs (settle x (f x) s) a ∙ ground (arith, e, ap f is)
  | inr e ↦ settle_all_status f xs (settle x (f x) s) a ∙ ground (arith, e)
]

contains-delete :
    (x a : String) (xs : List String)
    → contains (delete (λ y. y == x) xs) a ≡ (contains xs a && not (a == x))
contains-delete x a [] = refl
contains-delete x a (y ∷ ys) = elim (Bool-cases (y == x)) [
  | inl e ↦
      let is : y ≡ x = (eq_iff y x).0 e in
      rw e (
        contains-delete x a ys
        ∙ ap (λ z. contains ys a && not (a == z)) (sym is)
        ∙ ground arith
        ∙ ap (λ z. (a == y || contains ys a) && not (a == z)) is)
  | inr e ↦ rw e (elim (Bool-cases (a == y)) [
    | inr h ↦ rw h (contains-delete x a ys)
    | inl h ↦ rw h (ground (arith, e, ap (λ z. z == x) ((eq_iff a y).0 h)))
  ])
]

pub settle_all_pending :
    (f : String → JobStatus) (xs : List String) (s : Schedule) (a : String)
    → contains (settle_all f xs s).pending a ≡ (contains s.pending a && not (contains xs a))
settle_all_pending f [] s a = ground arith
settle_all_pending f (x ∷ xs) s a =
    settle_all_pending f xs (settle x (f x) s) a ∙ ground (arith, contains-delete x a s.pending)

length-delete_le : (x : String) (xs : List String) → length (delete (λ y. y == x) xs) ≤ length xs
length-delete_le x [] = omega arith
length-delete_le x (y ∷ ys) = ground (arith, length-delete_le x ys)

pub length-delete_lt :
    (x : String) (xs : List String)
    → contains xs x ≡ true
    → length (delete (λ y. y == x) xs) < length xs
length-delete_lt x [] h = absurd (ground arith)
length-delete_lt x (y ∷ ys) h = elim (Bool-cases (y == x)) [
  | inl e ↦ ground (arith, e, length-delete_le x ys)
  | inr e ↦ ground (arith, e, length-delete_lt x ys, h, beq_sym x y)
]

pub settle_all_shorter :
    (f : String → JobStatus) (xs : List String) (s : Schedule)
    → length (settle_all f xs s).pending ≤ length s.pending
settle_all_shorter f [] s = omega arith
settle_all_shorter f (x ∷ xs) s =
    omega (arith, settle_all_shorter f xs (settle x (f x) s), length-delete_le x s.pending)

pub settle_all_flag :
    (f : String → JobStatus) (xs : List String) (s : Schedule)
    → (settle_all f xs s).any_not_success
      ≡ (s.any_not_success || exists (λ x. not (succeeded (f x))) xs)
settle_all_flag f [] s = ground arith
settle_all_flag f (x ∷ xs) s = settle_all_flag f xs (settle x (f x) s) ∙ ground arith
