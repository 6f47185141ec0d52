-- ===== src/Storage.antt =====
-- internal/storage: the sentinel errors, and what a storage function returns. An operation that
-- fails leaves the database as it was (its transaction is rolled back, or its one statement changed
-- no row), so the new state comes with a success only.
use codefort.Base.{ℕ, Option, none, some, ◌≡◌, refl, ap, ◌⊎◌, inl, inr, ◌==◌, nat_eq, if◌then◌else◌}

pub data Error : Type 0 where
  not_found invalid_input already_claimed not_owner no_update_fields : Error
  self_dependency dependency_cycle : Error
  no_run_queued no_turn_pending status_not_terminal : Error
  user_exists token_exists bad_credentials no_password : Error
  name_required password_too_short hash_failed constraint_failed : Error

pub data Result {ℓ} (A : Type ℓ) : Type ℓ where
  ok : A → Result A
  err : Error → Result A

infixl 5 ◌>>=◌
abbrev pub ◌>>=◌ {ℓ κ} : {A : Type ℓ} {B : Type κ} → Result A → (A → Result B) → Result B
ok a >>= f = f a
err e >>= f = err e

-- affected in ci.go: an UPDATE that changed no row is ErrNotFound.
abbrev pub affected {ℓ} : {A : Type ℓ} → ℕ → A → Result A
affected n a = if n == 0 then err not_found else ok a

abbrev pub found {ℓ} : {A : Type ℓ} → Option A → Error → Result A
found none e = err e
found (some a) e = ok a

-- The database after an operation: a failure leaves it as it was.
abbrev pub after {ℓ} : {A S : Type ℓ} → S → Result (A × S) → S
after s (ok (a, s')) = s'
after s (err e) = s

pub Result-cases {ℓ} :
    {A : Type ℓ} (r : Result A) → ((a : A) × (r ≡ ok a)) ⊎ ((e : Error) × (r ≡ err e))
Result-cases (ok a) = inl (a, refl)
Result-cases (err e) = inr (e, refl)

pub ok-injective {ℓ} : {A : Type ℓ} (a b : A) → ok a ≡ ok b → a ≡ b
ok-injective a b h = ap (λ r. elim r [ ok x ↦ x | err e ↦ a ]) h
