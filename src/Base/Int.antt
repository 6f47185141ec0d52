-- ===== src/Base/Int.antt =====
-- Signed integers, as far as the program's int and time.Duration parameters need them.
use Prim.Native.Nat.{ℕ, ◌/◌}
use mathlib.Core.Bool.{Bool, false}
use mathlib.Core.Option.{Option, none, some}
use codefort.Base.Tests.{ltb, if◌then◌else◌}

-- `negsuc n` is -(n + 1).
pub data ℤ : Type 0 where
  pos : ℕ → ℤ
  negsuc : ℕ → ℤ

-- x > 0
abbrev pub is_positive : ℤ → Bool
is_positive (pos n) = ltb 0 n
is_positive (negsuc n) = false

-- int64(d.Seconds()) for a positive duration d in nanoseconds; `none` for d <= 0, which every
-- caller treats as "disabled".
abbrev pub positive_seconds : ℤ → Option ℕ
positive_seconds (pos n) = if ltb 0 n then some (n / 1_000_000_000) else none
positive_seconds (negsuc n) = none
