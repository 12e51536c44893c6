-- ===== src/Prelude/Int.antt =====
-- Python's `int`, for the settings that may be negative.
use Prim.Native.Nat.{ℕ}
use mathlib.Core.Bool.{Bool, false}
use pyverge.Prelude.Tests.{ltb}

-- `negsuc n` is -(n + 1).
pub data ℤ : Type 0 where
  pos : ℕ → ℤ
  negsuc : ℕ → ℤ

-- `i >= 0 and n > i`, for a size `n`.
abbrev pub exceeds : ℕ → ℤ → Bool
exceeds n (pos i) = ltb i n
exceeds n (negsuc i) = false
