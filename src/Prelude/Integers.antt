-- ===== src/Prelude/Integers.antt =====
-- Go's `int` where a value may be negative: the natural numbers and their negatives.
use Prim.Native.Nat.{ℕ}
use mathlib.Core.Bool.{Bool, false}
use bandolier.Prelude.Tests.{leb}

-- `negsuc n` is -(n + 1).
pub data ℤ : Type 0 where
  pos negsuc : ℕ → ℤ

-- Whether the integer lies in 0..n.
abbrev pub up_to : ℕ → ℤ → Bool
up_to n (pos k) = leb k n
up_to n (negsuc k) = false
