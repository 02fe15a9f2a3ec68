-- ===== src/Base/Int.antt =====
-- Signed integers, as the program uses them: return codes, indices and lengths that may be -1.
use Prim.Native.Nat.{ℕ}
use mathlib.Core.Bool.{Bool, false}
use cray_pwrapi.Base.Tests.{◌==◌}

-- `negsuc n` is -(n + 1).
pub data ℤ : Type 0 where
  pos : ℕ → ℤ
  negsuc : ℕ → ℤ

abbrev pub int_eq : ℤ → ℤ → Bool
int_eq (pos a) (pos b) = a == b
int_eq (negsuc a) (negsuc b) = a == b
int_eq _ _ = false
