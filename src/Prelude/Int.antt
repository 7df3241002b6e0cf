-- ===== src/Prelude/Int.antt =====
-- Go's `int` where it may be negative: a number, or -(n + 1).
use Prim.Native.Nat.{ℕ}
use mathlib.Core.Path.{◌≡◌}
use mathlib.Core.Logic.{◌↔◌}
use mathlib.Core.Bool.{Bool, false}
use native.Mathlib.Omega.{arith}
use share_bridge.Prelude.Tests.{◌==◌}

pub data ℤ : Type 0 where
  pos : ℕ → ℤ
  negsuc : ℕ → ℤ

abbrev pub same_int : ℤ → ℤ → Bool
same_int (pos a) (pos b) = a == b
same_int (negsuc a) (negsuc b) = a == b
same_int _ _ = false

pub same_int_iff : (a b : ℤ) → (same_int a b ≡ Bool.true) ↔ (a ≡ b)
same_int_iff (pos a) b = ground arith
same_int_iff a b = ground arith
