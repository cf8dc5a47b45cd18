-- ===== src/Base/Ints.antt =====
-- Signed numbers, and an int64 counter kept as its bit pattern.
use Prim.Native.Nat.{ℕ, suc, zero, ◌+◌, ◌/◌, ◌%◌, ◌^◌, ◌<◌}
use mathlib.Core.Logic.{◌≢◌}
use mathlib.Core.Bool.{Bool, true, false, ◌&&◌}
use native.Mathlib.Omega.{arith}
use stable_placement.Base.Tests.{ltb, leb}

-- `negsuc n` is -(n + 1).
pub data ℤ : Type 0 where
  pos : ℕ → ℤ
  negsuc : ℕ → ℤ

abbrev pub ltb_int : ℤ → ℤ → Bool
ltb_int (pos a) (pos b) = ltb a b
ltb_int (pos a) (negsuc b) = false
ltb_int (negsuc a) (pos b) = true
ltb_int (negsuc a) (negsuc b) = ltb b a

abbrev pub leb_int : ℤ → ℤ → Bool
leb_int (pos a) (pos b) = leb a b
leb_int (pos a) (negsuc b) = false
leb_int (negsuc a) (pos b) = true
leb_int (negsuc a) (negsuc b) = leb b a

abbrev pub is_zero : ℤ → Bool
is_zero (pos a) = leb a 0
is_zero (negsuc a) = false

abbrev pub is_negative : ℤ → Bool
is_negative (pos a) = false
is_negative (negsuc a) = true

abbrev neg : ℕ → ℤ
neg n = elim n [ zero ↦ pos 0 | suc m ↦ negsuc m ]

-- Go's division by a positive constant: it truncates towards zero.
abbrev pub quot : ℤ → ℕ → ℤ
quot (pos a) k = pos (a / k)
quot (negsuc a) k = neg (suc a / k)

-- `version++` on an int64, wrapping.
abbrev pub increment : ℕ → ℕ
increment v = (v + 1) % 2 ^ 64

-- `version > 0` on an int64, read off the bit pattern.
abbrev pub is_positive : ℕ → Bool
is_positive v = ltb 0 v && ltb v (2 ^ 63)

pub increment-ne : (v : ℕ) → v < 2 ^ 64 → increment v ≢ v
increment-ne v h = omega arith
