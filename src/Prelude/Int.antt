-- ===== src/Prelude/Int.antt =====
-- Integers over the native numbers, as far as the program's `int` needs them.
use Prim.Native.Nat.{ℕ, zero, suc, ◌+◌, ◌-◌, ◌*◌, ◌%◌, ◌^◌}
use mathlib.Core.Bool.{Bool}
use kuro_net.Prelude.Tests.{ltb, leb, if◌then◌else◌}

-- `negsuc n` is -(n + 1).
pub data ℤ : Type 0 where
  pos : ℕ → ℤ
  negsuc : ℕ → ℤ

-- - n
abbrev pub neg : ℕ → ℤ
neg zero = pos 0
neg (suc n) = negsuc n

-- n * k for a factor that is no less than 0.
abbrev pub ◌*ℕ◌ : ℤ → ℕ → ℤ
◌*ℕ◌ (pos n) k = pos (n * k)
◌*ℕ◌ (negsuc n) k = neg (suc n * k)

-- The range of a 32-bit `int`.
abbrev pub fits_int : ℤ → Bool
fits_int (pos n) = ltb n (2 ^ 31)
fits_int (negsuc n) = ltb n (2 ^ 31)

-- a - b, as an integer.
abbrev pub sub_ℕ : ℕ → ℕ → ℤ
sub_ℕ a b = if leb b a then pos (a - b) else neg (b - a)

-- n + z
abbrev pub add_ℕ : ℕ → ℤ → ℤ
add_ℕ n (pos m) = pos (n + m)
add_ℕ n (negsuc m) = sub_ℕ n (suc m)

-- The 32-bit `int` whose bit pattern is `m`, for `m` below 2 ^ 32.
abbrev of_bits : ℕ → ℤ
of_bits m = if ltb m (2 ^ 31) then pos m else neg (2 ^ 32 - m)

-- The conversion of a wider integer to `int`.
abbrev pub to_int : ℤ → ℤ
to_int (pos n) = of_bits (n % 2 ^ 32)
to_int (negsuc n) = of_bits (2 ^ 32 - 1 - n % 2 ^ 32)
