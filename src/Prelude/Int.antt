-- ===== src/Prelude/Int.antt =====
-- Rust's i64 over the native numbers: casts and sums wrap, division goes towards zero.
-- `negsuc n` is -(n + 1).
use Prim.Native.Nat.{ℕ, suc, ◌+◌, ◌-◌, ◌/◌, ◌%◌, ◌^◌}
use remotelink.Prelude.Tests.{ltb, if◌then◌else◌}

pub data ℤ : Type 0 where
  pos : ℕ → ℤ
  negsuc : ℕ → ℤ

-- A bit pattern read as signed; `n as i64`.
unfoldable pub as_i64 : ℕ → ℤ
as_i64 n = let m = n % 2 ^ 64 in if ltb m (2 ^ 63) then pos m else negsuc (2 ^ 64 - 1 - m)

unfoldable pub bits : ℤ → ℕ
bits (pos n) = n % 2 ^ 64
bits (negsuc n) = 2 ^ 64 - 1 - n % 2 ^ 64

infixl 65 ◌+ℤ◌ ◌-ℤ◌
unfoldable pub ◌+ℤ◌ : ℤ → ℤ → ℤ
unfolding as_i64 bits
a +ℤ b = as_i64 (bits a + bits b)

unfoldable pub ◌-ℤ◌ : ℤ → ℤ → ℤ
unfolding as_i64 bits
a -ℤ b = as_i64 (bits a + (2 ^ 64 - bits b))

unfoldable pub unsigned_abs : ℤ → ℕ
unsigned_abs (pos n) = n
unsigned_abs (negsuc n) = suc n

abbrev pub neg : ℕ → ℤ
neg ℕ.zero = pos 0
neg (suc n) = negsuc n

-- Division by a positive number.
unfoldable pub quot : ℤ → ℕ → ℤ
quot (pos n) d = pos (n / d)
quot (negsuc n) d = neg (suc n / d)

-- `n.clamp(0, i64::MAX) as u64`
unfoldable pub clamp_nonneg : ℤ → ℕ
clamp_nonneg (pos n) = n
clamp_nonneg (negsuc n) = 0
