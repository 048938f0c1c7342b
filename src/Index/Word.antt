-- ===== src/Index/Word.antt =====
-- Little-endian words: `to_le_bytes` and `from_le_bytes` of u32, u64 and i64.
use scap.Base.{
  ℕ, zero, suc, ◌+◌, ◌-◌, ◌*◌, ◌/◌, ◌%◌, ◌^◌, ◌<◌, ◌≡◌, refl, ap, [], ◌∷◌, arith, ltb,
  if◌then◌else◌, length,
}
use scap.Base.Int.{ℤ, pos, negsuc, IsI64}
use scap.Base.Bytes.{Bytes}

-- `to_le_bytes` of a word of `w` bytes, and `from_le_bytes`.
unfoldable pub le_bytes : ℕ → ℕ → Bytes
le_bytes zero n = []
le_bytes (suc w) n = (n % 256) ∷ le_bytes w (n / 256)

unfoldable pub from_le : Bytes → ℕ
from_le [] = 0
from_le (b ∷ bs) = b + 256 * from_le bs

-- An i64 is stored as its two's complement.
unfoldable pub i64_bits : ℤ → ℕ
i64_bits (pos n) = n
i64_bits (negsuc n) = 2 ^ 64 - 1 - n

unfoldable pub bits_i64 : ℕ → ℤ
bits_i64 u = if ltb u (2 ^ 63) then pos u else negsuc (2 ^ 64 - 1 - u)

pub length-le_bytes : (w n : ℕ) → length (le_bytes w n) ≡ w
unfolding le_bytes
length-le_bytes zero n = refl
length-le_bytes (suc w) n = ap suc (length-le_bytes w (n / 256))

from_le-le_bytes : (w n : ℕ) → n < 256 ^ w → from_le (le_bytes w n) ≡ n
unfolding le_bytes from_le
from_le-le_bytes zero n h = omega arith
from_le-le_bytes (suc w) n h = omega (arith, from_le-le_bytes w (n / 256) (omega arith))

pub from_le-u32 : (n : ℕ) → n < 2 ^ 32 → from_le (le_bytes 4 n) ≡ n
from_le-u32 n h = from_le-le_bytes 4 n h

pub from_le-u64 : (n : ℕ) → n < 2 ^ 64 → from_le (le_bytes 8 n) ≡ n
from_le-u64 n h = from_le-le_bytes 8 n h

pub bits_i64-i64_bits : (z : ℤ) → IsI64 z → bits_i64 (i64_bits z) ≡ z
unfolding bits_i64 i64_bits
bits_i64-i64_bits (pos n) h = ground arith
bits_i64-i64_bits (negsuc n) h = ground arith

pub i64_bits-lt : (z : ℤ) → IsI64 z → i64_bits z < 2 ^ 64
unfolding i64_bits
i64_bits-lt (pos n) h = omega arith
i64_bits-lt (negsuc n) h = omega arith
