-- ===== src/Libkern/Bitmap.antt =====
-- sys/libkern/bitmap.c: bits of a byte array. A byte array is a function of the index.
pub mod Bytes
pub mod Marked
pub mod Tested
use qnixx.Common.{
  ℕ, ◌-◌, ◌/◌, ◌%◌, ◌^◌, Bool, bit_and, bit_or, ltb, ◌==◌, not, if◌then◌else◌, update,
}

-- What `bitmap_t` points to: byte `i` is below 256.
abbrev pub Bytes : Type 0
Bytes = ℕ → ℕ

-- `1 << (bit % 8)`
abbrev pub mask : ℕ → ℕ
mask bit = 2 ^ (bit % 8)

unfoldable pub set_bit : Bytes → ℕ → Bytes
set_bit bitmap bit = update bitmap (bit / 8) (bit_or (bitmap (bit / 8)) (mask bit))

-- On a byte, `& ~m` is `&` with the complement of `m` in eight bits.
unfoldable pub unset_bit : Bytes → ℕ → Bytes
unset_bit bitmap bit = update bitmap (bit / 8) (bit_and (bitmap (bit / 8)) (255 - mask bit))

-- A right shift of an `int`. C leaves a shift by 32 or more undefined: `undef` is what the machine
-- then gives.
unfoldable pub shift_right : (ℕ → ℕ → ℕ) → ℕ → ℕ → ℕ
shift_right undef x n = if ltb n 32 then x / 2 ^ n else undef x n

-- The returned byte. The shift is by `bit`, as the source has it.
unfoldable pub test_bit : (ℕ → ℕ → ℕ) → Bytes → ℕ → ℕ
unfolding shift_right
test_bit undef bitmap bit = shift_right undef (bit_and (bitmap (bit / 8)) (mask bit)) bit % 256

-- `bitmap_test_bit(bitmap, bit)` as a condition.
unfoldable pub is_set : (ℕ → ℕ → ℕ) → Bytes → ℕ → Bool
is_set undef bitmap bit = not (test_bit undef bitmap bit == 0)
