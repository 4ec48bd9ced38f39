-- ===== src/Libkern/Bitmap/Marked.antt =====
-- Which bits are set: what `bitmap_set_bit` and `bitmap_unset_bit` do to every bit.
use qnixx.Common.{ℕ, ◌/◌, ◌%◌, ◌<◌, ◌≡◌, arith, ◌==◌, if◌then◌else◌}
use qnixx.Libkern.Bitmap.{Bytes, set_bit, unset_bit}
use qnixx.Libkern.Bitmap.Bytes.{digit, digit-or, digit-and}

abbrev pub AreBytes : Bytes → Type 0
AreBytes bitmap = (i : ℕ) → bitmap i < 256

-- Bit `bit` of the array, 0 or 1.
abbrev pub bit_of : Bytes → ℕ → ℕ
bit_of bitmap bit = digit (bitmap (bit / 8)) (bit % 8)

module _ (bitmap : Bytes) (bytes : AreBytes bitmap) (bit : ℕ) where
  pub set_bit-AreBytes : AreBytes (set_bit bitmap bit)
  unfolding set_bit
  set_bit-AreBytes i = ground (
    arith,
    bytes i,
    digit-or (bitmap (bit / 8)) (bit % 8) 0 (bytes (bit / 8)) (omega arith) (omega arith),
  )

  pub unset_bit-AreBytes : AreBytes (unset_bit bitmap bit)
  unfolding unset_bit
  unset_bit-AreBytes i = ground (
    arith,
    bytes i,
    digit-and (bitmap (bit / 8)) (bit % 8) 0 (bytes (bit / 8)) (omega arith) (omega arith),
  )

  -- `bitmap_set_bit` sets the bit that it names and no other.
  pub bit_of-set_bit :
      (other : ℕ)
      → bit_of (set_bit bitmap bit) other ≡ (if other == bit then 1 else bit_of bitmap other)
  unfolding set_bit
  bit_of-set_bit other = ground (
    arith,
    digit-or (bitmap (bit / 8)) (bit % 8) (other % 8) (bytes (bit / 8)) (omega arith) (omega arith),
  )

  -- `bitmap_unset_bit` clears the bit that it names and no other.
  pub bit_of-unset_bit :
      (other : ℕ)
      → bit_of (unset_bit bitmap bit) other ≡ (if other == bit then 0 else bit_of bitmap other)
  unfolding unset_bit
  bit_of-unset_bit other = ground (
    arith,
    digit-and (bitmap (bit / 8)) (bit % 8) (other % 8) (bytes (bit / 8)) (omega arith)
        (omega arith),
  )
