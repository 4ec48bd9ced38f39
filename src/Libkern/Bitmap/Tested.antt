-- ===== src/Libkern/Bitmap/Tested.antt =====
-- What `bitmap_test_bit` reports: the bit for the first byte, and nothing for the next three.
use qnixx.Common.{
  ℕ, ◌/◌, ◌%◌, ◌^◌, ◌<◌, ◌≤◌, ◌≡◌, refl, true, arith, bit_and, ◌==◌, if◌then◌else◌, lt→ltb, le→ltb,
  ◌∙◌, ap, ltb, ==_iff,
}
use qnixx.Common.Bits.{all_below, all_below_sound}
use qnixx.Libkern.Bitmap.{Bytes, test_bit}
use qnixx.Libkern.Bitmap.Bytes.{digit}
use qnixx.Libkern.Bitmap.Marked.{AreBytes, bit_of}

-- The reported byte for a shift below 32, as a function of the stored byte.
abbrev reported : ℕ → ℕ → ℕ
reported b bit = bit_and b (2 ^ (bit % 8)) / 2 ^ bit % 256

reported_table :
    all_below 256 (λ b. all_below 32 (λ n. reported b n == (if ltb n 8 then digit b n else 0)))
    ≡ true
unfolding all_below
reported_table = refl

reported_lem : (b n : ℕ) → b < 256 → n < 32 → reported b n ≡ (if ltb n 8 then digit b n else 0)
reported_lem b n byte small =
    (==_iff _ _).0 (all_below_sound 32 _ n (all_below_sound 256 _ b reported_table byte) small)

module _ (undef : ℕ → ℕ → ℕ) (bitmap : Bytes) (bytes : AreBytes bitmap) (bit : ℕ) where
  test_bit-reported : bit < 32 → test_bit undef bitmap bit ≡ reported (bitmap (bit / 8)) bit
  unfolding test_bit
  test_bit-reported small = rw (lt→ltb bit 32 small)

  -- On the first byte `bitmap_test_bit` gives the bit itself.
  pub test_bit-low : bit < 8 → test_bit undef bitmap bit ≡ bit_of bitmap bit
  test_bit-low low =
      test_bit-reported (omega arith)
      ∙ reported_lem (bitmap (bit / 8)) bit (bytes (bit / 8)) (omega arith)
      ∙ rw (lt→ltb bit 8 low) (ap (λ (t : ℕ). digit (bitmap (bit / 8)) t) (omega arith))

  -- For the bits 8 to 31 it gives 0, whatever the array holds.
  pub test_bit-high : 8 ≤ bit → bit < 32 → test_bit undef bitmap bit ≡ 0
  test_bit-high high small =
      test_bit-reported small
      ∙ reported_lem (bitmap (bit / 8)) bit (bytes (bit / 8)) small
      ∙ rw (le→ltb bit 8 high) refl
