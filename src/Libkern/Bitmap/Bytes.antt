-- ===== src/Libkern/Bitmap/Bytes.antt =====
-- One byte with one bit changed, checked over all bytes and bits.
use qnixx.Common.{
  ℕ, ◌-◌, ◌*◌, ◌/◌, ◌%◌, ◌^◌, ◌<◌, ◌≡◌, refl, Bool, true, ◌&&◌, arith, bit_and, bit_or, ltb, ◌==◌,
  ==_iff, if◌then◌else◌,
}
use qnixx.Common.Bits.{all_below, all_below_sound}

-- Bit `k` of a byte.
abbrev pub digit : ℕ → ℕ → ℕ
digit b k = b / 2 ^ k % 2

abbrev or_row : ℕ → ℕ → ℕ → Bool
or_row b k j =
    (digit (bit_or b (2 ^ k)) j == (if j == k then 1 else digit b j)) && ltb (bit_or b (2 ^ k)) 256

abbrev and_row : ℕ → ℕ → ℕ → Bool
and_row b k j =
    (digit (bit_and b (255 - 2 ^ k)) j == (if j == k then 0 else digit b j))
    && ltb (bit_and b (255 - 2 ^ k)) 256

or_table : all_below 256 (λ b. all_below 8 (λ k. all_below 8 (λ j. or_row b k j))) ≡ true
unfolding all_below
or_table = refl

and_table : all_below 256 (λ b. all_below 8 (λ k. all_below 8 (λ j. and_row b k j))) ≡ true
unfolding all_below
and_table = refl

test_table : all_below 256 (λ b. all_below 8 (λ k. bit_and b (2 ^ k) == digit b k * 2 ^ k)) ≡ true
unfolding all_below
test_table = refl

module _ (b k j : ℕ) (byte : b < 256) (inside : k < 8) (within : j < 8) where
  pub digit-or :
      (digit (bit_or b (2 ^ k)) j ≡ (if j == k then 1 else digit b j)) × (bit_or b (2 ^ k) < 256)
  digit-or = ground (arith, row)
    where
      row : or_row b k j ≡ true
      row =
          all_below_sound 8 _ j
            (all_below_sound 8 _ k (all_below_sound 256 _ b or_table byte) inside) within

  pub digit-and :
      (digit (bit_and b (255 - 2 ^ k)) j ≡ (if j == k then 0 else digit b j))
      × (bit_and b (255 - 2 ^ k) < 256)
  digit-and = ground (arith, row)
    where
      row : and_row b k j ≡ true
      row =
          all_below_sound 8 _ j
            (all_below_sound 8 _ k (all_below_sound 256 _ b and_table byte) inside) within

pub bit_and-mask : (b k : ℕ) → b < 256 → k < 8 → bit_and b (2 ^ k) ≡ digit b k * 2 ^ k
bit_and-mask b k byte inside =
    (==_iff _ _).0 (all_below_sound 8 _ k (all_below_sound 256 _ b test_table byte) inside)
