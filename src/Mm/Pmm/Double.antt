-- ===== src/Mm/Pmm/Double.antt =====
-- Two requests in a row, once the first seven frames are in use.
use qnixx.Common.{
  ℕ, zero, suc, ◌+◌, ◌-◌, ◌*◌, ◌≤◌, ◌<◌, ◌≡◌, refl, ◌∙◌, true, false, inl, inr, some, arith, leb,
  Bool-cases,
}
use qnixx.Libkern.Bitmap.{Bytes, is_set}
use qnixx.Libkern.Bitmap.Marked.{AreBytes, bit_of}
use qnixx.Libkern.Bitmap.Tested.{test_bit-low, test_bit-high}
use qnixx.Mm.Pmm.{
  page_size, Pmm, get_bitmap_size, mark_frames, find_from, find_contigious_chunk, pmm_alloc,
}
use qnixx.Mm.Pmm.Find.{find-taken, find-enough, find-more}
use qnixx.Mm.Pmm.Alloc.{mark_frames-bit_of}

-- Frames 1 to 7 are in use.
abbrev pub LowFull : Bytes → Type 0
LowFull b = (f : ℕ) → 0 < f → f < 8 → bit_of b f ≡ 1

module _ (undef : ℕ → ℕ → ℕ) (b : Bytes) (bytes : AreBytes b) (full : LowFull b) where
  low_taken : (f : ℕ) → 0 < f → f < 8 → is_set undef b f ≡ true
  unfolding is_set
  low_taken f pos low = rw (test_bit-low undef b bytes f low, full f pos low) refl

  high_free : (f : ℕ) → 8 ≤ f → f < 32 → is_set undef b f ≡ false
  unfolding is_set
  high_free f high small = rw (test_bit-high undef b bytes f high small) refl

  -- The rounds over the frames 8, 9, ...
  count_up :
      (frames rounds found bit : ℕ)
      → bit ≡ 8 + found
      → found ≤ frames
      → frames < 24
      → frames < found + rounds
      → 0 < found
      → find_from undef b frames rounds bit 8 found ≡ 8
  unfolding find_from
  count_up frames zero found bit at le small enough pos = refl
  count_up frames (suc n) found bit at le small enough pos = elim (Bool-cases (leb frames found)) [
    | inl last ↦
        rw
          (find-enough undef b frames n bit 8 found (high_free bit (omega arith) (omega arith))
            last)
          refl
    | inr more ↦
        rw (find-more undef b frames n bit 8 found (high_free bit (omega arith) (omega arith)) more)
          (count_up frames n (found + 1) (bit + 1) (omega arith) (ground arith) small (omega arith)
            (omega arith))
  ]

  skip :
      (frames k rounds bit : ℕ)
      → bit + k ≡ 8
      → 0 < bit
      → find_from undef b frames (k + rounds) bit 0 0 ≡ find_from undef b frames rounds 8 0 0
  skip frames zero rounds bit at pos =
      let here : bit ≡ 8 = omega arith in
      let left : 0 + rounds ≡ rounds = omega arith in rw (left, here) refl
  skip frames (suc k) rounds bit at pos =
      let left : suc k + rounds ≡ suc (k + rounds) = omega arith in
      rw (left, find-taken undef b frames (k + rounds) bit 0 0 (low_taken bit pos (omega arith)))
        (skip frames k rounds (bit + 1) (omega arith) (omega arith))

  from_eight :
      (frames rounds : ℕ)
      → 0 < frames
      → frames < 24
      → frames < rounds
      → find_from undef b frames rounds 8 0 0 ≡ 8
  from_eight frames zero wanted small enough = absurd (omega arith)
  from_eight frames (suc n) wanted small enough =
      rw (find-more undef b frames n 8 0 0 (high_free 8 (omega arith) (omega arith)) (ground arith))
        (count_up frames n 1 9 refl wanted small (omega arith) (omega arith))

  find_eight :
      (frames rounds : ℕ)
      → 0 < frames
      → frames < 24
      → frames + 7 < rounds
      → find_from undef b frames rounds 1 0 0 ≡ 8
  find_eight frames rounds wanted small enough =
      let split : rounds ≡ 7 + (rounds - 7) = omega arith in
      rw split (
        skip frames 7 (rounds - 7) 1 refl (omega arith)
        ∙ from_eight frames (rounds - 7) wanted small (omega arith))

module _ (undef : ℕ → ℕ → ℕ) (frames : ℕ) {size : ℕ} (large : 4 ≤ size) (wanted : 0 < frames)
    (small : frames < 24) where
  alloc_eight :
      (s : Pmm)
      → get_bitmap_size s.entries ≡ some size
      → AreBytes s.bitmap
      → LowFull s.bitmap
      → pmm_alloc undef s frames
        ≡ some (page_size * 8, record s { bitmap = mark_frames 8 frames s.bitmap })
  unfolding pmm_alloc find_contigious_chunk
  alloc_eight s sized bytes full =
      rw (sized, pmm_alloc, find_contigious_chunk)
        (rw (find_eight undef s.bitmap bytes full frames (size * 8 - 1) wanted small (omega arith))
          refl)

  -- Whenever the frames 1 to 7 are in use and the bitmap has at least four bytes, two requests in
  -- a row for the same 1 to 23 frames both return the address 0x8000, whatever the other bits are
  -- and whatever a shift by 32 or more gives: the second allocation overlaps the first.
  pub pmm_alloc_twice :
      (s : Pmm)
      → get_bitmap_size s.entries ≡ some size
      → AreBytes s.bitmap
      → LowFull s.bitmap
      → (t u : Pmm) × (pmm_alloc undef s frames ≡ some (0x8000, t))
        × (pmm_alloc undef t frames ≡ some (0x8000, u))
  pmm_alloc_twice s sized bytes full =
      let t : Pmm = record s { bitmap = mark_frames 8 frames s.bitmap } in
      let marked = λ (f : ℕ). mark_frames-bit_of 8 frames f s.bitmap bytes (omega arith) in
      (
        t,
        record t { bitmap = mark_frames 8 frames t.bitmap },
        alloc_eight s sized bytes full,
        alloc_eight t sized (marked 0).0
            (λ f pos low. (marked f).1 ∙ ground (arith, full f pos low)),
      )
