-- ===== src/Mm/Pmm/Find.antt =====
-- The search of `find_contigious_chunk`, in terms of what `bitmap_test_bit` reports.
use qnixx.Common.{
  leb, leb→le, ◌⊎◌, ℕ, zero, suc, ◌+◌, ◌-◌, ◌*◌, ◌≤◌, ◌<◌, ◌≡◌, ◌≢◌, refl, true, false, ◌⊎◌, inl,
  inr, some, arith, ltb, leb, ◌==◌, Bool-cases, if◌then◌else◌, sym, ◌∙◌, true≢false,
}
use qnixx.Libkern.Bitmap.{Bytes, is_set}
use qnixx.Mm.Pmm.{Pmm, get_bitmap_size, find_from, find_contigious_chunk}

module _ (undef : ℕ → ℕ → ℕ) (bitmap : Bytes) where
  -- Every frame from `a` up to `b` is reported free.
  abbrev pub Free : ℕ → ℕ → Type 0
  Free a b = (f : ℕ) → a ≤ f → f < b → is_set undef bitmap f ≡ false

  -- The loop's variables before the round for `bit`.
  data Scan (frame_count bit : ℕ) : ℕ → ℕ → Type 0 where
    outside : Scan frame_count bit 0 0
    inside :
        (start found : ℕ)
        → 0 < start
        → 0 < found
        → start + found ≡ bit
        → found ≤ frame_count
        → Free start bit
        → Scan frame_count bit start found

  abbrev Found : ℕ → ℕ → ℕ → Type 0
  Found frame_count limit r =
      r ≢ 0
      → (r < limit)
        × ((f : ℕ) → r ≤ f → f < r + frame_count → f < limit → is_set undef bitmap f ≡ false)

  Free-next : (a b : ℕ) → Free a b → is_set undef bitmap b ≡ false → Free a (b + 1)
  Free-next a b run this f from to = elim (Bool-cases (f == b)) [
    | inl last ↦ ground arith
    | inr before ↦ run f from (ground arith)
  ]

  module _ (count n bit start found : ℕ) where
    pub find-taken :
        is_set undef bitmap bit ≡ true
        → find_from undef bitmap count (suc n) bit start found
          ≡ find_from undef bitmap count n (bit + 1) 0 0
    unfolding find_from
    find-taken taken = rw (taken, find_from) refl

    pub find-enough :
        is_set undef bitmap bit ≡ false
        → leb count found ≡ true
        → find_from undef bitmap count (suc n) bit start found ≡ start
    unfolding find_from
    find-enough free enough = rw (free, find_from) (rw enough refl)

    pub find-more :
        is_set undef bitmap bit ≡ false
        → leb count found ≡ false
        → find_from undef bitmap count (suc n) bit start found
          ≡ find_from undef bitmap count n (bit + 1) (if start == 0 then bit else start) (found + 1)
    unfolding find_from
    find-more free more = rw (free, find_from) (rw more refl)

  Scan-free :
      (count bit start found : ℕ)
      → 0 < bit
      → Scan count bit start found
      → is_set undef bitmap bit ≡ false
      → leb count found ≡ false
      → Scan count (bit + 1) (if start == 0 then bit else start) (found + 1)
  Scan-free count bit start found pos outside free more =
      inside bit 1 pos (omega arith) (omega arith) (ground arith) (λ f from to. ground arith)
  Scan-free count bit start found pos (inside start' found' p q sum le run) free more =
      let same : (if start == 0 then bit else start) ≡ start = ground arith in
      rw same (
        inside start (found + 1) p (omega arith) (omega arith) (ground arith)
          (Free-next start bit run free))

  Scan-Found :
      (count bit start found limit : ℕ)
      → bit ≤ limit
      → Scan count bit start found
      → (leb count found ≡ true) ⊎ (bit ≡ limit)
      → Found count limit start
  Scan-Found count bit start found limit le outside end ne = absurd (ne refl)
  Scan-Found count bit start found limit le (inside start' found' p q sum few run) end ne =
      (omega arith, λ f from to below. run f from (ground arith))

  find_from-Found :
      (count rounds bit start found limit : ℕ)
      → 0 < bit
      → bit + rounds ≡ limit
      → Scan count bit start found
      → Found count limit (find_from undef bitmap count rounds bit start found)
  unfolding find_from
  find_from-Found count zero bit start found limit pos ends scan =
      Scan-Found count bit start found limit (omega arith) scan (inr (omega arith))
  find_from-Found count (suc n) bit start found limit pos ends scan =
      elim (Bool-cases (is_set undef bitmap bit)) [
        | inl taken ↦
            rw (find-taken count n bit start found taken)
              (find_from-Found count n (bit + 1) 0 0 limit (omega arith) (omega arith) outside)
        | inr free ↦ elim (Bool-cases (leb count found)) [
          | inl enough ↦
              rw (find-enough count n bit start found free enough)
                (Scan-Found count bit start found limit (omega arith) scan (inl enough))
          | inr more ↦ rw (find-more count n bit start found free more) (
              find_from-Found count n (bit + 1) (if start == 0 then bit else start) (found + 1)
                limit (omega arith) (omega arith)
                (Scan-free count bit start found pos scan free more))
        ]
      ]

  Scan-pos :
      (count bit start found : ℕ)
      → Scan count bit start found
      → 0 < found
      → (0 < start) × (found ≤ count)
  Scan-pos count bit start found outside pos = absurd (omega arith)
  Scan-pos count bit start found (inside start' found' p q sum few run) pos = (p, few)

  in_run :
      (count bit start found a : ℕ)
      → Scan count bit start found
      → (a < bit → bit ≤ a + found)
      → a ≤ bit
      → bit < a + count + 1
  in_run count bit start found a scan seen from = elim (Bool-cases (ltb a bit)) [
    | inl past ↦ elim (Bool-cases (found == 0)) [
      | inl empty ↦ ground (arith, seen (ground arith))
      | inr some_found ↦
          ground (arith, seen (ground arith), Scan-pos count bit start found scan (ground arith))
    ]
    | inr start_here ↦ ground arith
  ]

  -- A run from `a`, one frame longer than the request, lies ahead or is being counted.
  find_from-ne-zero :
      (count rounds bit start found limit a : ℕ)
      → 0 < count
      → 0 < bit
      → bit + rounds ≡ limit
      → a + count < limit
      → Free a (a + count + 1)
      → Scan count bit start found
      → (a < bit → bit ≤ a + found)
      → find_from undef bitmap count rounds bit start found ≢ 0
  unfolding find_from
  find_from-ne-zero count zero bit start found limit a wanted pos ends room run scan seen =
      let met = seen (omega arith) in
      absurd (omega (arith, met, Scan-pos count bit start found scan (omega (arith, met))))
  find_from-ne-zero count (suc n) bit start found limit a wanted pos ends room run scan seen =
      elim (Bool-cases (is_set undef bitmap bit)) [
        | inl taken ↦ rw (find-taken count n bit start found taken) (
            find_from-ne-zero count n (bit + 1) 0 0 limit a wanted (omega arith) (omega arith) room
              run outside
              (λ past. absurd (
                true≢false (
                  sym taken
                  ∙ run bit (omega arith)
                      (in_run count bit start found a scan seen (omega arith))))))
        | inr free ↦ elim (Bool-cases (leb count found)) [
          | inl enough ↦
              rw (find-enough count n bit start found free enough)
                (λ none_found. ground (arith, Scan-pos count bit start found scan (ground arith)))
          | inr more ↦ rw (find-more count n bit start found free more) (
              find_from-ne-zero count n (bit + 1) (if start == 0 then bit else start) (found + 1)
                limit a wanted (omega arith) (omega arith) room run
                (Scan-free count bit start found pos scan free more) (λ past. ground (arith, seen)))
        ]
      ]

module _ (undef : ℕ → ℕ → ℕ) (s : Pmm) (frame_count : ℕ) {size : ℕ}
    (sized : get_bitmap_size s.entries ≡ some size) where
  find_contigious_chunk_lem :
      find_contigious_chunk undef s frame_count
      ≡ some (find_from undef s.bitmap frame_count (size * 8 - 1) 1 0 0)
  unfolding find_contigious_chunk
  find_contigious_chunk_lem = rw sized refl

  -- What a result other than 0 is.
  pub find_contigious_chunk-run :
      0 < size
      → (bit : ℕ) × (find_contigious_chunk undef s frame_count ≡ some bit)
        × (bit ≢ 0
            → (bit < size * 8)
              × ((f : ℕ)
                  → bit ≤ f
                  → f < bit + frame_count
                  → f < size * 8
                  → is_set undef s.bitmap f ≡ false))
  find_contigious_chunk-run pos = (
    find_from undef s.bitmap frame_count (size * 8 - 1) 1 0 0,
    find_contigious_chunk_lem,
    find_from-Found undef s.bitmap frame_count (size * 8 - 1) 1 0 0 (size * 8) (omega arith)
        (omega arith) outside,
  )

  -- If the map has usable memory and the bitmap is not empty, find_contigious_chunk returns, and
  -- a result other than 0 is a frame of the bitmap such that each of the frame_count frames from
  -- it on that lies in the bitmap is reported free by bitmap_test_bit.
  pub find_contigious_chunk-free :
      (f : ℕ)
      → 0 < size
      → f < frame_count
      → (bit : ℕ) × (find_contigious_chunk undef s frame_count ≡ some bit)
        × ((bit ≡ 0)
            ⊎ (bit < size * 8) × ((size * 8 ≤ bit + f) ⊎ (is_set undef s.bitmap (bit + f) ≡ false)))
  find_contigious_chunk-free f pos within =
      let (bit, found, free) = find_contigious_chunk-run pos in
      (
        bit,
        found,
        elim (Bool-cases (bit == 0)) [
          | inl failed ↦ inl (ground arith)
          | inr got ↦
              let (in_map, run) = free (ground arith) in
              inr (
                in_map,
                elim (Bool-cases (leb (size * 8) (bit + f))) [
                  | inl past ↦ inl (leb→le (size * 8) (bit + f) past)
                  | inr short ↦
                      inr (run (bit + f) (omega arith) (omega (arith, within)) (ground arith))
                ],
              )
        ],
      )

  -- If a run of frame_count + 1 frames that are reported free lies in the bitmap, above frame 0,
  -- and frame_count is not 0, then find_contigious_chunk returns a frame other than 0.
  pub find_contigious_chunk-finds :
      (a : ℕ)
      → 0 < frame_count
      → 0 < a
      → a + frame_count < size * 8
      → Free undef s.bitmap a (a + frame_count + 1)
      → (bit : ℕ) × (find_contigious_chunk undef s frame_count ≡ some bit) × (bit ≢ 0)
  find_contigious_chunk-finds a wanted pos room run = (
    find_from undef s.bitmap frame_count (size * 8 - 1) 1 0 0,
    find_contigious_chunk_lem,
    find_from-ne-zero undef s.bitmap frame_count (size * 8 - 1) 1 0 0 (size * 8) a wanted
        (omega arith) (omega arith) room run outside (omega arith),
  )
