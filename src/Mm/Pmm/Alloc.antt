-- ===== src/Mm/Pmm/Alloc.antt =====
-- What `pmm_alloc` and `pmm_free` do to the bitmap.
use qnixx.Common.{
  ℕ, zero, suc, ◌+◌, ◌*◌, ◌/◌, ◌%◌, ◌^◌, ◌≤◌, ◌<◌, ◌≡◌, ◌≢◌, refl, sym, some_pair, ◌∙◌, ap, Bool,
  false, ◌&&◌, ◌⊎◌, inl, inr, some, arith, ltb, leb, ◌==◌, Bool-cases, if◌then◌else◌, ne→==,
}
use qnixx.Common.Word.{u64}
use qnixx.Common.Loop.{for_loop, for_loop-step, for_loop-done}
use qnixx.Libkern.Bitmap.{Bytes, set_bit, unset_bit, is_set}
use qnixx.Libkern.Bitmap.Marked.{
  AreBytes, bit_of, bit_of-set_bit, set_bit-AreBytes, bit_of-unset_bit, unset_bit-AreBytes,
}
use qnixx.Mm.Pmm.{
  page_size, Pmm, get_bitmap_size, mark_frames, find_contigious_chunk, pmm_alloc, pmm_free,
}
use qnixx.Mm.Pmm.Find.{find_contigious_chunk-run}

-- Frame `f` is one of the `n` frames from `a` on.
abbrev pub in_run : ℕ → ℕ → ℕ → Bool
in_run a n f = leb a f && ltb f (a + n)

mark_loop :
    (f rounds bit stop : ℕ) (b : Bytes)
    → AreBytes b
    → bit + rounds ≡ stop
    → AreBytes (for_loop rounds stop 1 (λ i b. set_bit b i) bit b)
      × (bit_of (for_loop rounds stop 1 (λ i b. set_bit b i) bit b) f
          ≡ (if in_run bit rounds f then 1 else bit_of b f))
mark_loop f zero bit stop b bytes ends =
    rw (for_loop-done stop 1 (λ i b. set_bit b i) zero bit b (ground arith)) (bytes, ground arith)
mark_loop f (suc n) bit stop b bytes ends =
    let rest =
      mark_loop f n (bit + 1) stop (set_bit b bit) (set_bit-AreBytes b bytes bit) (omega arith) in
    rw (for_loop-step stop 1 (λ i b. set_bit b i) n bit b (ground arith))
      (rest.0, rest.1 ∙ ground (arith, bit_of-set_bit b bytes bit f))

pub mark_frames-bit_of :
    (bit frames f : ℕ) (b : Bytes)
    → AreBytes b
    → bit + frames < 2 ^ 64
    → AreBytes (mark_frames bit frames b)
      × (bit_of (mark_frames bit frames b) f ≡ (if in_run bit frames f then 1 else bit_of b f))
unfolding mark_frames
mark_frames-bit_of bit frames f b bytes small =
    mark_loop f frames bit (u64 (bit + frames)) b bytes (omega arith)

abbrev unmark : ℕ → Bytes → Bytes
unmark i b = unset_bit b (i / 0x1000)

free_loop :
    (f rounds i stop : ℕ) (b : Bytes)
    → AreBytes b
    → i % 4096 ≡ 0
    → i + rounds * 4096 ≡ stop
    → AreBytes (for_loop rounds stop 4096 unmark i b)
      × (bit_of (for_loop rounds stop 4096 unmark i b) f
          ≡ (if in_run (i / 4096) rounds f then 0 else bit_of b f))
free_loop f zero i stop b bytes whole ends =
    rw (for_loop-done stop 4096 unmark zero i b (ground arith)) (bytes, ground arith)
free_loop f (suc n) i stop b bytes whole ends =
    let rest =
      free_loop f n (i + 4096) stop (unmark i b) (unset_bit-AreBytes b bytes (i / 4096))
        (omega arith) (omega arith) in
    rw (for_loop-step stop 4096 unmark n i b (ground arith))
      (rest.0, rest.1 ∙ ground (arith, bit_of-unset_bit b bytes (i / 4096) f))

-- Freeing clears the bits of its frames, and no others.
pub pmm_free-bit_of :
    (s : Pmm) (ptr frames : ℕ)
    → AreBytes s.bitmap
    → ptr % page_size ≡ 0
    → ptr + frames * page_size < 2 ^ 64
    → (f : ℕ)
    → bit_of (pmm_free s ptr frames).bitmap f
      ≡ (if in_run (ptr / page_size) frames f then 0 else bit_of s.bitmap f)
unfolding pmm_free
pmm_free-bit_of s ptr frames bytes whole small f =
    (free_loop f frames ptr (u64 (ptr + frames * 4096)) s.bitmap bytes whole (omega arith)).1

-- The frames from `bit` on were reported free as far as the bitmap goes, and `t` has them marked.
pub record Marked (undef : ℕ → ℕ → ℕ) (s : Pmm) (frames size bit : ℕ) (t : Pmm) : Type 0 where
  pub within : bit < size * 8
  pub reported :
      (f : ℕ) → bit ≤ f → f < bit + frames → f < size * 8 → is_set undef s.bitmap f ≡ false
  pub bytes_kept : AreBytes t.bitmap
  pub marked : (f : ℕ) → bit_of t.bitmap f ≡ (if in_run bit frames f then 1 else bit_of s.bitmap f)
  pub entries_kept : t.entries ≡ s.entries

module _ (undef : ℕ → ℕ → ℕ) (s : Pmm) (frames : ℕ) {size : ℕ} (bytes : AreBytes s.bitmap)
    (sized : get_bitmap_size s.entries ≡ some size) (pos : 0 < size)
    (small : size * 8 + frames < 2 ^ 52) where
  pmm_alloc-step :
      (bit : ℕ)
      → find_contigious_chunk undef s frames ≡ some bit
      → bit ≢ 0
      → pmm_alloc undef s frames
        ≡ some (page_size * bit, record s { bitmap = mark_frames bit frames s.bitmap })
  unfolding pmm_alloc
  pmm_alloc-step bit found ne = rw (found, pmm_alloc) (rw (ne→== bit 0 ne) refl)

  pmm_alloc-fail :
      find_contigious_chunk undef s frames ≡ some 0 → pmm_alloc undef s frames ≡ some (0, s)
  unfolding pmm_alloc
  pmm_alloc-fail found = rw (found, pmm_alloc) refl

  -- If the map has usable memory, the bitmap is not empty and holds bytes, and it has fewer than
  -- 2^52 bits beside the request, then pmm_alloc returns either 0 with nothing changed, or the
  -- address of a frame from which on the requested frames were reported free as far as the bitmap
  -- goes; these frames are then marked as used, and no other bit and no entry is changed.
  pub pmm_alloc_lem :
      (bit : ℕ) × (t : Pmm) × (pmm_alloc undef s frames ≡ some (page_size * bit, t))
      × ((bit ≡ 0) × (t ≡ s) ⊎ (bit ≢ 0) × Marked undef s frames size bit t)
  pmm_alloc_lem =
      let (bit, found, free) = find_contigious_chunk-run undef s frames sized pos in
      elim (Bool-cases (bit == 0)) [
        | inl failed ↦
            let zero_bit : bit ≡ 0 = ground arith in
            (0, s, pmm_alloc-fail (found ∙ ap some zero_bit), inl (refl, refl))
        | inr got ↦
            let ne : bit ≢ 0 = ground arith in
            let run = free ne in
            (
              bit,
              record s { bitmap = mark_frames bit frames s.bitmap },
              pmm_alloc-step bit found ne,
              inr (
                ne,
                record {
                  within = run.0;
                  reported = run.1;
                  bytes_kept =
                      (mark_frames-bit_of bit frames 0 s.bitmap bytes (omega (arith, run.0))).0;
                  marked = λ f.
                      (mark_frames-bit_of bit frames f s.bitmap bytes (omega (arith, run.0))).1;
                  entries_kept = refl;
                },
              ),
            )
      ]

Marked-freed :
    (undef : ℕ → ℕ → ℕ) (s t : Pmm) (frames size bit : ℕ)
    → size * 8 + frames < 2 ^ 52
    → Marked undef s frames size bit t
    → (f : ℕ)
    → bit_of (pmm_free t (page_size * bit) frames).bitmap f
      ≡ (if in_run bit frames f then 0 else bit_of s.bitmap f)
Marked-freed undef s t frames size bit small m f =
    pmm_free-bit_of t (page_size * bit) frames m.bytes_kept (omega arith) (omega (arith, m.within))
      f
    ∙ ground (arith, m.marked f)

-- If the map has usable memory, the bitmap is not empty and holds bytes and it has fewer than
-- 2^52 bits beside the request, and pmm_alloc returns an address other than 0, then pmm_free of
-- it clears the bits of the requested frames and leaves every other bit as before the allocation.
pub pmm_free-pmm_alloc :
    (undef : ℕ → ℕ → ℕ) (s t : Pmm) (frames size ptr : ℕ)
    → AreBytes s.bitmap
    → get_bitmap_size s.entries ≡ some size
    → 0 < size
    → size * 8 + frames < 2 ^ 52
    → pmm_alloc undef s frames ≡ some (ptr, t)
    → ptr ≢ 0
    → (f : ℕ)
    → bit_of (pmm_free t ptr frames).bitmap f
      ≡ (if in_run (ptr / 4096) frames f then 0 else bit_of s.bitmap f)
pmm_free-pmm_alloc undef s t frames size ptr bytes sized pos small run ne f =
    let (bit, u, run', cases) = pmm_alloc_lem undef s frames bytes sized pos small in
    let (at, same) = some_pair (sym run ∙ run') in
    let place : ptr / 4096 ≡ bit = omega (arith, at) in
    elim cases [
      | inl failed ↦ absurd (ne (omega (arith, at, failed.0)))
      | inr (_, marked) ↦
          rw (place, at, same) (Marked-freed undef s u frames size bit small marked f)
    ]
