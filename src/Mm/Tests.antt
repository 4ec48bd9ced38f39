-- ===== src/Mm/Tests.antt =====
-- The physical memory manager on a machine with eight megabytes above the first.
use qnixx.Common.{
  ℕ, ◌+◌, ◌*◌, ◌/◌, ◌%◌, ◌^◌, ◌≤◌, ◌<◌, ◌≡◌, ◌≢◌, refl, false, ◌⊎◌, some, List, [], ◌∷◌, arith, leb,
  if◌then◌else◌,
}
use qnixx.Common.Word.{u64, align_up}
use qnixx.Libkern.Bitmap.{Bytes, is_set, test_bit}
use qnixx.Libkern.Bitmap.Marked.{AreBytes, bit_of}
use qnixx.Libkern.Bitmap.Tested.{test_bit-high}
use qnixx.Mm.Pmm.{
  Entry, Pmm, page_size, get_bitmap_size, find_highest_mem_chunk, place_bitmap, find_from,
  find_contigious_chunk, pmm_init, mark_frames, pmm_alloc, pmm_free,
}
use qnixx.Mm.Pmm.Init.{usable_at, digit_of_full, pmm_init-bit_of, pmm_init-reserves}
use qnixx.Mm.Pmm.Find.{Free, find_contigious_chunk-free, find_contigious_chunk-finds}
use qnixx.Mm.Pmm.Alloc.{in_run, Marked, pmm_alloc_lem, pmm_free-pmm_alloc}
use qnixx.Mm.Pmm.Double.{LowFull, pmm_alloc_twice}

-- A shift of an `int` on x86 takes the count modulo 32.
abbrev x86 : ℕ → ℕ → ℕ
x86 x n = x / 2 ^ (n % 32)

abbrev response : List Entry
response =
    record { base = 0; length = 0x9f000; type = 1 }
    ∷ record { base = 0x100000; length = 0x800000; type = 0 }
    ∷ []

abbrev rest : List Entry
rest =
    record { base = 0; length = 0x9f000; type = 1 }
    ∷ record { base = 0x101000; length = 0x7ff000; type = 0 }
    ∷ []

abbrev memory : Bytes
memory _ = 0

sized : get_bitmap_size response ≡ some 4096
unfolding get_bitmap_size find_highest_mem_chunk align_up
sized = refl

placed : place_bitmap 4096 response ≡ some (0x100000, rest)
unfolding place_bitmap
placed = refl

-- The state with the frames below 8 in use and none above.
abbrev busy : Pmm
busy = record {
  entries = response;
  address = some 0x100000;
  bitmap = λ i. if leb 1 i then 0 else 0xFF;
}

pmm_init-bit_of_example :
    (s : Pmm) × (pmm_init 0x1000000 response memory ≡ some s)
    × (s.address ≡ some (u64 (0x100000 + 0x1000000)))
    × (bit_of s.bitmap 0x101 ≡ (if usable_at 4096 s.entries 0x101 then 0 else 1))
pmm_init-bit_of_example =
    pmm_init-bit_of 0x1000000 4096 response memory sized placed (λ i. omega arith) (omega arith)
      0x101 (refl, (refl, tt)) (omega arith)

pmm_init-reserves_example :
    (s : Pmm) × (pmm_init 0x1000000 response memory ≡ some s) × (bit_of s.bitmap 0x100 ≡ 1)
pmm_init-reserves_example =
    pmm_init-reserves 0x1000000 4096 response memory sized placed (λ i. omega arith) (omega arith)
      0x100 refl ((λ f. ground arith, tt), (tt, tt)) (omega arith) (omega arith) (omega arith)

find_contigious_chunk-free_example :
    (bit : ℕ) × (find_contigious_chunk x86 busy 2 ≡ some bit)
    × ((bit ≡ 0)
        ⊎ (bit < 4096 * 8) × ((4096 * 8 ≤ bit + 1) ⊎ (is_set x86 busy.bitmap (bit + 1) ≡ false)))
find_contigious_chunk-free_example =
    find_contigious_chunk-free x86 busy 2 sized 1 (omega arith) (omega arith)

busy_bytes : AreBytes busy.bitmap
busy_bytes i = ground arith

busy_run : Free x86 busy.bitmap 8 11
unfolding is_set
busy_run f from to = rw (test_bit-high x86 busy.bitmap busy_bytes f from (omega arith)) refl

busy-LowFull : LowFull busy.bitmap
busy-LowFull f pos low =
    let inside : busy.bitmap (f / 8) ≡ 0xFF = ground arith in
    rw inside (digit_of_full (f % 8) (omega arith))

find_contigious_chunk-finds_example :
    (bit : ℕ) × (find_contigious_chunk x86 busy 2 ≡ some bit) × (bit ≢ 0)
find_contigious_chunk-finds_example =
    find_contigious_chunk-finds x86 busy 2 sized 8 (omega arith) (omega arith) (omega arith)
      busy_run

pmm_alloc_lem_example :
    (bit : ℕ) × (t : Pmm) × (pmm_alloc x86 busy 2 ≡ some (page_size * bit, t))
    × ((bit ≡ 0) × (t ≡ busy) ⊎ (bit ≢ 0) × Marked x86 busy 2 4096 bit t)
pmm_alloc_lem_example = pmm_alloc_lem x86 busy 2 busy_bytes sized (omega arith) (omega arith)

-- Frames 8 and 9 of that state, taken.
abbrev two_taken : Pmm
two_taken = record busy { bitmap = mark_frames 8 2 busy.bitmap }

takes : pmm_alloc x86 busy 2 ≡ some (0x8000, two_taken)
unfolding pmm_alloc find_contigious_chunk get_bitmap_size find_highest_mem_chunk align_up is_set
    find_from test_bit
takes = refl

pmm_free-pmm_alloc_example :
    bit_of (pmm_free two_taken 0x8000 2).bitmap 9
    ≡ (if in_run 8 2 9 then 0 else bit_of busy.bitmap 9)
pmm_free-pmm_alloc_example =
    pmm_free-pmm_alloc x86 busy two_taken 2 4096 0x8000 busy_bytes sized (omega arith) (omega arith)
      takes (omega arith) 9

pmm_alloc_twice_example :
    (t u : Pmm) × (pmm_alloc x86 busy 2 ≡ some (0x8000, t)) × (pmm_alloc x86 t 2 ≡ some (0x8000, u))
pmm_alloc_twice_example =
    pmm_alloc_twice x86 2 (omega arith) (omega arith) (omega arith) busy sized busy_bytes
      busy-LowFull
