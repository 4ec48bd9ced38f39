-- ===== src/Mm/Pmm.antt =====
-- sys/mm/pmm.c: the physical memory manager, a bitmap with a set bit for each frame in use.
pub mod Init
pub mod Find
pub mod Usable
pub mod Alloc
pub mod Double
use qnixx.Common.{
  ℕ, zero, suc, ◌+◌, ◌-◌, ◌*◌, ◌/◌, ◌%◌, ◌^◌, Bool, true, false, ◌&&◌, not, Option, none, some,
  List, [], ◌∷◌, ltb, leb, ◌==◌, if◌then◌else◌,
}
use mathlib.Core.Option
use qnixx.Common.Word.{u64, align_up}
use qnixx.Common.Loop.{for_loop}
use qnixx.Libkern.Bitmap.{Bytes, set_bit, unset_bit, is_set}
use qnixx.Libkern.Memory.{memset}

abbrev pub page_size : ℕ
page_size = 4096

-- `struct limine_memmap_entry`. The boot loader's type number for usable memory is 0.
pub record Entry : Type 0 where
  pub base : ℕ
  pub length : ℕ
  pub type : ℕ

abbrev pub usable : Entry → Bool
usable e = e.type == 0

-- `bitmap` holds the bytes that the pointer leads to, and `address` is the pointer.
pub record Pmm : Type 0 where
  pub entries : List Entry
  pub address : Option ℕ
  pub bitmap : Bytes

abbrev pub higher : Option Entry → Entry → Option Entry
higher none e = some e
higher (some chunk) e = if ltb chunk.base e.base then some e else some chunk

pub highest_from : Option Entry → List Entry → Option Entry
highest_from chunk [] = chunk
highest_from chunk (e ∷ es) = highest_from (if usable e then higher chunk e else chunk) es

unfoldable pub find_highest_mem_chunk : List Entry → Option Entry
unfolding highest_from
find_highest_mem_chunk entries = highest_from none entries

-- `none`: without usable memory the source reads through a null pointer.
unfoldable pub get_bitmap_size : List Entry → Option ℕ
get_bitmap_size entries =
    Option.map (λ e. align_up (u64 (e.base + e.length) / 0x1000 / 8) 0x1000)
      (find_highest_mem_chunk entries)

-- The first usable chunk that is large enough gives up its first `size` bytes.
unfoldable pub place_bitmap : ℕ → List Entry → Option (ℕ × List Entry)
place_bitmap size [] = none
place_bitmap size (e ∷ es) =
    if usable e && leb size e.length
    then some (e.base, record e { base = u64 (e.base + size); length = e.length - size } ∷ es)
    else Option.map (λ p. (p.0, e ∷ p.1)) (place_bitmap size es)

-- `for (j = 0; j < length; j += 0x1000)`: the frames of one chunk.
unfoldable pub free_chunk : Entry → Bytes → Bytes
free_chunk e bitmap =
    for_loop (e.length / 0x1000 + 1) e.length 0x1000
      (λ j b. unset_bit b (u64 (e.base + j) / 0x1000)) 0 bitmap

unfoldable pub free_chunks : ℕ → List Entry → Bytes → Bytes
free_chunks size [] bitmap = bitmap
free_chunks size (e ∷ es) bitmap =
    free_chunks size es (if usable e && leb size e.length then free_chunk e bitmap else bitmap)

-- `hhdm` is the boot loader's offset of the higher half. Where no chunk is large enough the pointer
-- stays null, and the second loop of the source has no chunk to free either.
unfoldable pub init_bitmap : ℕ → Pmm → Option Pmm
init_bitmap hhdm s = elim (get_bitmap_size s.entries) [
  | none ↦ none
  | some size ↦ elim (place_bitmap size s.entries) [
    | none ↦ some (record s { bitmap = free_chunks size s.entries s.bitmap })
    | some (base, entries) ↦ some (record {
      entries = entries;
      address = some (u64 (base + hhdm));
      bitmap = free_chunks size entries (memset s.bitmap 0 0xFF size);
    })
  ]
]

-- `mmap_resp = mmap_req.response; init_bitmap();`
unfoldable pub pmm_init : ℕ → List Entry → Bytes → Option Pmm
pmm_init hhdm response memory =
    init_bitmap hhdm (record { entries = response; address = none; bitmap = memory })

-- `for (i = bit; i < bit + frames; ++i)`
unfoldable pub mark_frames : ℕ → ℕ → Bytes → Bytes
mark_frames bit frames bitmap =
    for_loop frames (u64 (bit + frames)) 1 (λ i b. set_bit b i) bit bitmap

-- `undef` is what a shift by 32 or more gives, in `bitmap_test_bit`.
module _ (undef : ℕ → ℕ → ℕ) where
  -- The loop from `bit` on, with `rounds` bits left.
  unfoldable pub find_from : Bytes → ℕ → ℕ → (bit bit_start frames_found : ℕ) → ℕ
  find_from bitmap frame_count zero bit bit_start frames_found = bit_start
  find_from bitmap frame_count (suc rounds) bit bit_start frames_found =
      elim (is_set undef bitmap bit) [
        | true ↦ find_from bitmap frame_count rounds (bit + 1) 0 0
        | false ↦ elim (leb frame_count frames_found) [
          | true ↦ bit_start
          | false ↦
              find_from bitmap frame_count rounds (bit + 1)
                (if bit_start == 0 then bit else bit_start) (frames_found + 1)
        ]
      ]

  unfoldable pub find_contigious_chunk : Pmm → ℕ → Option ℕ
  find_contigious_chunk s frame_count =
      Option.map (λ size. find_from s.bitmap frame_count (size * 8 - 1) 1 0 0)
        (get_bitmap_size s.entries)

  unfoldable pub pmm_alloc : Pmm → ℕ → Option (ℕ × Pmm)
  pmm_alloc s frames =
      Option.map
        (λ bit.
          if bit == 0
          then (0, s)
          else (page_size * bit, record s { bitmap = mark_frames bit frames s.bitmap }))
        (find_contigious_chunk s frames)

unfoldable pub pmm_free : Pmm → ℕ → ℕ → Pmm
pmm_free s ptr frames = record s {
  bitmap =
      for_loop frames (u64 (ptr + frames * page_size)) page_size (λ i b. unset_bit b (i / 0x1000))
        ptr s.bitmap;
}
