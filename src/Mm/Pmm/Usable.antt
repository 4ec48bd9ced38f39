-- ===== src/Mm/Pmm/Usable.antt =====
-- With usable memory in the map, the functions of pmm.c and what allocates by them return.
use mathlib.Core.Option
use qnixx.Common.{
  ℕ, ◌+◌, ◌-◌, ◌*◌, ◌/◌, ◌≡◌, refl, sym, ap, ◌∙◌, Bool, true, false, ◌&&◌, ◌||◌, Bool-cases, inl,
  inr, Option, none, some, List, [], ◌∷◌, ◌==◌, leb, ltb, true≢false,
}
use qnixx.Common.Word.{u64, align_up}
use qnixx.Libkern.Bitmap.{Bytes}
use qnixx.Libkern.Memory.{memset}
use qnixx.Mm.Pmm.{
  Entry, usable, highest_from, find_highest_mem_chunk, get_bitmap_size, place_bitmap, Pmm,
  free_chunks, init_bitmap, pmm_init, mark_frames, page_size, find_from, find_contigious_chunk,
  pmm_alloc,
}

-- Some entry is usable.
abbrev pub has_usable : List Entry → Bool
has_usable [] = false
has_usable (e ∷ es) = usable e || has_usable es

highest_from-some :
    (e : Entry) (es : List Entry) → (c : Entry) × (highest_from (some e) es ≡ some c)
unfolding highest_from
highest_from-some e [] = (e, refl)
highest_from-some e (f ∷ es) = elim (Bool-cases (usable f)) [
  | inl here ↦ elim (Bool-cases (ltb e.base f.base)) [
    | inl above ↦ rw (here, above, highest_from) (highest_from-some f es)
    | inr below ↦ rw (here, below, highest_from) (highest_from-some e es)
  ]
  | inr other ↦ rw (other, highest_from) (highest_from-some e es)
]

highest_from-usable :
    (es : List Entry) → has_usable es ≡ true → (c : Entry) × (highest_from none es ≡ some c)
unfolding highest_from
highest_from-usable [] h = absurd (true≢false (sym h))
highest_from-usable (e ∷ es) h = elim (Bool-cases (usable e)) [
  | inl here ↦ rw (here, highest_from) (highest_from-some e es)
  | inr other ↦
      rw (other, highest_from)
        (highest_from-usable es (sym (ap (λ (b : Bool). b || has_usable es) other) ∙ h))
]

pub get_bitmap_size-usable :
    (es : List Entry) → has_usable es ≡ true → (size : ℕ) × (get_bitmap_size es ≡ some size)
unfolding get_bitmap_size find_highest_mem_chunk
get_bitmap_size-usable es h =
    let (c, found) = highest_from-usable es h in
    (
      align_up (u64 (c.base + c.length) / 0x1000 / 8) 0x1000,
      ap (Option.map (λ e. align_up (u64 (e.base + e.length) / 0x1000 / 8) 0x1000)) found,
    )

-- What is left of the map has the usable memory of the map.
abbrev Keeps : List Entry → Option (ℕ × List Entry) → Type 0
Keeps es none = Unit
Keeps es (some (base, left)) = has_usable left ≡ has_usable es

Keeps-next :
    (e : Entry) (es : List Entry) (o : Option (ℕ × List Entry))
    → Keeps es o
    → Keeps (e ∷ es) (Option.map (λ p. (p.0, e ∷ p.1)) o)
Keeps-next e es none kept = tt
Keeps-next e es (some (base, left)) kept = ap (λ (b : Bool). usable e || b) kept

place_bitmap-Keeps : (size : ℕ) (es : List Entry) → Keeps es (place_bitmap size es)
unfolding place_bitmap
place_bitmap-Keeps size [] = tt
place_bitmap-Keeps size (e ∷ es) = elim (Bool-cases (usable e && leb size e.length)) [
  | inl here ↦ rw (here, place_bitmap) refl
  | inr other ↦
      rw (other, place_bitmap) (Keeps-next e es (place_bitmap size es) (place_bitmap-Keeps size es))
]

-- The memory map of the manager has usable memory.
abbrev pub IsUsable : Pmm → Type 0
IsUsable s = has_usable s.entries ≡ true

init_cases :
    (hhdm size : ℕ) (s : Pmm) (o : Option (ℕ × List Entry))
    → IsUsable s
    → Keeps s.entries o
    → (s' : Pmm) × (elim o as (λ _. Option Pmm) [
      | none ↦ some (record s { bitmap = free_chunks size s.entries s.bitmap })
      | some (base, entries) ↦ some (record {
        entries = entries;
        address = some (u64 (base + hhdm));
        bitmap = free_chunks size entries (memset s.bitmap 0 0xFF size);
      })
    ]
        ≡ some s')
      × IsUsable s'
init_cases hhdm size s none h kept =
    (record s { bitmap = free_chunks size s.entries s.bitmap }, refl, h)
init_cases hhdm size s (some (base, entries)) h kept = (_, refl, kept ∙ h)

-- On a memory map with usable memory pmm_init returns.
pub pmm_init-returns :
    (hhdm : ℕ) (entries : List Entry) (bitmap : Bytes)
    → has_usable entries ≡ true
    → (s : Pmm) × (pmm_init hhdm entries bitmap ≡ some s) × IsUsable s
unfolding pmm_init init_bitmap
pmm_init-returns hhdm entries bitmap h =
    let (size, sized) = get_bitmap_size-usable entries h in
    rw (sized, pmm_init, init_bitmap)
      (init_cases hhdm size (record { entries = entries; address = none; bitmap = bitmap })
        (place_bitmap size entries) h (place_bitmap-Keeps size entries))

module _ (undef : ℕ → ℕ → ℕ) where
  -- While the map has usable memory pmm_alloc returns, and it has.
  pub pmm_alloc-returns :
      (s : Pmm) (frames : ℕ)
      → IsUsable s
      → (ptr : ℕ) × (s' : Pmm) × (pmm_alloc undef s frames ≡ some (ptr, s')) × IsUsable s'
  unfolding pmm_alloc find_contigious_chunk
  pmm_alloc-returns s frames h =
      let (size, sized) = get_bitmap_size-usable s.entries h in
      let bit = find_from undef s.bitmap frames (size * 8 - 1) 1 0 0 in
      rw (sized, pmm_alloc, find_contigious_chunk)
        (elim (Bool-cases (bit == 0)) [
          | inl full ↦ rw full (0, s, refl, h)
          | inr free ↦
              rw free
                (page_size * bit, record s { bitmap = mark_frames bit frames s.bitmap }, refl, h)
        ])
