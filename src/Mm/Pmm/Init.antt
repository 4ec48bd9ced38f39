-- ===== src/Mm/Pmm/Init.antt =====
-- What `pmm_init` leaves in the bitmap.
use qnixx.Common.{
  ℕ, zero, suc, ◌+◌, ◌-◌, ◌*◌, ◌/◌, ◌%◌, ◌^◌, ◌≤◌, ◌<◌, ◌≡◌, refl, ◌∙◌, ap, Bool, true, false, ◌&&◌,
  ◌||◌, some, List, [], ◌∷◌, arith, ltb, leb, ◌==◌, if◌then◌else◌, All, Bool-cases, inl, inr,
  Option-cases, some_pair, none≢some, ==_iff,
}
use mathlib.Core.Path.{subst}
use qnixx.Common.Word.{u64}
use qnixx.Common.Loop.{for_loop, for_loop-step, for_loop-done}
use qnixx.Libkern.Bitmap.{Bytes, unset_bit}
use qnixx.Libkern.Bitmap.Marked.{AreBytes, bit_of, bit_of-unset_bit, unset_bit-AreBytes}
use qnixx.Common.Bits.{all_below, all_below_sound}
use qnixx.Libkern.Bitmap.Bytes.{digit}
use qnixx.Libkern.Memory.{memset, memset_lem}
use qnixx.Mm.Pmm.{
  Entry, usable, Pmm, get_bitmap_size, place_bitmap, free_chunk, free_chunks, init_bitmap, pmm_init,
}

-- Frame `f` is one of those that the loop over the chunk frees: from that of its base on, as many
-- as the chunk has begun pages.
abbrev pub in_chunk : Entry → ℕ → Bool
in_chunk e f = leb (e.base / 4096) f && ltb f (e.base / 4096 + (e.length + 4095) / 4096)

-- Frame `f` lies in a usable chunk that is at least `size` long.
abbrev pub covered : ℕ → List Entry → ℕ → Bool
covered size [] f = false
covered size (e ∷ es) f = (usable e && leb size e.length && in_chunk e f) || covered size es f

-- Frame `f` has a byte in the chunk.
abbrev pub overlaps : Entry → ℕ → Bool
overlaps e f = ltb e.base ((f + 1) * 4096) && ltb (f * 4096) (e.base + e.length)

-- Frame `f` overlaps a usable chunk that is at least `size` long.
abbrev pub usable_at : ℕ → List Entry → ℕ → Bool
usable_at size [] f = false
usable_at size (e ∷ es) f = (usable e && leb size e.length && overlaps e f) || usable_at size es f

-- The chunk begins at a page.
abbrev pub IsAligned : Entry → Type 0
IsAligned e = e.base % 4096 ≡ 0

in_chunk-overlaps : (e : Entry) (f : ℕ) → IsAligned e → in_chunk e f ≡ overlaps e f
in_chunk-overlaps e f whole = ground arith

covered-usable_at :
    (size : ℕ) (es : List Entry) (f : ℕ)
    → All IsAligned es
    → covered size es f ≡ usable_at size es f
covered-usable_at size [] f aligned = refl
covered-usable_at size (e ∷ es) f (whole, aligned) =
    rw (in_chunk-overlaps e f whole, covered-usable_at size es f aligned) refl

-- The chunk ends below the end of the address space.
abbrev pub Fits : Entry → Type 0
Fits e = e.base + e.length + 4096 ≤ 2 ^ 64

if_or : (p q : Bool) (x y : ℕ) → (if q then x else if p then x else y) ≡ (if p || q then x else y)
if_or p q x y = ground arith

abbrev chunk_body : Entry → ℕ → Bytes → Bytes
chunk_body e j b = unset_bit b (u64 (e.base + j) / 0x1000)

module _ (e : Entry) (fits : Fits e) (f : ℕ) where
  chunk_loop :
      (fuel j : ℕ) (b : Bytes)
      → AreBytes b
      → j % 4096 ≡ 0
      → e.length ≤ j + fuel * 4096
      → AreBytes (for_loop fuel e.length 0x1000 (chunk_body e) j b)
        × (bit_of (for_loop fuel e.length 0x1000 (chunk_body e) j b) f
            ≡ (if leb (e.base / 4096 + j / 4096) f && in_chunk e f then 0 else bit_of b f))
  chunk_loop zero j b bytes aligned fuel =
      rw (for_loop-done e.length 0x1000 (chunk_body e) zero j b (ground arith))
        (bytes, ground arith)
  chunk_loop (suc n) j b bytes aligned fuel = elim (Bool-cases (ltb j e.length)) [
    | inl more ↦
        let hit = u64 (e.base + j) / 4096 in
        let rest =
          chunk_loop n (j + 4096) (chunk_body e j b) (unset_bit-AreBytes b bytes hit) (omega arith)
            (omega arith) in
        rw (for_loop-step e.length 0x1000 (chunk_body e) n j b more)
          (rest.0, rest.1 ∙ ground (arith, bit_of-unset_bit b bytes hit f))
    | inr done ↦
        rw (for_loop-done e.length 0x1000 (chunk_body e) (suc n) j b done) (bytes, ground arith)
  ]

  free_chunk-bit_of :
      (b : Bytes)
      → AreBytes b
      → AreBytes (free_chunk e b)
        × (bit_of (free_chunk e b) f ≡ (if in_chunk e f then 0 else bit_of b f))
  unfolding free_chunk
  free_chunk-bit_of b bytes =
      let loop = chunk_loop (e.length / 4096 + 1) 0 b bytes refl (omega arith) in
      (loop.0, loop.1 ∙ ground arith)

free_chunks-bit_of :
    (size f : ℕ) (es : List Entry) (b : Bytes)
    → All Fits es
    → AreBytes b
    → AreBytes (free_chunks size es b)
      × (bit_of (free_chunks size es b) f ≡ (if covered size es f then 0 else bit_of b f))
unfolding free_chunks
free_chunks-bit_of size f [] b fits bytes = (bytes, refl)
free_chunks-bit_of size f (e ∷ es) b fits bytes =
    elim (Bool-cases (usable e && leb size e.length)) [
      | inl taken ↦
          let chunk = free_chunk-bit_of e fits.0 f b bytes in
          let rest = free_chunks-bit_of size f es (free_chunk e b) fits.1 chunk.0 in
          rw taken
            (rest.0, rest.1 ∙ rw chunk.1 (if_or (in_chunk e f) (covered size es f) 0 (bit_of b f)))
      | inr passed ↦ let rest = free_chunks-bit_of size f es b fits.1 bytes in rw passed rest
    ]

-- No frame belongs to two chunks.
abbrev pub Apart : Entry → Entry → Type 0
Apart e e' = (f : ℕ) → (in_chunk e f && in_chunk e' f) ≡ false

abbrev pub Separate : List Entry → Type 0
Separate [] = Unit
Separate (e ∷ es) = All (Apart e) es × Separate es

covered-Apart :
    (size f : ℕ) (e : Entry) (es : List Entry)
    → All (Apart e) es
    → in_chunk e f ≡ true
    → covered size es f ≡ false
covered-Apart size f e [] apart inside = refl
covered-Apart size f e (e' ∷ es) apart inside =
    ground (arith, apart.0 f, covered-Apart size f e es apart.1 inside)

-- The chunk that gives up its first `size` bytes, and the entries after it has done so.
data Placed (size : ℕ) : List Entry → Entry → List Entry → Type 0 where
  here :
      (e : Entry) (es : List Entry)
      → (usable e && leb size e.length) ≡ true
      → Placed size
          (e ∷ es)
          e
          (record e { base = u64 (e.base + size); length = e.length - size } ∷ es)
  there :
      {es : List Entry} {o : Entry} {rest : List Entry} (e : Entry)
      → (usable e && leb size e.length) ≡ false
      → Placed size es o rest
      → Placed size (e ∷ es) o (e ∷ rest)

place_bitmap-Placed :
    (size : ℕ) (es : List Entry) {base : ℕ} {rest : List Entry}
    → place_bitmap size es ≡ some (base, rest)
    → (o : Entry) × (o.base ≡ base) × Placed size es o rest
unfolding place_bitmap
place_bitmap-Placed size [] h = cc
place_bitmap-Placed size (e ∷ es) {base} {rest} h =
    elim (Bool-cases (usable e && leb size e.length)) [
      | inl fits ↦
          let got = some_pair (rw fits at h) in
          (e, got.0, subst (Placed size (e ∷ es) e) got.1 (here e es fits))
      | inr small ↦ elim (Option-cases (place_bitmap size es)) [
        | inl failed ↦ absurd (none≢some (rw (small, failed) at h))
        | inr (p, found) ↦
            let got = some_pair (rw (small, found) at h) in
            let (o, same, placed) = place_bitmap-Placed size es found in
            (o, same ∙ got.0, subst (Placed size (e ∷ es) o) got.1 (there e small placed))
      ]
    ]

Placed-Fits :
    {size : ℕ} {es rest : List Entry} {o : Entry}
    → Placed size es o rest
    → All Fits es
    → All Fits rest
Placed-Fits (here e es room) fits = ground arith
Placed-Fits (there e small placed) fits = (fits.0, Placed-Fits placed fits.1)

-- The frames of the bitmap itself.
Placed-reserved :
    {size : ℕ} (f : ℕ) {es rest : List Entry} {o : Entry}
    → Placed size es o rest
    → All Fits es
    → Separate es
    → o.base % 4096 ≡ 0
    → o.base / 4096 ≤ f
    → f < (o.base + size) / 4096
    → covered size rest f ≡ false
Placed-reserved {size} f (here e es room) fits separate whole from to =
    ground (arith, covered-Apart size f e es separate.0 (ground arith))
Placed-reserved f (there e small placed) fits separate whole from to =
    ground (arith, Placed-reserved f placed fits.1 separate.1 whole from to)

-- The memory manager just after the bitmap has been placed and filled.
abbrev pub started : ℕ → ℕ → ℕ → List Entry → Bytes → Pmm
started hhdm size base es memory = record {
  entries = es;
  address = some (u64 (base + hhdm));
  bitmap = free_chunks size es (memset memory 0 0xFF size);
}

memset-AreBytes :
    (memory : Bytes) (size : ℕ) → AreBytes memory → AreBytes (memset memory 0 0xFF size)
memset-AreBytes memory size bytes i = ground (arith, memset_lem memory 0 0xFF size i, bytes i)

-- Eight set bits.
pub digit_of_full : (k : ℕ) → k < 8 → digit 0xFF k ≡ 1
unfolding all_below
digit_of_full k small = (==_iff _ _).0 (all_below_sound 8 (λ j. digit 0xFF j == 1) k table small)
  where
    table : all_below 8 (λ j. digit 0xFF j == 1) ≡ true
    table = refl

module _ (hhdm size : ℕ) (response : List Entry) (memory : Bytes) {base : ℕ} {es : List Entry}
    (sized : get_bitmap_size response ≡ some size)
    (placed : place_bitmap size response ≡ some (base, es)) (bytes : AreBytes memory)
    (fits : All Fits response) where
  pmm_init-started : pmm_init hhdm response memory ≡ some (started hhdm size base es memory)
  unfolding pmm_init init_bitmap
  pmm_init-started = rw (sized, pmm_init, init_bitmap) (rw placed refl)

  started-bit_of :
      (f : ℕ)
      → f < size * 8
      → bit_of (started hhdm size base es memory).bitmap f ≡ (if covered size es f then 0 else 1)
  started-bit_of f inside =
      let (o, same, chunk) = place_bitmap-Placed size response placed in
      let filled = memset memory 0 0xFF size in
      let freed =
        free_chunks-bit_of size f es filled (Placed-Fits chunk fits)
          (memset-AreBytes memory size bytes) in
      let full : bit_of filled f ≡ 1 =
        ap (λ (b : ℕ). digit b (f % 8)) (memset_lem memory 0 0xFF size (f / 8) ∙ ground arith)
        ∙ digit_of_full (f % 8) (omega arith) in
      rw (freed.1, full) refl

  -- If the memory map has usable memory and a chunk takes the bitmap, the map has no entry that
  -- reaches the end of the address space, every entry of the adjusted map begins at a page, and
  -- the memory holds bytes, then pmm_init returns, the bitmap pointer is the chunk in the higher
  -- half, and a frame within the bitmap is free exactly if it overlaps a usable entry of the
  -- adjusted map that is at least as long as the bitmap.
  pub pmm_init-bit_of :
      (f : ℕ)
      → All IsAligned es
      → f < size * 8
      → (s : Pmm) × (pmm_init hhdm response memory ≡ some s)
        × (s.address ≡ some (u64 (base + hhdm)))
        × (bit_of s.bitmap f ≡ (if usable_at size s.entries f then 0 else 1))
  pmm_init-bit_of f aligned inside = (
    started hhdm size base es memory,
    pmm_init-started,
    refl,
    started-bit_of f inside
        ∙ ap (λ (b : Bool). if b then 0 else 1) (covered-usable_at size es f aligned),
  )

  -- Under the same conditions, if also the chunk of the bitmap begins at a page and no two
  -- entries share a frame, every frame of the bitmap itself that the bitmap covers is marked as
  -- used after pmm_init.
  pub pmm_init-reserves :
      (f : ℕ)
      → base % 4096 ≡ 0
      → Separate response
      → base / 4096 ≤ f
      → f < (base + size) / 4096
      → f < size * 8
      → (s : Pmm) × (pmm_init hhdm response memory ≡ some s) × (bit_of s.bitmap f ≡ 1)
  pmm_init-reserves f whole separate from to inside =
      let (o, same, chunk) = place_bitmap-Placed size response placed in
      let reserved =
        Placed-reserved f chunk fits separate (rw same whole) (rw same from) (rw same to) in
      (
        started hhdm size base es memory,
        pmm_init-started,
        rw (started-bit_of f inside, reserved) refl,
      )
