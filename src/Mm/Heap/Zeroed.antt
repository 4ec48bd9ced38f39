-- ===== src/Mm/Heap/Zeroed.antt =====
-- Cleared blocks stay cleared while others are allocated.
use qnixx.Common.{ℕ, ◌+◌, ◌*◌, ◌≤◌, ◌<◌, ◌≡◌, ◌≢◌, ◌⊎◌, arith}
use qnixx.Common.Word.{u64}
use qnixx.Libkern.Memory.{Memory, memzero_lem}
use qnixx.Mm.Heap.{Tlsf, Heap, kmalloc, kcalloc}

-- What the allocator promises: a block that it returns is live and apart from every live one, which
-- all stay live.
pub record AllocatorLaws (lib : Tlsf) : Type 1 where
  pub Live : lib.Ctx → (ptr size : ℕ) → Type 0
  pub malloc_live :
      (ctx : lib.Ctx) (size : ℕ)
      → (lib.malloc ctx size).0 ≢ 0
      → Live (lib.malloc ctx size).1 (lib.malloc ctx size).0 size
  pub malloc_keeps :
      (ctx : lib.Ctx) (size ptr other : ℕ)
      → Live ctx ptr other
      → Live (lib.malloc ctx size).1 ptr other
  pub malloc_apart :
      (ctx : lib.Ctx) (size ptr other : ℕ)
      → (lib.malloc ctx size).0 ≢ 0
      → Live ctx ptr other
      → (ptr + other ≤ (lib.malloc ctx size).0) ⊎ ((lib.malloc ctx size).0 + size ≤ ptr)

module _ (lib : Tlsf) (laws : AllocatorLaws lib) where
  -- The live blocks are those of the allocator.
  abbrev pub LiveBlock : Heap lib → (ptr size : ℕ) → Type 0
  LiveBlock heap ptr size = laws.Live heap.tlsf_ctx ptr size

  kcalloc-LiveBlock :
      (nmemb size : ℕ) (heap : Heap lib) (memory : Memory)
      → (kcalloc lib nmemb size heap memory).0 ≢ 0
      → LiveBlock
          (kcalloc lib nmemb size heap memory).1
          (kcalloc lib nmemb size heap memory).0
          (u64 (size * nmemb))
  unfolding kcalloc kmalloc
  kcalloc-LiveBlock nmemb size heap memory found =
      laws.malloc_live heap.tlsf_ctx (u64 (size * nmemb)) found

  kcalloc-zeroes :
      (nmemb size i : ℕ) (heap : Heap lib) (memory : Memory)
      → i < u64 (size * nmemb)
      → (kcalloc lib nmemb size heap memory).2 ((kcalloc lib nmemb size heap memory).0 + i) ≡ 0
  unfolding kcalloc kmalloc
  kcalloc-zeroes nmemb size i heap memory inside =
      let n = u64 (size * nmemb) in
      let block = (lib.malloc heap.tlsf_ctx n).0 in
      ground (arith, memzero_lem memory block n (block + i), inside)

  kcalloc-keeps :
      (nmemb size ptr other i : ℕ) (heap : Heap lib) (memory : Memory)
      → (kcalloc lib nmemb size heap memory).0 ≢ 0
      → LiveBlock heap ptr other
      → i < other
      → LiveBlock (kcalloc lib nmemb size heap memory).1 ptr other
        × ((kcalloc lib nmemb size heap memory).2 (ptr + i) ≡ memory (ptr + i))
  unfolding kcalloc kmalloc
  kcalloc-keeps nmemb size ptr other i heap memory found held inside =
      let n = u64 (size * nmemb) in
      let block = (lib.malloc heap.tlsf_ctx n).0 in
      let apart = laws.malloc_apart heap.tlsf_ctx n ptr other found held in
      (
        laws.malloc_keeps heap.tlsf_ctx n ptr other held,
        ground (arith, memzero_lem memory block n (ptr + i), apart, inside),
      )

  -- If the allocator returns live blocks that are apart from all live ones, and kcalloc does not
  -- return NULL, then its block is live and its bytes, as many as the product modulo 2^64, are 0,
  -- and every other live block stays live and keeps its bytes.
  pub kcalloc_lem :
      (nmemb size : ℕ) (heap : Heap lib) (memory : Memory)
      → (kcalloc lib nmemb size heap memory).0 ≢ 0
      → (let (block, heap', memory') = kcalloc lib nmemb size heap memory in
          LiveBlock heap' block (u64 (size * nmemb))
          × ((i : ℕ) → i < u64 (size * nmemb) → memory' (block + i) ≡ 0)
          × ((ptr other i : ℕ)
              → LiveBlock heap ptr other
              → i < other
              → LiveBlock heap' ptr other × (memory' (ptr + i) ≡ memory (ptr + i))))
  kcalloc_lem nmemb size heap memory found = (
    kcalloc-LiveBlock nmemb size heap memory found,
    λ i inside. kcalloc-zeroes nmemb size i heap memory inside,
    λ ptr other i held inside. kcalloc-keeps nmemb size ptr other i heap memory found held inside,
  )
