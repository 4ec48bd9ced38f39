-- ===== src/Mm/HeapTests.antt =====
-- The heap over an allocator that hands out one block behind the other.
use qnixx.Common.{ℕ, ◌+◌, ◌*◌, ◌≤◌, ◌<◌, ◌≡◌, inl, arith}
use qnixx.Common.Word.{u64}
use qnixx.Mm.Heap.{Tlsf, Heap, kmalloc, kcalloc}
use qnixx.Mm.Heap.Zeroed.{AllocatorLaws, LiveBlock, kcalloc_lem}

-- The state is the first free address, and nothing is given back.
abbrev bump : Tlsf
bump = record {
  Ctx = ℕ;
  create_with_pool = λ mem bytes. mem;
  malloc = λ next size. (next, next + size);
  realloc = λ next ptr size. (next, next + size);
  free = λ next ptr. next;
}

bump_laws : AllocatorLaws bump
bump_laws = record {
  Live = λ next ptr size. ptr + size ≤ next;
  malloc_live = λ next size found. omega arith;
  malloc_keeps = λ next size ptr other held. omega (arith, held);
  malloc_apart = λ next size ptr other found held. inl held;
}

abbrev heap : Heap bump
heap = record { tlsf_ctx = 0x1000; bytes_allocated = 64 }

kcalloc_lem_example :
    (let (block, heap', memory') = kcalloc bump 4 8 heap (λ _. 7) in
      LiveBlock bump bump_laws heap' block (u64 (8 * 4))
      × ((i : ℕ) → i < u64 (8 * 4) → memory' (block + i) ≡ 0)
      × ((ptr other i : ℕ)
          → LiveBlock bump bump_laws heap ptr other
          → i < other
          → LiveBlock bump bump_laws heap' ptr other × (memory' (ptr + i) ≡ 7)))
unfolding kcalloc kmalloc
kcalloc_lem_example = kcalloc_lem bump bump_laws 4 8 heap (λ _. 7) (omega arith)
