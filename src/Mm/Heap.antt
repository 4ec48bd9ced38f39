-- ===== src/Mm/Heap.antt =====
-- sys/mm/heap.c: the kernel's heap. The allocator is a library that the source brings along: it is an
-- argument. Addresses are numbers, and 0 is NULL.
pub mod Zeroed
use qnixx.Common.{ℕ, ◌+◌, ◌*◌, Option, none, some}
use qnixx.Common.Word.{u64}
use qnixx.Libkern.Memory.{Memory, memzero}
use qnixx.Mm.Vmm.{Vm, vmm_alloc_pages}

-- What the file uses of the allocator: its state, and its operations.
pub record Tlsf : Type 1 where
  pub Ctx : Type 0
  pub create_with_pool : (mem bytes : ℕ) → Ctx
  pub malloc : Ctx → (size : ℕ) → ℕ × Ctx
  pub realloc : Ctx → (ptr size : ℕ) → ℕ × Ctx
  pub free : Ctx → (ptr : ℕ) → Ctx

abbrev pub heap_size_pages : ℕ
heap_size_pages = 30

module _ (lib : Tlsf) where
  -- `tlsf_ctx` and `bytes_allocated`.
  pub record Heap : Type 0 where
    pub tlsf_ctx : lib.Ctx
    pub bytes_allocated : ℕ

  unfoldable pub heap_init : (ℕ → ℕ → ℕ) → (hhdm : ℕ) → Vm → Option (Heap × Vm)
  heap_init undef hhdm vm = elim (vmm_alloc_pages undef hhdm heap_size_pages vm) [
    | none ↦ none
    | some (pool, vm') ↦ some (
      record { tlsf_ctx = lib.create_with_pool pool (heap_size_pages * 4096); bytes_allocated = 0 },
      vm',
    )
  ]

  unfoldable pub kmalloc : (sz : ℕ) → Heap → ℕ × Heap
  kmalloc sz heap =
      let (ptr, ctx) = lib.malloc heap.tlsf_ctx sz in
      (ptr, record { tlsf_ctx = ctx; bytes_allocated = u64 (heap.bytes_allocated + sz) })

  -- The block is cleared also where it is NULL, and the product wraps.
  unfoldable pub kcalloc : (nmemb size : ℕ) → Heap → Memory → ℕ × Heap × Memory
  kcalloc nmemb size heap memory =
      let (mem, heap') = kmalloc (u64 (size * nmemb)) heap in
      (mem, heap', memzero memory mem (u64 (size * nmemb)))

  unfoldable pub krealloc : (ptr sz : ℕ) → Heap → ℕ × Heap
  krealloc ptr sz heap =
      let (ptr', ctx) = lib.realloc heap.tlsf_ctx ptr sz in (ptr', record heap { tlsf_ctx = ctx })

  unfoldable pub kfree : (ptr : ℕ) → Heap → Heap
  kfree ptr heap = record heap { tlsf_ctx = lib.free heap.tlsf_ctx ptr }
