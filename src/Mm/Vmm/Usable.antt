-- ===== src/Mm/Vmm/Usable.antt =====
-- While there is usable memory in the map, the functions of vmm.c that only allocate return.
use qnixx.Common.{ℕ, ◌+◌, ◌≡◌, ◌==◌, refl, some, if◌then◌else◌}
use qnixx.Common.Word.{u64}
use qnixx.Mm.Pmm.Usable.{IsUsable, pmm_alloc-returns}
use qnixx.Mm.Vmm.{Vm, vmm_alloc_pages, vmm_make_pml4, vmm_get_pml4, clear_words, copy_half}

module _ (undef : ℕ → ℕ → ℕ) (hhdm : ℕ) where
  pub vmm_alloc_pages-returns :
      (pages : ℕ) (vm : Vm)
      → IsUsable vm.pmm
      → (ptr : ℕ) × (vm' : Vm) × (vmm_alloc_pages undef hhdm pages vm ≡ some (ptr, vm'))
        × IsUsable vm'.pmm
  unfolding vmm_alloc_pages
  vmm_alloc_pages-returns pages vm h =
      let (ptr, pmm, run, still) = pmm_alloc-returns undef vm.pmm pages h in
      (u64 (ptr + hhdm), record vm { pmm = pmm }, rw (run, vmm_alloc_pages) refl, still)

  pub vmm_make_pml4-returns :
      (vm : Vm)
      → IsUsable vm.pmm
      → (new : ℕ) × (vm' : Vm) × (vmm_make_pml4 undef hhdm vm ≡ some (new, vm')) × IsUsable vm'.pmm
  unfolding vmm_make_pml4
  vmm_make_pml4-returns vm h =
      let old = if vm.old_pml4 == 0 then vmm_get_pml4 undef hhdm vm else vm.old_pml4 in
      let (new, next, run, still) = vmm_alloc_pages-returns 1 (record vm { old_pml4 = old }) h in
      (
        new,
        record next { memory = copy_half new old (clear_words new next.memory) },
        rw (run, vmm_make_pml4) refl,
        still,
      )
