-- ===== src/Mm/VmmTests.antt =====
-- Mapping on a machine whose page at 0x400000 has its three tables already.
use qnixx.Common.{ℕ, ◌/◌, ◌%◌, ◌^◌, ◌≡◌, refl, sym, some, [], ◌∷◌, arith, ◌==◌, if◌then◌else◌}
use mathlib.Core.Path.{subst}
use qnixx.Common.Word.{align_up}
use qnixx.Libkern.Bitmap.{is_set, test_bit, set_bit}
use qnixx.Common.Loop.{for_loop}
use qnixx.Mm.Pmm.{
  find_from, find_contigious_chunk, get_bitmap_size, find_highest_mem_chunk, pmm_alloc, mark_frames,
}
use qnixx.Mm.Vmm.Level.{Sound}
use qnixx.Mm.Vmm.{get_next_level, Vm, vmm_map_page, vmm_unmap_page, vmm_get_pml4, vmm_get_phys}
use qnixx.Mm.Vmm.Map.{
  Path4, Walk, NonNull, Distinct, path_of, vmm_get_phys-vmm_map_page, vmm_unmap_page-Walk,
}

abbrev x86 : ℕ → ℕ → ℕ
x86 x n = x / 2 ^ (n % 32)

abbrev hhdm : ℕ
hhdm = 0xFFFF800000000000

abbrev page : ℕ
page = 0x400000

abbrev vm : Vm
vm = record {
  memory = λ a.
      if a == 0xFFFF800000001000
      then 0x2003
      else (if a == 0xFFFF800000002000
          then 0x3003
          else (if a == 0xFFFF800000003010 then 0x4003 else 0));
  pmm = record { entries = []; address = some 0; bitmap = λ _. 0 };
  cr3 = 0x1000;
  old_pml4 = 0;
  flushed = [];
}

abbrev tables : Path4
tables = record {
  pml4 = 0xFFFF800000001000;
  pdpt = 0xFFFF800000002000;
  pd = 0xFFFF800000003000;
  pt = 0xFFFF800000004000;
}

walk : Walk hhdm vm.memory tables page
walk = record {
  first = record { present = refl; target = refl };
  second = record { present = refl; target = refl };
  third = record { present = refl; target = refl };
}

non_null : NonNull tables
non_null = record { pdpt = omega arith; pd = omega arith; pt = omega arith }

-- A machine without tables, whose manager hands out the frames 1, 2 and 3 for them.
abbrev bare : Vm
bare = record {
  memory = λ a. 0;
  pmm = record {
    entries = record { base = 0; length = 0x8000000; type = 0 } ∷ [];
    address = some 0;
    bitmap = λ _. 0;
  };
  cr3 = 0x10000;
  old_pml4 = 0;
  flushed = [];
}

bare-Sound : Sound bare.pmm
unfolding get_bitmap_size find_highest_mem_chunk align_up
bare-Sound = record {
  size = 4096;
  sized = refl;
  pos = omega arith;
  small = omega arith;
  bytes = λ i. omega arith;
}

abbrev new_path : Path4
new_path = record {
  pml4 = 0xFFFF800000010000;
  pdpt = 0xFFFF800000001000;
  pd = 0xFFFF800000002000;
  pt = 0xFFFF800000003000;
}

goes : path_of x86 hhdm (vmm_get_pml4 x86 hhdm bare) page bare ≡ new_path
unfolding vmm_get_pml4 get_next_level pmm_alloc find_contigious_chunk get_bitmap_size
    find_highest_mem_chunk align_up is_set find_from test_bit mark_frames for_loop set_bit
goes = refl

new_path-NonNull : NonNull new_path
new_path-NonNull = record { pdpt = omega arith; pd = omega arith; pt = omega arith }

new_path-Distinct : Distinct new_path page
new_path-Distinct = record {
  d43 = omega arith;
  d42 = omega arith;
  d41 = omega arith;
  d32 = omega arith;
  d31 = omega arith;
  d21 = omega arith;
}

vmm_get_phys-vmm_map_page_example :
    (s' : Vm) × (vmm_map_page x86 hhdm (vmm_get_pml4 x86 hhdm bare) page 0x7000 3 bare ≡ some s')
    × (vmm_get_phys x86 hhdm page s' ≡ some (0x7000, s'))
vmm_get_phys-vmm_map_page_example =
    vmm_get_phys-vmm_map_page x86 hhdm page 0x7000 3 bare bare-Sound
      (subst NonNull (sym goes) new_path-NonNull)
      (subst (λ (w : Path4). Distinct w page) (sym goes) new_path-Distinct) (omega arith) refl
      (omega arith) refl (omega arith)

vmm_unmap_page-Walk_example :
    (s' : Vm) × (vmm_unmap_page x86 hhdm 0xFFFF800000001000 page vm ≡ some s')
    × (s'.memory 0xFFFF800000004000 ≡ 0)
    × (s'.memory 0xFFFF800000001000 ≡ 0x2003)
    × (s'.flushed ≡ page ∷ [])
vmm_unmap_page-Walk_example =
    vmm_unmap_page-Walk x86 hhdm tables page vm 0xFFFF800000001000 non_null walk (omega arith)
