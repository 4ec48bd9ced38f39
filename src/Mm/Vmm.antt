-- ===== src/Mm/Vmm.antt =====
-- sys/mm/vmm.c: page tables in physical memory, which the higher half shows at the offset `hhdm`.
-- `memory` is indexed by virtual address, one 64-bit word to each multiple of eight.
pub mod Level
pub mod Map
pub mod Fork
pub mod Usable
use qnixx.Common.{
  ℕ, ◌+◌, ◌-◌, ◌*◌, ◌/◌, ◌^◌, Bool, true, false, Option, none, some, List, [], ◌∷◌, ◌==◌,
  if◌then◌else◌, update, bit_and, bit_or,
}
use qnixx.Common.Word.{u64, align_down}
use qnixx.Common.Loop.{for_loop}
use qnixx.Mm.Pmm.{Pmm, pmm_alloc}

abbrev pub pte_addr_mask : ℕ
pte_addr_mask = 0x000FFFFFFFFFF000

abbrev pub pte_present : ℕ
pte_present = 1

abbrev pub pte_writable : ℕ
pte_writable = 2

abbrev pub pte_nx : ℕ
pte_nx = 2 ^ 63

-- `PTE_GET_ADDR`
abbrev pub pte_get_addr : ℕ → ℕ
pte_get_addr value = bit_and value pte_addr_mask

-- `flushed` lists the addresses whose TLB entries were flushed, the last one first, and `old_pml4`
-- is the static variable of `vmm_make_pml4`.
pub record Vm : Type 0 where
  pub memory : ℕ → ℕ
  pub pmm : Pmm
  pub cr3 : ℕ
  pub old_pml4 : ℕ
  pub flushed : List ℕ

-- The address of entry `index` of a table.
abbrev pub slot : ℕ → ℕ → ℕ
slot table index = table + 8 * index

abbrev pub pml4_index : ℕ → ℕ
pml4_index virt = bit_and (virt / 2 ^ 39) 0x1FF

abbrev pub pdpt_index : ℕ → ℕ
pdpt_index virt = bit_and (virt / 2 ^ 30) 0x1FF

abbrev pub pd_index : ℕ → ℕ
pd_index virt = bit_and (virt / 2 ^ 21) 0x1FF

-- `VIRT_TO_PT_INDEX`
abbrev pub pt_index : ℕ → ℕ
pt_index virt = bit_and (virt / 2 ^ 12) 0x1FF

abbrev pub is_present : ℕ → Bool
is_present entry = if bit_and entry pte_present == 0 then false else true

-- The new entry for a table at the physical address `next_level`.
abbrev pub table_entry : ℕ → ℕ
table_entry next_level = bit_or (bit_or (bit_or next_level pte_present) pte_writable) pte_nx

infixl 5 ◌>>=◌
abbrev pub ◌>>=◌ : {A B : Type 0} → Option A → (A → Option B) → Option B
none >>= f = none
some a >>= f = f a

-- `flush_tlb_single`, and a store of one word.
abbrev pub flush : ℕ → Vm → Vm
flush virt s = record s { flushed = virt ∷ s.flushed }

abbrev pub put : ℕ → ℕ → Vm → Vm
put address value s = record s { memory = update s.memory address value }

-- `memzero(new_pml4, 512)` clears 512 bytes, which are 64 words.
unfoldable pub clear_words : ℕ → (ℕ → ℕ) → ℕ → ℕ
clear_words table memory = for_loop 64 64 1 (λ i m. update m (slot table i) 0) 0 memory

-- `for (i = 256; i < 512; ++i) new_pml4[i] = old_pml4[i];`
unfoldable pub copy_half : (new old : ℕ) → (ℕ → ℕ) → ℕ → ℕ
copy_half new old memory =
    for_loop 256 512 1 (λ i m. update m (slot new i) (m (slot old i))) 256 memory

-- `undef` is that of `bitmap_test_bit`. A result `none` is a read through a null pointer in the
-- physical memory manager; a pointer 0 is NULL.
module _ (undef : ℕ → ℕ → ℕ) (hhdm : ℕ) where
  unfoldable pub get_next_level : (top index : ℕ) (alloc : Bool) → Vm → Option (ℕ × Vm)
  get_next_level top index alloc s =
      let entry = s.memory (slot top index) in
      if is_present entry
      then some (u64 (pte_get_addr entry + hhdm), s)
      else if alloc
      then elim (pmm_alloc undef s.pmm 1) [
        | none ↦ none
        | some (next_level, pmm) ↦ some (
          u64 (next_level + hhdm),
          put (slot top index) (table_entry next_level) (record s { pmm = pmm }),
        )
      ]
      else some (0, s)

  unfoldable pub get_page_table : (pml4 virt : ℕ) (alloc : Bool) → Vm → Option (ℕ × Vm)
  get_page_table pml4 virt alloc s = do
    (pdpt, s1) ← get_next_level pml4 (pml4_index virt) alloc s
    if pdpt == 0 then some (0, s1) else do
      (pd, s2) ← get_next_level pdpt (pdpt_index virt) alloc s1
      if pd == 0 then some (0, s2) else get_next_level pd (pd_index virt) alloc s2

  unfoldable pub vmm_map_page : (pml4 virt phys flags : ℕ) → Vm → Option Vm
  vmm_map_page pml4 virt phys flags s = do
    (page_table, s') ← get_page_table pml4 virt true s
    some (flush virt (put (slot page_table (pt_index virt)) (bit_or phys flags) s'))

  unfoldable pub vmm_unmap_page : (pml4 virt : ℕ) → Vm → Option Vm
  vmm_unmap_page pml4 virt s = do
    (page_table, s') ← get_page_table pml4 virt false s
    if page_table == 0
        then some s'
        else some (flush virt (put (slot page_table (pt_index virt)) 0 s'))

  unfoldable pub vmm_alloc_pages : ℕ → Vm → Option (ℕ × Vm)
  vmm_alloc_pages pages s = elim (pmm_alloc undef s.pmm pages) [
    | none ↦ none
    | some (ptr, pmm) ↦ some (u64 (ptr + hhdm), record s { pmm = pmm })
  ]

  unfoldable pub vmm_get_pml4 : Vm → ℕ
  vmm_get_pml4 s = u64 (s.cr3 + hhdm)

  unfoldable pub vmm_make_pml4 : Vm → Option (ℕ × Vm)
  unfolding vmm_get_pml4 vmm_alloc_pages
  vmm_make_pml4 s = do
    let old = if s.old_pml4 == 0 then vmm_get_pml4 s else s.old_pml4
    (new, s') ← vmm_alloc_pages 1 (record s { old_pml4 = old })
    some (new, record s' { memory = copy_half new old (clear_words new s'.memory) })

  unfoldable pub vmm_get_phys : ℕ → Vm → Option (ℕ × Vm)
  unfolding vmm_get_pml4
  vmm_get_phys virt s = do
    let page = align_down virt 0x1000
    (page_table, s') ← get_page_table (vmm_get_pml4 s) page true s
    some (pte_get_addr (s'.memory (slot page_table (pt_index page))), s')
