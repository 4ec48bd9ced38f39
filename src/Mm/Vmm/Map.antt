-- ===== src/Mm/Vmm/Map.antt =====
-- Mapping a page, and finding it again.
use mathlib.Core.Path.{subst}
use qnixx.Common.{
  Option, none, ℕ, ◌+◌, ◌*◌, ◌/◌, ◌%◌, ◌^◌, ◌<◌, ◌≡◌, ◌≢◌, refl, sym, ◌∙◌, ap, Bool, true, false,
  some, ◌∷◌, arith, update_self, update_ne, bit_or, ne→==,
}
use qnixx.Common.BitLaws.{bit_or-add}
use qnixx.Common.Word.{u64, align_down, align_down-page}
use qnixx.Mm.Vmm.{
  Vm, slot, pml4_index, pdpt_index, pd_index, pt_index, pte_get_addr, put, flush, get_next_level,
  get_page_table, vmm_map_page, vmm_unmap_page, vmm_get_pml4, vmm_get_phys,
}
use qnixx.Mm.Vmm.Level.{
  Leads, Leads-same, level, Sound, Walked, get_next_level-Leads, get_next_level_total,
  pte_get_addr_lem,
}

-- The tables on the way to the entry of a page.
pub record Path4 : Type 0 where
  pub pml4 : ℕ
  pub pdpt : ℕ
  pub pd : ℕ
  pub pt : ℕ

-- The addresses of the four entries.
abbrev pub at4 : Path4 → ℕ → ℕ
at4 w virt = slot w.pml4 (pml4_index virt)

abbrev pub at3 : Path4 → ℕ → ℕ
at3 w virt = slot w.pdpt (pdpt_index virt)

abbrev pub at2 : Path4 → ℕ → ℕ
at2 w virt = slot w.pd (pd_index virt)

abbrev pub at1 : Path4 → ℕ → ℕ
at1 w virt = slot w.pt (pt_index virt)

-- The walk of the processor: three present entries lead to the page table.
pub record Walk (hhdm : ℕ) (memory : ℕ → ℕ) (w : Path4) (virt : ℕ) : Type 0 where
  pub first : Leads hhdm memory (at4 w virt) w.pdpt
  pub second : Leads hhdm memory (at3 w virt) w.pd
  pub third : Leads hhdm memory (at2 w virt) w.pt

-- No two of the four entries are one word.
pub record Distinct (w : Path4) (virt : ℕ) : Type 0 where
  pub d43 : at4 w virt ≢ at3 w virt
  pub d42 : at4 w virt ≢ at2 w virt
  pub d41 : at4 w virt ≢ at1 w virt
  pub d32 : at3 w virt ≢ at2 w virt
  pub d31 : at3 w virt ≢ at1 w virt
  pub d21 : at2 w virt ≢ at1 w virt

-- No table on the way is at NULL in the higher half.
pub record NonNull (w : Path4) : Type 0 where
  pub pdpt : w.pdpt ≢ 0
  pub pd : w.pd ≢ 0
  pub pt : w.pt ≢ 0

module _ (undef : ℕ → ℕ → ℕ) (hhdm : ℕ) where
  get_page_table-Walk :
      (alloc : Bool) (w : Path4) (virt : ℕ) (s : Vm)
      → NonNull w
      → Walk hhdm s.memory w virt
      → get_page_table undef hhdm w.pml4 virt alloc s ≡ some (w.pt, s)
  unfolding get_page_table
  get_page_table-Walk alloc w virt s nn walk =
      rw
        (
          get_next_level-Leads undef hhdm w.pml4 (pml4_index virt) alloc s walk.first,
          ne→== w.pdpt 0 nn.pdpt,
          get_next_level-Leads undef hhdm w.pdpt (pdpt_index virt) alloc s walk.second,
          ne→== w.pd 0 nn.pd,
        )
        (get_next_level-Leads undef hhdm w.pd (pd_index virt) alloc s walk.third)

  -- The three steps of a walk that allocates, from `s` to `s3`.
  pub record Steps (w : Path4) (virt : ℕ) (s s1 s2 s3 : Vm) : Type 0 where
    pub run1 : get_next_level undef hhdm w.pml4 (pml4_index virt) true s ≡ some (w.pdpt, s1)
    pub walked1 : Walked undef hhdm w.pml4 (pml4_index virt) s s1 w.pdpt
    pub run2 : get_next_level undef hhdm w.pdpt (pdpt_index virt) true s1 ≡ some (w.pd, s2)
    pub walked2 : Walked undef hhdm w.pdpt (pdpt_index virt) s1 s2 w.pd
    pub run3 : get_next_level undef hhdm w.pd (pd_index virt) true s2 ≡ some (w.pt, s3)
    pub walked3 : Walked undef hhdm w.pd (pd_index virt) s2 s3 w.pt

  get_page_table-Steps :
      (w : Path4) (virt : ℕ) {s s1 s2 s3 : Vm}
      → NonNull w
      → Steps w virt s s1 s2 s3
      → get_page_table undef hhdm w.pml4 virt true s ≡ some (w.pt, s3)
  unfolding get_page_table
  get_page_table-Steps w virt nn t =
      rw (t.run1, ne→== w.pdpt 0 nn.pdpt, t.run2, ne→== w.pd 0 nn.pd) t.run3

  -- The states of a walk that allocates, and the tables that it comes to.
  abbrev pub way : (pml4 virt : ℕ) → Vm → Path4 × Vm × Vm × Vm
  way pml4 virt s =
      let (pdpt, s1) = level undef hhdm pml4 (pml4_index virt) s in
      let (pd, s2) = level undef hhdm pdpt (pdpt_index virt) s1 in
      let (pt, s3) = level undef hhdm pd (pd_index virt) s2 in
      (record { pml4 = pml4; pdpt = pdpt; pd = pd; pt = pt }, s1, s2, s3)

  abbrev pub path_of : (pml4 virt : ℕ) → Vm → Path4
  path_of pml4 virt s = (way pml4 virt s).0

  -- What a level comes to is what `level` says.
  level-runs :
      (top index : ℕ) (s : Vm)
      → Sound s.pmm
      → (get_next_level undef hhdm top index true s
          ≡ some ((level undef hhdm top index s).0, (level undef hhdm top index s).1))
        × Walked undef hhdm top index s
            (level undef hhdm top index s).1
            (level undef hhdm top index s).0
        × Sound (level undef hhdm top index s).1.pmm
  level-runs top index s sound =
      let (below, s', run, walked, still) = get_next_level_total undef hhdm top index s sound in
      let same : level undef hhdm top index s ≡ (below, s') =
        ap (λ (o : Option (ℕ × Vm)). elim o as (λ _. ℕ × Vm) [ none ↦ (0, s) | some r ↦ r ]) run in
      subst
        (λ (r : ℕ × Vm).
          (get_next_level undef hhdm top index true s ≡ some (r.0, r.1))
          × Walked undef hhdm top index s r.1 r.0
          × Sound r.1.pmm)
        (sym same) (run, walked, still)

  -- With a sound memory manager every walk that allocates takes its three steps.
  way-Steps :
      (pml4 virt : ℕ) (s : Vm)
      → Sound s.pmm
      → (let (w, s1, s2, s3) = way pml4 virt s in Steps w virt s s1 s2 s3)
  way-Steps pml4 virt s sound =
      let one = level-runs pml4 (pml4_index virt) s sound in
      let two = level-runs (way pml4 virt s).0.pdpt (pdpt_index virt) (way pml4 virt s).1 one.2 in
      let three = level-runs (way pml4 virt s).0.pd (pd_index virt) (way pml4 virt s).2 two.2 in
      record {
        run1 = one.0;
        walked1 = one.1;
        run2 = two.0;
        walked2 = two.1;
        run3 = three.0;
        walked3 = three.1;
      }

  module _ (w : Path4) (virt phys flags : ℕ) {s s1 s2 s3 : Vm} (steps : Steps w virt s s1 s2 s3)
      (nn : NonNull w) (distinct : Distinct w virt) where
    -- The state after the page has been mapped.
    abbrev pub mapped : Vm
    mapped = flush virt (put (at1 w virt) (bit_or phys flags) s3)

    -- Under the same conditions on the walk, vmm_map_page returns, the three upper entries are
    -- present and lead to the page table, and the entry of the address there holds the physical
    -- address with the flags.
    pub vmm_map_page-Walk :
        (vmm_map_page undef hhdm w.pml4 virt phys flags s ≡ some mapped)
        × Walk hhdm mapped.memory w virt
        × (mapped.memory (at1 w virt) ≡ bit_or phys flags)
    unfolding vmm_map_page
    vmm_map_page-Walk = (
      rw (get_page_table-Steps w virt nn steps) refl,
      record {
        first =
            Leads-same hhdm (at4 w virt) w.pdpt s1.memory mapped.memory
              (update_ne s3.memory (bit_or phys flags) distinct.d41
                ∙ steps.walked3.elsewhere (at4 w virt) distinct.d42
                ∙ steps.walked2.elsewhere (at4 w virt) distinct.d43)
              steps.walked1.leads;
        second =
            Leads-same hhdm (at3 w virt) w.pd s2.memory mapped.memory
              (update_ne s3.memory (bit_or phys flags) distinct.d31
                ∙ steps.walked3.elsewhere (at3 w virt) distinct.d32)
              steps.walked2.leads;
        third =
            Leads-same hhdm (at2 w virt) w.pt s3.memory mapped.memory
              (update_ne s3.memory (bit_or phys flags) distinct.d21) steps.walked3.leads;
      },
      update_self s3.memory (at1 w virt) (bit_or phys flags),
    )

    -- Mapping a page changes no word but the four entries.
    pub vmm_map_page_elsewhere :
        (a : ℕ)
        → a ≢ at4 w virt
        → a ≢ at3 w virt
        → a ≢ at2 w virt
        → a ≢ at1 w virt
        → mapped.memory a ≡ s.memory a
    vmm_map_page_elsewhere a n4 n3 n2 n1 =
        update_ne s3.memory (bit_or phys flags) n1
        ∙ steps.walked3.elsewhere a n2
        ∙ steps.walked2.elsewhere a n3
        ∙ steps.walked1.elsewhere a n4

    -- The page is found again.
    found_again :
        w.pml4 ≡ vmm_get_pml4 undef hhdm s
        → virt < 2 ^ 64
        → virt % 4096 ≡ 0
        → phys < 2 ^ 52
        → phys % 4096 ≡ 0
        → flags < 4096
        → (vmm_map_page undef hhdm w.pml4 virt phys flags s ≡ some mapped)
          × (vmm_get_phys undef hhdm virt mapped ≡ some (phys, mapped))
    unfolding vmm_get_phys vmm_get_pml4
    found_again own small whole small' whole' low =
        let page : align_down virt 4096 ≡ virt = align_down-page virt small ∙ omega arith in
        let here : u64 (mapped.cr3 + hhdm) ≡ w.pml4 =
          ap (λ (t : ℕ). u64 (t + hhdm))
            (steps.walked3.same_cr3 ∙ steps.walked2.same_cr3 ∙ steps.walked1.same_cr3)
          ∙ sym own in
        let found = get_page_table-Walk true w virt mapped nn vmm_map_page-Walk.1 in
        (vmm_map_page-Walk.0, rw (page, here, found) (ap (λ (t : ℕ). some (t, mapped)) address))
      where
        address : pte_get_addr (mapped.memory (at1 w virt)) ≡ phys
        address =
            ap (λ (t : ℕ). pte_get_addr t)
              (vmm_map_page-Walk.2
                ∙ ap (λ (t : ℕ). bit_or t flags) (omega arith)
                ∙ bit_or-add 12 (phys / 4096) flags low)
            ∙ pte_get_addr_lem (phys / 4096 * 2 ^ 12 + flags)
            ∙ omega arith

  -- If the manager has usable memory, its bitmap is not empty, holds bytes and has fewer than
  -- 2^36 bytes, the tables that the walk follows or allocates are not at NULL in the higher half
  -- and no two of its four entries are one word, and the address and the physical address are
  -- multiples of 4096 below 2^64 and 2^52 and the flags are below 4096, then vmm_map_page in the
  -- current PML4 returns, and vmm_get_phys of the address gives the physical address.
  pub vmm_get_phys-vmm_map_page :
      (virt phys flags : ℕ) (s : Vm)
      → Sound s.pmm
      → NonNull (path_of (vmm_get_pml4 undef hhdm s) virt s)
      → Distinct (path_of (vmm_get_pml4 undef hhdm s) virt s) virt
      → virt < 2 ^ 64
      → virt % 4096 ≡ 0
      → phys < 2 ^ 52
      → phys % 4096 ≡ 0
      → flags < 4096
      → (s' : Vm) × (vmm_map_page undef hhdm (vmm_get_pml4 undef hhdm s) virt phys flags s
          ≡ some s')
        × (vmm_get_phys undef hhdm virt s' ≡ some (phys, s'))
  vmm_get_phys-vmm_map_page virt phys flags s sound nn distinct small whole small' whole' low =
      let pml4 = vmm_get_pml4 undef hhdm s in
      let steps = way-Steps pml4 virt s sound in
      let (runs, finds) =
        found_again (path_of pml4 virt s) virt phys flags steps nn distinct refl small whole small'
          whole' low in
      (mapped (path_of pml4 virt s) virt phys flags steps nn distinct, runs, finds)

  -- If three present entries lead to the page table of an address over tables that are not at
  -- NULL, vmm_unmap_page returns, clears the entry of the address, leaves every other word as it
  -- was, and flushes the address.
  pub vmm_unmap_page-Walk :
      (w : Path4) (virt : ℕ) (s : Vm) (a : ℕ)
      → NonNull w
      → Walk hhdm s.memory w virt
      → a ≢ at1 w virt
      → (s' : Vm) × (vmm_unmap_page undef hhdm w.pml4 virt s ≡ some s')
        × (s'.memory (at1 w virt) ≡ 0)
        × (s'.memory a ≡ s.memory a)
        × (s'.flushed ≡ virt ∷ s.flushed)
  unfolding vmm_unmap_page
  vmm_unmap_page-Walk w virt s a nn walk away = (
    flush virt (put (at1 w virt) 0 s),
    rw (get_page_table-Walk false w virt s nn walk, ne→== w.pt 0 nn.pt) refl,
    update_self s.memory (at1 w virt) 0,
    update_ne s.memory 0 away,
    refl,
  )
