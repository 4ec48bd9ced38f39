-- ===== src/Start/Returns.antt =====
-- The start of the kernel comes to its end on a machine that has what it asks for.
use mathlib.Core.Path.{subst}
use qnixx.Common.{
  ℕ, ◌+◌, ◌-◌, ◌*◌, ◌/◌, ◌^◌, ◌≤◌, ◌≡◌, ◌≢◌, refl, sym, ap, ◌∙◌, true, Option, none, some, List,
  length, ne→==, update, bit_or,
}
use qnixx.Common.Word.{u8, u64}
use qnixx.Amd64.Io.{Trace}
use qnixx.Amd64.Idt.{Idt, register_irq, register_interrupt}
use qnixx.Amd64.Cores.{init_cores}
use qnixx.Amd64.Cores.Returns.{smp_init-returns}
use qnixx.Mm.Pmm.Usable.{has_usable, IsUsable, pmm_init-returns}
use qnixx.Mm.Vmm.{Vm}
use qnixx.Mm.Vmm.Usable.{vmm_alloc_pages-returns}
use qnixx.Mm.Heap.{Heap, heap_init, heap_size_pages}
use qnixx.Acpi.Tables.{rsdp_at, rsdt_at, madt_at}
use qnixx.Acpi.{acpi_remap_irq, Acpi, acpi_init, acpi_query, parse_madt}
use qnixx.Acpi.Madt.{Tiles, last_ioapic, parse_from-last, remap_from-override}
use qnixx.Dev.Pci.{PciDevice, pci_find}
use qnixx.Dev.Hpet.{hpet_address}
use qnixx.Dev.Hpet.Found.{IsTimer, timer_at, hpet_init-returns}
use qnixx.Dev.Rtl8139.{Nic}
use qnixx.Dev.Rtl8139.Reset.{Resets, at_ports, rtl8139_init-returns}
use qnixx.Fs.{Vfs, VType, new_vnode, vfs_init, vfs_make_vnode}
use qnixx.Libkern.String.{strlen_from}
use qnixx.Start.{Boot, ◌>>=◌, Machine, Started, init, init_net, first_vm, register_nic, lapic_base}

-- A first part that returns, and the rest.
pub follow :
    {A B : Type 0} (m : Boot A) (f : A → Boot B) (t : Trace) (a : A) (b : B)
    → (m t).0 ≡ some a
    → (f a (m t).1).0 ≡ some b
    → ((m >>= f) t).0 ≡ some b
unfolding qnixx.Start.◌>>=◌
follow m f t a b returns rest =
    ap
      (λ (o : Option _).
        (elim o as (λ _. Option _ × Trace) [ none ↦ (none, (m t).1) | some a ↦ f a (m t).1 ]).0)
      returns
    ∙ rest

-- A first part that returns, and a rest that returns with a property whatever the trace.
pub followed :
    {A B : Type 0} (P : B → Type 0) (m : Boot A) (f : A → Boot B) (t : Trace) (a : A)
    → (m t).0 ≡ some a
    → ((t : Trace) → (b : B) × ((f a t).0 ≡ some b) × P b)
    → (b : B) × (((m >>= f) t).0 ≡ some b) × P b
followed P m f t a returns rest =
    let (b, run, holds) = rest (m t).1 in (b, follow m f t a b returns run, holds)

-- A first part that returns, and a rest that returns with a property from the trace it leaves.
pub followed_at :
    {A B : Type 0} (P : B → Type 0) (m : Boot A) (f : A → Boot B) (t : Trace) (a : A)
    → (m t).0 ≡ some a
    → (b : B) × ((f a (m t).1).0 ≡ some b) × P b
    → (b : B) × (((m >>= f) t).0 ≡ some b) × P b
followed_at P m f t a returns (b, run, holds) = (b, follow m f t a b returns run, holds)

module _ (m : Machine) where
  -- The tables that the firmware names, before the MADT is read.
  abbrev pub root_table : Acpi
  root_table =
      let rsdt = u64 ((rsdp_at m.firmware m.rsdp).rsdtaddr + m.hhdm) in
      record m.acpi {
        rsdt = rsdt;
        rsdt_entry_count = u64 ((rsdt_at m.firmware rsdt).header.length + 2 ^ 64 - 36) / 4;
      }

  abbrev pub madt_address : ℕ
  madt_address = acpi_query m.firmware m.hhdm root_table m.apic 4

  abbrev pub hpet_table : ℕ
  hpet_table = acpi_query m.firmware m.hhdm root_table m.hpet 4

  -- What the start asks for: usable memory; a MADT whose records lie end to end, no more than the
  -- fuel; a HPET; a hash map for the root; and a network card that,
  -- where there is one, comes out of its reset within as many reads as the fuel.
  pub record Provides : Type 0 where
    pub memory : has_usable m.entries ≡ true
    pub madt : madt_address ≢ 0
    pub records : List ℕ
    pub tiles :
        Tiles m.firmware records
          (madt_address + 44)
          (madt_address + (madt_at m.firmware madt_address).header.length)
    pub enough : length records ≤ m.fuel
    pub hpet : hpet_table ≢ 0
    pub capabilities : ℕ
    pub timer : IsTimer m.hw (u64 (hpet_address m.firmware hpet_table + m.hhdm)) capabilities
    pub children : m.hash_map.Map
    pub created : m.hash_map.create 2 ≡ some children
    pub card :
        (t : Trace) (dev : PciDevice)
        → (pci_find m.hw 0x10EC 0x8139 t).0 ≡ some dev
        → Resets m.fuel m.hw (at_ports dev m.nic)

  module _ (r : Provides) where
    acpi_init-returns :
        (acpi : Acpi) × (acpi_init m.firmware m.hhdm m.fuel m.rsdp m.apic m.acpi ≡ some acpi)
        × (acpi_query m.firmware m.hhdm acpi m.hpet 4 ≡ hpet_table)
        × (acpi.madt ≡ madt_address)
    unfolding acpi_init parse_madt acpi_query
    acpi_init-returns =
        let found = record root_table { madt = madt_address } in
        let with_lapic : Acpi = record found {
          g_lapic_mmio_base = (madt_at m.firmware madt_address).lapic_addr;
        } in
        (
          record with_lapic {
            g_ioapic_mmio_base = last_ioapic m.firmware r.records m.acpi.g_ioapic_mmio_base;
          },
          rw (ne→== madt_address 0 r.madt, acpi_init)
              (parse_from-last m.firmware m.hhdm m.fuel r.records (madt_address + 44)
                (madt_address + (madt_at m.firmware madt_address).header.length) with_lapic r.enough
                r.tiles),
          refl,
          refl,
        )

    heap_init-returns :
        (vm : Vm)
        → IsUsable vm.pmm
        → (p : Heap m.tlsf × Vm) × (heap_init m.tlsf m.undef m.hhdm vm ≡ some p) × IsUsable p.1.pmm
    unfolding heap_init
    heap_init-returns vm h =
        let (ptr, next, run, still) = vmm_alloc_pages-returns m.undef m.hhdm heap_size_pages vm h in
        (
          (
            record {
              tlsf_ctx = m.tlsf.create_with_pool ptr (heap_size_pages * 4096);
              bytes_allocated = 0;
            },
            next,
          ),
          rw (run, heap_init) refl,
          still,
        )

    -- Every line can be registered.
    register_nic-returns :
        (acpi : Acpi) (irq : ℕ) (idt : Idt) (t : Trace)
        → acpi.madt ≡ madt_address
        → (idt' : Idt) × ((register_nic m acpi irq idt t).0 ≡ some idt')
    unfolding register_irq acpi_remap_irq
    register_nic-returns acpi irq idt t same =
        let place = λ (madt : ℕ).
          Tiles m.firmware r.records (madt + 44) (madt + (madt_at m.firmware madt).header.length) in
        let entry =
          remap_from-override m.firmware m.hhdm m.fuel r.records (acpi.madt + 44)
            (acpi.madt + (madt_at m.firmware acpi.madt).header.length) irq r.enough
            (subst place (sym same) r.tiles) in
        (
          register_interrupt idt (u8 (0x20 + irq)) m.nic_isr,
          rw (entry, register_irq, acpi_remap_irq) refl,
        )

    init_net-returns :
        (acpi : Acpi) (idt : Idt) (t : Trace)
        → acpi.madt ≡ madt_address
        → (net : Nic × Idt) × ((init_net m acpi idt t).0 ≡ some net)
    init_net-returns acpi idt t same =
        rtl8139_init-returns m.hw m.kmalloc m.vmm_get_phys (register_nic m acpi) m.fuel m.nic idt t
          (r.card t) (λ dev t. register_nic-returns acpi dev.irq_line idt t same)

    vfs_init-returns : (vfs : Vfs m.hash_map.Map) × (vfs_init m.hash_map m.root m.vfs ≡ some vfs)
    unfolding vfs_init vfs_make_vnode strlen_from
    vfs_init-returns =
        let node = new_vnode m.hash_map (λ _. 0) 0 VType.vdir true r.children in
        let made = record m.vfs { vnodes = update m.vfs.vnodes m.root node } in
        let at_root = made.vnodes m.root in
        (
          record made {
            fs_root = m.root;
            vnodes =
                update made.vnodes m.root (record at_root { v_flags = bit_or at_root.v_flags 1 });
          },
          rw (r.created, vfs_init, vfs_make_vnode) refl,
        )

    -- What init leaves: the cores that the boot loader lists, the timer of the tables, and usable memory.
    pub record IsStarted (s : Started m) : Type 0 where
      pub cores : s.cores ≡ init_cores m.blocks 0 m.smp.cpus m.cores
      pub count : length s.smp.cpus ≡ length m.smp.cpus
      pub timer :
          s.hpet ≡ timer_at (u64 (hpet_address m.firmware hpet_table + m.hhdm)) r.capabilities
      pub usable : IsUsable s.vm.pmm

    -- On a machine that provides what the start asks for, init returns.
    pub init-returns : (t : Trace) → (s : Started m) × ((init m t).0 ≡ some s) × IsStarted s
    unfolding init
    init-returns t =
        let (pmm, managed, usable) = pmm_init-returns m.hhdm m.entries m.bitmap r.memory in
        let (acpi, tables, same, at_madt) = acpi_init-returns in
        let (pool, allocated, left) = heap_init-returns (first_vm m pmm) usable in
        let (vfs, mounted) = vfs_init-returns in
        let (others, joined, cores, count, free) =
          smp_init-returns m.undef m.hhdm m.ap_entry m.blocks m.smp m.cores pool.1 left in
        let timer =
          subst
            (λ (table : ℕ).
              (table ≢ 0)
              × IsTimer m.hw (u64 (hpet_address m.firmware table + m.hhdm)) r.capabilities)
            (sym same) (r.hpet, r.timer) in
        followed IsStarted _ _ t pmm managed (λ t. followed IsStarted _ _ t acpi tables (λ t.
          followed IsStarted _ _ t _ refl (λ t. followed IsStarted _ _ t _ refl (λ t.
            followed IsStarted _ _ t pool allocated (λ t.
              let (net, carded) = init_net-returns acpi _ t at_madt in
              followed IsStarted _ _ t net carded (λ t.
                let timed =
                  hpet_init-returns m.hw m.firmware m.hhdm acpi m.hpet r.capabilities t timer in
                followed IsStarted _ _ t _ timed (λ t. followed IsStarted _ _ t vfs mounted (λ t.
                  followed IsStarted _ _ t others joined (λ t. (
                    _,
                    refl,
                    record {
                      cores = cores;
                      count = count;
                      timer =
                          ap
                            (λ (table : ℕ).
                              timer_at (u64 (hpet_address m.firmware table + m.hhdm))
                                r.capabilities)
                            same;
                      usable = free;
                    },
                  ))))))))))
