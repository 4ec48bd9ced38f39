-- ===== src/Start.antt =====
-- sys/kern_init.c and sys/dev/init.c: the order in which the kernel's parts are started, and what
-- each takes from those before it.
pub mod Handlers
pub mod Returns
pub mod Ready
mod Sample
mod Tests
use qnixx.Common.{ℕ, ◌+◌, Option, none, some, List, []}
use qnixx.Common.Word.{u64}
use qnixx.Libkern.Memory.{Memory}
use qnixx.Libkern.Bitmap.{Bytes}
use qnixx.Amd64.Io.{Hardware, Trace, Io}
use qnixx.Amd64.Idt.{Idt, Handler, init_exceptions, register_irq}
use qnixx.Amd64.Apic.{ioapic_init, ioapic_set_entry}
use qnixx.Amd64.Apic.Lapic.{Vectors, lapic_init}
use qnixx.Amd64.Segments.{TssDesc, TssEntry, load_tss_bsp}
use qnixx.Amd64.Cores.{CoreBlocks, Smp, smp_get_core_count, smp_init}
use qnixx.Mm.Pmm.{Entry, Pmm, pmm_init}
use qnixx.Mm.Vmm.{Vm}
use qnixx.Mm.Heap.{Tlsf, Heap, heap_init}
use qnixx.Acpi.{Acpi, acpi_init, acpi_remap_irq}
use qnixx.Dev.Fb.{Framebuffer, fb_init}
use qnixx.Dev.Hpet.{Hpet, hpet_init}
use qnixx.Dev.Rtl8139.{Nic}
use qnixx.Dev.Rtl8139.Startup.{rtl8139_init}
use qnixx.Fs.{HashMap, Vfs, vfs_init}
use qnixx.Sched.Queue.{Tailq}
use qnixx.Sched.Types.{Core, Kernel, Thread, Process}
use qnixx.Sched.Process.{Fresh}
use qnixx.Sched.Process.Create.{Services}
use qnixx.Amd64.Apic.Lapic.{Clock}
use qnixx.Sched.Trap.{set_freq}
use qnixx.Sched.Start.{sched_start, sched_begin_timer}

-- A program that accesses devices and may fail or halt.
abbrev pub Boot : Type 0 → Type 0
Boot A = Io (Option A)

infixl 5 ◌>>=◌
unfoldable pub ◌>>=◌ : {A B : Type 0} → Boot A → (A → Boot B) → Boot B
(m >>= f) t = elim (m t).0 [ none ↦ (none, (m t).1) | some a ↦ f a (m t).1 ]

abbrev pub return : {A : Type 0} → A → Boot A
return a t = (some a, t)

abbrev pub check : {A : Type 0} → Option A → Boot A
check o t = (o, t)

abbrev pub access : {A : Type 0} → Io A → Boot A
access m t = (some (m t).0, (m t).1)

-- What the boot loader and the firmware say, what the allocator returns, the addresses of the
-- handlers and functions, what memory holds before, and the fuel.
pub record Machine : Type 1 where
  pub hw : Hardware
  pub undef : ℕ → ℕ → ℕ
  pub hhdm : ℕ
  pub fuel : ℕ
  pub framebuffers : List Framebuffer
  pub entries : List Entry
  pub firmware : Memory
  pub rsdp : ℕ
  pub smp : Smp
  pub apic : Memory
  pub hpet : Memory
  pub handlers : Handler → ℕ
  pub timer_isr : ℕ
  pub nic_isr : ℕ
  pub ap_entry : ℕ
  pub tlsf : Tlsf
  pub hash_map : HashMap
  pub kmalloc : Trace → ℕ → ℕ
  pub realloc : Bytes → ℕ → Option Bytes
  pub vmm_get_phys : ℕ → ℕ
  pub tss : ℕ
  pub tss_stack : ℕ
  pub root : ℕ
  pub blocks : ℕ → CoreBlocks
  pub bitmap : Bytes
  pub memory : ℕ → ℕ
  pub cr3 : ℕ
  pub idt : Idt
  pub acpi : Acpi
  pub nic : Nic
  pub vfs : Vfs hash_map.Map
  pub cores : ℕ → Core

-- The state of the parts after `init`.
pub record Started (m : Machine) : Type 0 where
  pub vectors : Vectors
  pub acpi : Acpi
  pub heap : Heap m.tlsf
  pub bsp_tss : TssDesc × TssEntry
  pub nic : Nic
  pub hpet : Hpet
  pub vfs : Vfs m.hash_map.Map
  pub cores : ℕ → Core
  pub smp : Smp
  pub vm : Vm

-- What the allocator returns for the scheduler's first process and thread, and the index that
-- `this_core` finds.
pub record FirstProcess : Type 0 where
  pub idle : ℕ
  pub test_func : ℕ
  pub fresh : Fresh
  pub links : Tailq
  pub thread : ℕ
  pub stack : ℕ
  pub threads : ℕ → Thread
  pub processes : ℕ → Process
  pub core : ℕ

module _ (m : Machine) where
  -- The base of the registers of the I/O APIC, and of the local one.
  abbrev pub ioapic_base : Acpi → ℕ
  ioapic_base acpi = u64 (acpi.g_ioapic_mmio_base + m.hhdm)

  abbrev pub lapic_base : Acpi → ℕ
  lapic_base acpi = u64 (acpi.g_lapic_mmio_base + m.hhdm)

  -- The variables of lapic.c and interrupts.c at the start, with a table.
  abbrev pub no_vectors : Idt → Vectors
  no_vectors idt = record { timer_vector = 0; goto_vector = 0; next_vector = 0x81; idt = idt }

  -- `vmm.c` has no start of its own: its memory is what the physical manager left.
  abbrev pub first_vm : Pmm → Vm
  first_vm pmm = record { memory = m.memory; pmm = pmm; cr3 = m.cr3; old_pml4 = 0; flushed = [] }

  -- `register_irq` with the handler of the network card.
  abbrev pub register_nic : Acpi → ℕ → Idt → Boot Idt
  register_nic acpi irq =
      register_irq (acpi_remap_irq m.firmware m.hhdm m.fuel acpi)
        (ioapic_set_entry (ioapic_base acpi)) irq m.nic_isr

  -- `init_net`
  abbrev pub init_net : Acpi → Idt → Boot (Nic × Idt)
  init_net acpi idt =
      rtl8139_init m.hw m.kmalloc m.vmm_get_phys (register_nic acpi) m.fuel m.nic idt

  -- The instructions that load the tables and enable SSE are left out.
  unfoldable pub init : Boot (Started m)
  init = do
    pmm ← check (pmm_init m.hhdm m.entries m.bitmap)
    acpi ← check (acpi_init m.firmware m.hhdm m.fuel m.rsdp m.apic m.acpi)
    masked ← access (ioapic_init m.hw (ioapic_base acpi))
    vectors ←
        access
          (lapic_init (lapic_base acpi) m.timer_isr (no_vectors (init_exceptions m.handlers m.idt)))
    pool ← check (heap_init m.tlsf m.undef m.hhdm (first_vm pmm))
    net ← init_net acpi vectors.idt
    hpet ← hpet_init m.hw m.firmware m.hhdm acpi m.hpet
    vfs ← check (vfs_init m.hash_map m.root m.vfs)
    others ← check (smp_init m.undef m.hhdm m.ap_entry m.blocks m.smp m.cores pool.1)
    return (record {
      vectors = record vectors { idt = net.1 };
      acpi = acpi;
      heap = pool.0;
      bsp_tss = load_tss_bsp m.tss m.tss_stack;
      nic = net.0;
      hpet = hpet;
      vfs = vfs;
      cores = others.0;
      smp = others.1;
      vm = others.2;
    })

  abbrev pub services : Services
  services = record { undef = m.undef; realloc = m.realloc; hhdm = m.hhdm; fuel = m.fuel }

  -- The timer that the scheduler sleeps by, with its lock free.
  abbrev pub clock_of : (sleep_fuel : ℕ) → Started m → Clock
  clock_of sleep_fuel s = record { hpet = s.hpet; lock = 0; fuel = sleep_fuel }

  -- The kernel's state when the scheduler is started. `pid_bitmap` is NULL.
  abbrev pub first_kernel : FirstProcess → Started m → Kernel
  first_kernel first s = record {
    threads = first.threads;
    processes = first.processes;
    cores = s.cores;
    current_core_idx = 0;
    core_count = smp_get_core_count s.smp;
    pids = record { bitmap = none; bytes = 1 };
    vm = s.vm;
  }

  -- `_start`, up to the loop that waits for interrupts. `sleep_fuel` is the rounds of the sleep.
  unfoldable pub start_kernel :
      (sleep_fuel : ℕ) → FirstProcess → Boot (Framebuffer × Started m × Kernel)
  start_kernel sleep_fuel first = do
    fb ← check (fb_init m.framebuffers)
    started ← init
    kernel ← check (
        sched_start services first.idle first.test_func first.fresh first.links first.thread
          first.stack (first_kernel first started))
    freq ←
        sched_begin_timer m.hw (clock_of sleep_fuel started) (lapic_base started.acpi)
          started.vectors.timer_vector
    return (fb, started, set_freq first.core freq kernel)
