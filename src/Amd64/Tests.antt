-- ===== src/Amd64/Tests.antt =====
-- A gate for a handler in the higher half, two cores, and an I/O APIC with 24 entries.
use qnixx.Common.{◌⊎◌, ◌/◌, ◌^◌, ℕ, none, some, [], ◌∷◌, refl, ◌%◌, ◌≡◌, arith}
use qnixx.Amd64.Idt.{Idt, register_interrupt, init_exceptions}
use qnixx.Mm.Pmm.{find_highest_mem_chunk, get_bitmap_size, find_contigious_chunk, pmm_alloc}
use qnixx.Mm.Vmm.{Vm, vmm_make_pml4, vmm_alloc_pages}
use qnixx.Amd64.Cores.{Smp, CoreBlocks, start_ap, start_aps, smp_init, this_core}
use qnixx.Amd64.Cores.Find.{this_core-smp_init}
use qnixx.Sched.Queue.{head_first}
use qnixx.Sched.Types.{Core}
use qnixx.Amd64.Io.{Hardware}
use qnixx.Amd64.Apic.{read_mmio, ioapic_init}
use qnixx.Amd64.Apic.Redirection.{Masked, ioapic_init-Masked}
use qnixx.Amd64.Idt.Fields.{Fits, IsPresent, begin, interrupt, exceptions, Reached-IsSound}

abbrev empty : Idt
empty _ = record {
  isr_low16 = 0;
  cs = 0;
  ist = 0;
  zero_bits = 0;
  attr = 0;
  zero1 = 0;
  dpl = 0;
  p = 0;
  isr_mid16 = 0;
  isr_high32 = 0;
  reserved = 0;
}

empty-Fits : (v : ℕ) → Fits (empty v)
empty-Fits v = record {
  isr_low16 = omega arith;
  cs = omega arith;
  ist = omega arith;
  zero_bits = omega arith;
  attr = omega arith;
  zero1 = omega arith;
  dpl = omega arith;
  p = omega arith;
  isr_mid16 = omega arith;
  isr_high32 = omega arith;
  reserved = omega arith;
}

-- The exceptions, and then the timer.
abbrev registered : Idt
registered =
    register_interrupt (init_exceptions (λ h. 0xFFFFFFFF80001000) empty) 0x82 0xFFFFFFFF80123456

Reached-IsSound_example :
    Fits (registered 0x82) × ((registered 0x82 ≡ empty 0x82) ⊎ IsPresent (registered 0x82))
Reached-IsSound_example =
    Reached-IsSound empty registered empty-Fits
      (interrupt _ 0x82 0xFFFFFFFF80123456 (exceptions empty (λ h. 0xFFFFFFFF80001000) begin)) 0x82

abbrev core : Core
core = record {
  lapic_freq = 0;
  lock = 0;
  lapic_id = 0;
  flags = 1;
  gdt = 0;
  gdtr_limit = 0;
  gdtr_ptr = 0;
  tss = 0;
  processq = record { first = 0; last = head_first; next = λ _. 0; prev = λ _. head_first };
  running_process = 0;
}

-- Two cores, the second the one that boots.
abbrev smp : Smp
smp = record {
  cpus =
      record { lapic_id = 4; extra_argument = 0; goto_address = 0 }
      ∷ record { lapic_id = 0; extra_argument = 0; goto_address = 0 }
      ∷ [];
  bsp_lapic_id = 0;
}

abbrev vm : Vm
vm = record {
  memory = λ _. 0;
  pmm = record {
    entries = record { base = 0; length = 0x10000; type = 0 } ∷ [];
    address = some 0;
    bitmap = λ _. 0;
  };
  cr3 = 0x1000;
  old_pml4 = 0;
  flushed = [];
}

abbrev x86 : ℕ → ℕ → ℕ
x86 x n = x / 2 ^ (n % 32)

abbrev blocks : ℕ → CoreBlocks
blocks i = record { gdt = 0x1000; gdtr = 0x2000; tss = 0x3000; stack = 0x4000 }

abbrev booted : (ℕ → Core) × Smp × Vm
booted = elim (smp_init x86 0 0x5000 blocks smp (λ _. core) vm) [
  | none ↦ ((λ _. core), smp, vm)
  | some r ↦ r
]

boots : smp_init x86 0 0x5000 blocks smp (λ _. core) vm ≡ some booted
unfolding smp_init start_aps start_ap vmm_make_pml4 vmm_alloc_pages pmm_alloc find_contigious_chunk
    get_bitmap_size find_highest_mem_chunk
boots = refl

this_core-smp_init_example : this_core 1 0 4 booted.1 booted.0 ≡ some (some 0, 0)
this_core-smp_init_example =
    this_core-smp_init x86 0 0x5000 blocks smp booted.1 (λ _. core) booted.0 vm booted.2 0
      (record { lapic_id = 4; extra_argument = 0; goto_address = 0 }) 0
      ((omega arith, (omega arith, tt), (omega arith, tt, tt))) refl boots

-- An I/O APIC with 24 entries.
abbrev ioapic : Hardware
ioapic _ _ = 0x170011

ioapic_init-Masked_example : Masked 0xFEC00000 23 (ioapic_init ioapic 0xFEC00000 []).1
unfolding read_mmio
ioapic_init-Masked_example =
    ioapic_init-Masked 0xFEC00000 ioapic [] 23 (omega arith) (omega arith) (omega arith)
