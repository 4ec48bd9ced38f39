-- ===== src/Amd64/Cores.antt =====
-- sys/amd64/smp.c and sys/amd64/cpu.c: the descriptors of the cores.
pub mod Find
pub mod Flags
pub mod Returns
use qnixx.Common.{
  ℕ, zero, suc, ◌+◌, ◌-◌, ◌^◌, Bool, true, false, Option, none, some, List, [], ◌∷◌, length, ◌==◌,
  if◌then◌else◌, update, get_elem?, bit_and, bit_or,
}
use qnixx.Common.Word.{u8, u16, u64}
use qnixx.Sched.Queue.{init}
use qnixx.Sched.Types.{Core}
use qnixx.Sync.Mutex.{mutex_acquire, mutex_release}
use qnixx.Mm.Vmm.{Vm, vmm_make_pml4}
use qnixx.Amd64.Io.{Hardware, Io, pure, ◌>>=◌, ◌>>◌}
use qnixx.Amd64.Idt.{register_interrupt}
use qnixx.Amd64.Apic.Lapic.{
  Clock, Vectors, lapic_init, lapic_timer_calibrate, lapic_get_goto_vector, lapic_send_ipi,
}
use qnixx.Amd64.Segments.{GdtDesc, TssDesc, TssEntry, g_gdt, gdt_size, empty_tss_desc, write_tss}

-- What the boot loader says of a core, `struct limine_smp_info`.
pub record SmpInfo : Type 0 where
  pub lapic_id : ℕ
  pub extra_argument : ℕ
  pub goto_address : ℕ

-- What the calls of `kmalloc` for one core return: the tables, the task state and its stack.
pub record CoreBlocks : Type 0 where
  pub gdt : ℕ
  pub gdtr : ℕ
  pub tss : ℕ
  pub stack : ℕ

-- The tables of a core: its copy of the descriptors, and the descriptor and the task state that
-- `write_tss` fills in.
pub record CoreTables : Type 0 where
  pub gdt : List GdtDesc
  pub tss_desc : TssDesc
  pub tss : TssEntry

-- The descriptor found in the allocated memory, filled in. `lapic_id` is passed as a byte.
unfoldable pub init_core_desc : Core → (lapic_id : ℕ) → CoreBlocks → Core × CoreTables
init_core_desc desc lapic_id blocks =
    let (tss_desc, tss) = write_tss empty_tss_desc blocks.tss blocks.stack in
    (
      record desc {
        lapic_id = u8 lapic_id;
        gdt = blocks.gdt;
        gdtr_limit = gdt_size - 1;
        gdtr_ptr = blocks.gdt;
        lock = 0;
        flags = 0;
        running_process = 0;
        processq = init desc.processq;
        tss = blocks.tss;
      },
      record { gdt = g_gdt; tss_desc = tss_desc; tss = tss },
    )

-- The loop over the cores from index `i` on.
unfoldable pub init_cores : (ℕ → CoreBlocks) → ℕ → List SmpInfo → (ℕ → Core) → ℕ → Core
init_cores blocks i [] cores = cores
init_cores blocks i (info ∷ infos) cores =
    init_cores blocks (i + 1) infos
      (update cores i (init_core_desc (cores i) info.lapic_id (blocks i)).0)

-- One round of the loop that starts every core but the one that runs, with a PML4 for each.
unfoldable pub start_ap :
    (ℕ → ℕ → ℕ) → (hhdm bsp ap_entry : ℕ) → SmpInfo → Vm → Option (SmpInfo × Vm)
start_ap undef hhdm bsp ap_entry info vm =
    if info.lapic_id == bsp then some (info, vm) else elim (vmm_make_pml4 undef hhdm vm) [
      | none ↦ none
      | some (pml4, vm') ↦
          some (record info { extra_argument = pml4; goto_address = ap_entry }, vm')
    ]

unfoldable pub start_aps :
    (ℕ → ℕ → ℕ) → (hhdm bsp ap_entry : ℕ) → List SmpInfo → Vm → Option (List SmpInfo × Vm)
start_aps undef hhdm bsp ap_entry [] vm = some ([], vm)
start_aps undef hhdm bsp ap_entry (info ∷ infos) vm =
    elim (start_ap undef hhdm bsp ap_entry info vm) [
      | none ↦ none
      | some (started, vm') ↦ elim (start_aps undef hhdm bsp ap_entry infos vm') [
        | none ↦ none
        | some (rest, vm'') ↦ some (started ∷ rest, vm'')
      ]
    ]

-- `smp_resp`
pub record Smp : Type 0 where
  pub cpus : List SmpInfo
  pub bsp_lapic_id : ℕ

unfoldable pub smp_init :
    (ℕ → ℕ → ℕ)
    → (hhdm ap_entry : ℕ) → (ℕ → CoreBlocks)
    → Smp
    → (ℕ → Core)
    → Vm
    → Option ((ℕ → Core) × Smp × Vm)
smp_init undef hhdm ap_entry blocks smp cores vm =
    elim (start_aps undef hhdm smp.bsp_lapic_id ap_entry smp.cpus vm) [
      | none ↦ none
      | some (cpus, vm') ↦
          some (init_cores blocks 0 smp.cpus cores, record smp { cpus = cpus }, vm')
    ]

abbrev pub smp_get_core_count : Smp → ℕ
smp_get_core_count smp = length smp.cpus

-- The cores from index `i` on, `left` of them: the first whose ID is the one that is read.
unfoldable pub find_core : (id left i : ℕ) → (ℕ → Core) → Option ℕ
find_core id zero i cores = none
find_core id (suc left) i cores =
    let rest = find_core id left (i + 1) cores in if (cores i).lapic_id == id then some i else rest

-- The index of the core (`none` is NULL), and the lock. The outer `none` is a lock that is held.
unfoldable pub this_core : (fuel lock id : ℕ) → Smp → (ℕ → Core) → Option (Option ℕ × ℕ)
this_core fuel lock id smp cores = elim (mutex_acquire fuel lock) [
  | none ↦ none
  | some lock' ↦ some (find_core id (smp_get_core_count smp) 0 cores, mutex_release lock')
]

-- `core->flags |= flags` and `core->flags &= ~flags`, under the lock of the core.
unfoldable pub core_set_flags : (fuel flags : ℕ) → Core → Option Core
core_set_flags fuel flags core = elim (mutex_acquire fuel core.lock) [
  | none ↦ none
  | some lock' ↦
      some (record core { flags = u16 (bit_or core.flags flags); lock = mutex_release lock' })
]

unfoldable pub core_clear_flags : (fuel flags : ℕ) → Core → Option Core
core_clear_flags fuel flags core = elim (mutex_acquire fuel core.lock) [
  | none ↦ none
  | some lock' ↦
      some (record core { flags = bit_and core.flags (0xFFFF - flags); lock = mutex_release lock' })
]

abbrev pub p_exec_critical : ℕ
p_exec_critical = 1

abbrev pub p_irq : ℕ
p_irq = 2

abbrev pub irq_enter : ℕ → Core → Option Core
irq_enter fuel core = core_set_flags fuel p_irq core

abbrev pub irq_exit : ℕ → Core → Option Core
irq_exit fuel core = core_clear_flags fuel p_irq core

abbrev pub critical_enter : ℕ → Core → Option Core
critical_enter fuel core = core_set_flags fuel p_exec_critical core

abbrev pub critical_exit : ℕ → Core → Option Core
critical_exit fuel core = core_clear_flags fuel p_exec_critical core

-- `__amd64_for_each_core`, with the lock of its vector: the routine is registered, and the interrupt
-- that would run it is left to `lapic_send_ipi`.
unfoldable pub for_each_core :
    (fuel goto_vec_lock kroutine : ℕ) → Vectors → Io (Option (Vectors × ℕ))
for_each_core fuel goto_vec_lock kroutine v = elim (mutex_acquire fuel goto_vec_lock) [
  | none ↦ pure none
  | some held ↦ do
    let goto_vector = lapic_get_goto_vector v
    lapic_send_ipi 0 goto_vector 0x2
    pure (
        some (record v { idt = register_interrupt v.idt goto_vector kroutine }, mutex_release held))
]

-- What a core loads when it is started.
pub record Registers : Type 0 where
  pub cr3 : ℕ
  pub gdtr_limit : ℕ
  pub gdtr_ptr : ℕ

-- The frequency, if it could be measured, is kept in the descriptor, and the lock is released.
abbrev pub ap_done :
    (loaded : Registers) (core : ℕ) (cores : ℕ → Core) (v : Vectors) (held : ℕ)
    → (measured : Option ℕ) → Option (Registers × (ℕ → Core) × Vectors × ℕ)
ap_done loaded core cores v held none = none
ap_done loaded core cores v held (some freq) =
    let own = cores core in
    some (loaded, update cores core (record own { lapic_freq = freq }), v, mutex_release held)

-- The start of another core, up to the loop that halts it: `core` is the index that `this_core`
-- finds, whose frequency is set. Loading the interrupt table and the task state is one instruction
-- each. `none`: the lock is held, or the calibration of the timer does not end.
unfoldable pub ap_entry :
    Hardware
    → Clock
    → (hhdm base timer_isr fuel ap_lock core_idx core : ℕ) → SmpInfo
    → (ℕ → Core)
    → Vectors
    → Io (Option (Registers × (ℕ → Core) × Vectors × ℕ))
ap_entry hw clock hhdm base timer_isr fuel ap_lock core_idx core info cores v =
    elim (mutex_acquire fuel ap_lock) [
      | none ↦ pure none
      | some held ↦ do
        v' ← lapic_init base timer_isr v
        measured ← lapic_timer_calibrate hw clock base
        let tables = cores core_idx
        let loaded : Registers = record {
          cr3 = u64 (info.extra_argument + 2 ^ 64 - hhdm);
          gdtr_limit = tables.gdtr_limit;
          gdtr_ptr = tables.gdtr_ptr;
        }
        pure (ap_done loaded core cores v' held measured)
    ]
