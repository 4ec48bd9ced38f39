-- ===== src/Start/Sample.antt =====
-- A machine with one core, a MADT with an I/O APIC, a HPET, a network card, and 512 KiB of memory.
use qnixx.Common.{ℕ, ◌+◌, ◌^◌, some, List, [], ◌∷◌, ◌==◌, if◌then◌else◌}
use qnixx.Libkern.Memory.{Memory}
use qnixx.Amd64.Io.{Hardware, Trace, out, inp, load}
use qnixx.Amd64.Idt.{Gate}
use qnixx.Mm.Heap.{Tlsf}
use qnixx.Dev.Hpet.Counter.{counter}
use qnixx.Fs.{HashMap, vnon, vstate_uninit}
use qnixx.Sched.Queue.{Tailq, head_first}
use qnixx.Start.{Machine, FirstProcess}
use qnixx.Dev.Fb.{Framebuffer}
use qnixx.Sched.Types.{zero_frame}

-- The byte that is listed for an address, or 0.
abbrev byte_of : List (ℕ × ℕ) → ℕ → ℕ
byte_of [] a = 0
byte_of ((at, byte) ∷ rest) a = if a == at then byte else byte_of rest a

-- The configuration of the network card, at bus 0 and slot 3: its IDs, its ports and its line.
abbrev pub space : ℕ → ℕ
space = byte_of ((0x80001800, 0x813910EC) ∷ (0x80001810, 0xC001) ∷ (0x8000183C, 11) ∷ [])

abbrev selected : Trace → ℕ
selected (out _ _ a ∷ t) = space a
selected _ = 0

-- Every device register in memory reads as the same value, and every port but that of the bus as 0.
abbrev pub constant : Hardware
constant _ (load _ _) = 2 ^ 36 + 0x200
constant t (inp _ p) = if p == 0xCFC then selected t else 0
constant _ _ = 0

-- The counter of the timer, whose base is 0, goes on.
abbrev pub hw : Hardware
hw = counter 0 constant

-- The root table at 0x100 lists the MADT at 0x200 and the HPET at 0x300, each with its signature,
-- its length and its checksum; the record of the I/O APIC is at 0x22C.
abbrev firmware : Memory
firmware = byte_of (
    (17, 1)
    ∷ (0x104, 44)
    ∷ (0x125, 2)
    ∷ (0x129, 3)
    ∷ (0x200, 65)
    ∷ (0x201, 80)
    ∷ (0x202, 73)
    ∷ (0x203, 67)
    ∷ (0x204, 56)
    ∷ (0x209, 158)
    ∷ (0x22C, 1)
    ∷ (0x22D, 12)
    ∷ (0x300, 72)
    ∷ (0x301, 80)
    ∷ (0x302, 69)
    ∷ (0x303, 84)
    ∷ (0x304, 56)
    ∷ (0x309, 151)
    ∷ [])

abbrev bump : Tlsf
bump = record {
  Ctx = ℕ;
  create_with_pool = λ mem bytes. mem;
  malloc = λ next size. (next, next + size);
  realloc = λ next ptr size. (next, next + size);
  free = λ next ptr. next;
}

abbrev empty_map : HashMap
empty_map = record {
  Map = Unit {0};
  create = λ size. some tt;
  put = λ m key value. (0, m);
  get = λ m key. 0;
}

abbrev no_gate : Gate
no_gate = record {
  isr_low16 = 0;
  cs = 0;
  ist = 0;
  zero_bits = 0;
  attr = 0;
  zero1 = 0;
  dpl = 0;
  p = 0;
  isr_mid16 = 0;
  isr_high32 = 0;
  reserved = 0;
}

abbrev pub screen : Framebuffer
screen = record { address = 0xFD000000; width = 640; height = 480; pitch = 2560 }

abbrev pub machine : Machine
machine = record {
  hw = hw;
  undef = λ x n. 0;
  hhdm = 0;
  fuel = 8;
  framebuffers = screen ∷ [];
  entries = record { base = 0; length = 0x80000; type = 0 } ∷ [];
  firmware = firmware;
  rsdp = 0;
  smp = record {
    cpus = record { lapic_id = 0; extra_argument = 0; goto_address = 0 } ∷ [];
    bsp_lapic_id = 0;
  };
  apic = λ k. firmware (0x200 + k);
  hpet = λ k. firmware (0x300 + k);
  handlers = λ h. 0xFFFFFFFF80001000;
  timer_isr = 0xFFFFFFFF80002000;
  nic_isr = 0xFFFFFFFF80003000;
  ap_entry = 0xFFFFFFFF80004000;
  tlsf = bump;
  hash_map = empty_map;
  kmalloc = λ t size. 0x9000;
  realloc = λ bytes size. some bytes;
  vmm_get_phys = λ virt. virt;
  tss = 0xA000;
  tss_stack = 0xB000;
  root = 0xC000;
  blocks = λ i. record { gdt = 0; gdtr = 0; tss = 0; stack = 0 };
  bitmap = λ i. 0;
  memory = λ a. 0;
  cr3 = 0x1000;
  idt = λ v. no_gate;
  acpi = record {
    rsdt = 0;
    madt = 0;
    rsdt_entry_count = 0;
    g_ioapic_mmio_base = 0;
    g_lapic_mmio_base = 0;
  };
  nic = record {
    iobase = 0;
    rxbuf = 0;
    txbufs = λ i. 0;
    outside = 0;
    next_txbuf = 0;
    rxbuf_offset = 0;
    packet_buf = 0;
    mac_addr = λ i. 0;
    memory = λ a. 0;
  };
  vfs = record {
    fs_root = 0;
    vnodes = λ a. record {
      v_name = λ i. 0;
      v_type = vnon;
      v_state = vstate_uninit;
      v_flags = 0;
      children = tt;
      n_children = 0;
    };
  };
  cores = λ i. record {
    lapic_freq = 0;
    lock = 0;
    lapic_id = 0;
    flags = 0;
    gdt = 0;
    gdtr_limit = 0;
    gdtr_ptr = 0;
    tss = 0;
    processq = record { first = 0; last = head_first; next = λ _. 0; prev = λ _. head_first };
    running_process = 0;
  };
}

abbrev no_links : Tailq
no_links = record { first = 0; last = head_first; next = λ _. 0; prev = λ _. head_first }

abbrev pub first_process : FirstProcess
first_process = record {
  idle = 0xFFFFFFFF80005000;
  test_func = 0xFFFFFFFF80006000;
  fresh = record { process = 0x5000; thread = 0x6000; stack = 0x7000; pid_bits = λ i. 0 };
  links = no_links;
  thread = 0xA000;
  stack = 0xB000;
  threads = λ t. record { tf = zero_frame; stack_base = 0; flags = 0; parent = 0 };
  processes = λ p. record {
    name = [];
    pid = 0;
    uid = 0;
    euid = 0;
    gid = 0;
    threadq = no_links;
    running_thread = 0;
    thread_count = 0;
    vaddrsp = 0;
  };
  core = 0;
}
