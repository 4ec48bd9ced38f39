-- ===== src/Sched/Tests.antt =====
-- The queue and the scheduler on two processes, the first with two threads.
use qnixx.Common.{
  ℕ, ◌+◌, ◌/◌, ◌%◌, ◌^◌, ◌≤◌, ◌<◌, ◌≡◌, refl, true, Option, none, some, List, [], ◌∷◌, ◌++◌, arith,
  if◌then◌else◌, ◌==◌, ◌||◌, Bool-cases, inl, inr,
}
use qnixx.Common.Bits.{all_below, all_below_sound}
use qnixx.Libkern.Bitmap.{Bytes, set_bit}
use qnixx.Libkern.Bitmap.Marked.{bit_of}
use qnixx.Sched.Queue.{Tailq, head_first, next_of, init, insert_tail}
use qnixx.Sched.Queue.Chain.{IsQueue}
use qnixx.Sched.Queue.Insert.{init-IsQueue, insert_tail-append}
use qnixx.Sched.Queue.Cycle.{go_round, go_round-length}
use qnixx.Sched.Types.{Trapframe, zero_frame, Thread, Process, Pids, Kernel}
use qnixx.Sched.Process.Create.{Services, Supplies, Taken, create_process, create_process-Owns}
use qnixx.Amd64.Apic.Lapic.{Clock, start_countdown}
use qnixx.Amd64.Apic.Calibrate.{Sleeps}
use qnixx.Dev.Hpet.Counter.{counter, counter-Ticks}
use qnixx.Sched.Process.{Fresh, Owns, process_create_thread, process_create_thread-rsp, stack_size}
use qnixx.Sched.Pid.{alloc_pid, alloc_pid-least, alloc_pid_twice}
use qnixx.Amd64.Io.{Hardware, Trace}
use qnixx.Sched.Start.{sched_start, sched_start-Ready}
use qnixx.Sched.Trap.{set_freq, end_of_interrupt, trap, trap-Switched}
use qnixx.Sched.Switch.RoundRobin.{
  Schedule, schedule_of, schedule_of-Represents, Represents, interrupts, yields, yields-interrupts,
}
use qnixx.Sched.Switch.{Ready, sched_yield, Switched, sched_yield-Switched}

abbrev one : Tailq
one = record { first = 10; last = next_of 10; next = λ _. 0; prev = λ _. head_first }

one-IsQueue : IsQueue one (10 ∷ [])
one-IsQueue = record { chain = (refl, omega arith, refl, refl); ends = refl; back = (refl, tt) }

abbrev two : Tailq
two = record {
  first = 10;
  last = next_of 20;
  next = λ a. if a == 10 then 20 else 0;
  prev = λ a. if a == 20 then next_of 10 else head_first;
}

two-IsQueue : IsQueue two (10 ∷ 20 ∷ [])
two-IsQueue = record {
  chain = (refl, omega arith, refl, (refl, omega arith, refl, refl));
  ends = refl;
  back = (refl, (refl, tt));
}

insert_tail-append_example : IsQueue (insert_tail one 20) ((10 ∷ []) ++ (20 ∷ []))
insert_tail-append_example = insert_tail-append one 20 (10 ∷ []) (omega arith) refl one-IsQueue

go_round-length_example : go_round 2 two 10 ≡ 10
go_round-length_example = go_round-length two (10 ∷ 20 ∷ []) 0 10 two-IsQueue refl

abbrev idle_process : Process
idle_process = record {
  name = [];
  pid = 1;
  uid = 0;
  euid = 0;
  gid = 0;
  threadq = one;
  running_thread = 10;
  thread_count = 1;
  vaddrsp = 0;
}

-- Process 10 has threads 10 and 20, process 20 has thread 10 of its own numbering.
abbrev kernel : ℕ → Kernel
kernel flags = record {
  threads = λ t. record { tf = zero_frame; stack_base = 0x1000; flags = flags; parent = 10 };
  processes = λ p.
      if p == 10 then record idle_process { threadq = two; thread_count = 2 } else idle_process;
  cores = λ _. record {
    lapic_freq = 0;
    lock = 0;
    lapic_id = 0;
    flags = 0;
    gdt = 0;
    gdtr_limit = 0;
    gdtr_ptr = 0;
    tss = 0;
    processq = two;
    running_process = 10;
  };
  current_core_idx = 0;
  core_count = 1;
  pids = record { bitmap = none; bytes = 1 };
  vm = record {
    memory = λ a. 0;
    pmm = record {
      entries = record { base = 0; length = 0x8000000; type = 0 } ∷ [];
      address = some 0;
      bitmap = λ _. 0;
    };
    cr3 = 0x10000;
    old_pml4 = 0;
    flushed = [];
  };
}

abbrev threads_of : ℕ → List ℕ
threads_of p = if p == 10 then 10 ∷ 20 ∷ [] else 10 ∷ []

kernel_threads : (p : ℕ) → IsQueue ((kernel 0).processes p).threadq (threads_of p)
kernel_threads p = elim (Bool-cases (p == 10)) [
  | inl main ↦ rw main two-IsQueue
  | inr other ↦ rw other one-IsQueue
]

kernel-Ready : Ready 0 (10 ∷ 20 ∷ []) threads_of (kernel 0)
kernel-Ready = record {
  queue = two-IsQueue;
  place = 0;
  running = refl;
  threads = λ p _. kernel_threads p;
  seat = λ _. 0;
  sits = λ p _. ground arith;
}

abbrev frame : Trapframe
frame = record zero_frame { rip = 0x4000 }

sched_yield-Switched_example :
    (out : Trapframe) × (k' : Kernel) × (sched_yield 0 frame (kernel 0) ≡ some (out, k'))
    × Switched 0 frame (10 ∷ 20 ∷ []) threads_of (kernel 0) kernel-Ready out k'
sched_yield-Switched_example =
    sched_yield-Switched 0 frame (10 ∷ 20 ∷ []) threads_of (kernel 0) kernel-Ready refl

abbrev x86 : ℕ → ℕ → ℕ
x86 x n = x / 2 ^ (n % 32)

abbrev realloc : Bytes → ℕ → Option Bytes
realloc b n = some b

abbrev services : Services
services = record { undef = x86; realloc = realloc; hhdm = 0xFFFF800000000000; fuel = 8 }

abbrev fresh : Fresh
fresh = record { process = 0x5000; thread = 0x6000; stack = 0x7000; pid_bits = λ i. 0 }

fresh-Supplies : (main : ℕ) → Supplies services fresh (kernel main)
fresh-Supplies main = record {
  process = omega arith;
  thread = omega arith;
  stack = omega arith;
  usable = refl;
  bits = λ i. omega arith;
  bytes = omega arith;
  enough = omega arith;
}

create_process-Owns_example :
    (k' : Kernel) × (create_process services (105 ∷ []) 7 8 0x9000 fresh one (kernel 0)
      ≡ some (0x5000, k'))
    × Owns (k'.processes 0x5000) (0x6000 ∷ [])
    × ((k'.processes 0x5000).running_thread ≡ 0x6000)
    × ((k'.threads 0x6000).parent ≡ 0x5000)
    × ((k'.threads 0x6000).tf.rip ≡ 0x9000)
    × Taken services
        (λ i. 0)
        (kernel 0)
        (k'.processes 0x5000).pid
        (k'.processes 0x5000).vaddrsp
        k'.pids
        k'.vm
create_process-Owns_example =
    create_process-Owns services (105 ∷ []) 7 8 0x9000 fresh one (kernel 0) (omega arith)
      (fresh-Supplies 0)

process_10-Owns : Owns ((kernel 0).processes 10) (10 ∷ 20 ∷ [])
process_10-Owns = record { queue = two-IsQueue; count = refl; running = refl }

process_create_thread-rsp_example :
    (t : Thread) × (process_create_thread 0x6000 0x7000 10 0x9000 ≡ some t)
    × (0x7000 + stack_size < t.tf.rsp)
process_create_thread-rsp_example =
    process_create_thread-rsp 0x6000 0x7000 10 0x9000 (omega arith) (omega arith)

-- A core without a process.
abbrev off_kernel : Kernel
off_kernel =
    let c = (kernel 0).cores 0 in
    record (kernel 0) { cores = λ _. record c { processq = init one; running_process = 0 } }

off_kernel-Supplies : Supplies services fresh off_kernel
off_kernel-Supplies = record {
  process = omega arith;
  thread = omega arith;
  stack = omega arith;
  usable = refl;
  bits = λ i. omega arith;
  bytes = omega arith;
  enough = omega arith;
}

sched_start-Ready_example :
    (k' : Kernel) × (sched_start services 0x9000 0x9100 fresh one 0xA000 0xB000 off_kernel
      ≡ some k')
    × Ready 0 (0x5000 ∷ []) (λ _. 0x6000 ∷ 0xA000 ∷ []) k'
sched_start-Ready_example =
    sched_start-Ready services 0x9000 0x9100 fresh one 0xA000 0xB000 off_kernel off_kernel-Supplies
      (omega arith) (omega arith) (omega arith) (omega arith) (init-IsQueue one) refl

-- A timer interrupt.
abbrev timer_frame : Trapframe
timer_frame = record frame { trapno = 0x82 }

-- A timer with a period of a tenth of a millisecond; all other registers read as 0.
abbrev clock : Clock
clock = record {
  hpet = record { hpet_base = 0x1000; hpet_period = 100000000000 };
  lock = 0;
  fuel = 101;
}

abbrev ticking : Hardware
ticking = counter 0x1000 (λ _ _. 0)

ticking-Sleeps : Sleeps ticking 0xFEE00000 clock []
unfolding start_countdown
ticking-Sleeps = record {
  free = refl;
  period = omega arith;
  enough = refl;
  ticks = counter-Ticks (λ _ _. 0) 0x1000 101 _ refl (omega arith);
}

trap-Switched_example :
    (out : Trapframe) × (k' : Kernel) × (freq : ℕ) × (t' : Trace) × (trap ticking clock 0xFEE00000
        0x82 0 1 0 timer_frame
        (kernel 0)
        []
      ≡ (some (out, set_freq 0 freq k', 0), end_of_interrupt ticking clock 0xFEE00000 0x82 0 t'))
    × Switched 0 timer_frame (10 ∷ 20 ∷ []) threads_of (kernel 0) kernel-Ready out k'
trap-Switched_example =
    trap-Switched ticking clock 0xFEE00000 0x82 0 0 timer_frame (10 ∷ 20 ∷ []) threads_of (kernel 0)
      [] kernel-Ready refl refl ticking-Sleeps

-- PIDs 1 and 2 are in use, and then all up to 7.
abbrev some_used : Bytes
some_used _ = 6

abbrev all_used : Bytes
all_used _ = 0xFE

used_table : all_below 3 (λ j. (j == 0) || (bit_of some_used j == 1)) ≡ true
unfolding all_below
used_table = refl

full_table : all_below 8 (λ j. (j == 0) || (bit_of all_used j == 1)) ≡ true
unfolding all_below
full_table = refl

some_used_low : (j : ℕ) → 1 ≤ j → j < 3 → bit_of some_used j ≡ 1
some_used_low j from to =
    ground (arith, all_below_sound 3 (λ j. (j == 0) || (bit_of some_used j == 1)) j used_table to)

all_used_low : (j : ℕ) → 1 ≤ j → j < 8 → bit_of all_used j ≡ 1
all_used_low j from to =
    ground (arith, all_below_sound 8 (λ j. (j == 0) || (bit_of all_used j == 1)) j full_table to)

alloc_pid-least_example :
    alloc_pid x86 realloc 9 some_used (record { bitmap = some some_used; bytes = 1 })
    ≡ some (3, record { bitmap = some (set_bit some_used 3); bytes = 1 })
alloc_pid-least_example =
    alloc_pid-least x86 realloc some_used (λ i. omega arith) 1 (omega arith) 9 3 some_used
      (omega arith) (omega arith) (omega arith) some_used_low refl

alloc_pid_twice_example :
    (s t : Pids) × (alloc_pid x86 realloc 9 all_used (record { bitmap = some all_used; bytes = 1 })
      ≡ some (8, s))
    × (alloc_pid x86 realloc 9 all_used s ≡ some (8, t))
alloc_pid_twice_example =
    alloc_pid_twice x86 realloc all_used all_used 1 9 (λ i. omega arith) (omega arith) (omega arith)
      all_used_low

-- Two interrupts: the second one loads the frame that the first one kept.
abbrev schedule : Schedule
schedule = schedule_of (10 ∷ 20 ∷ []) threads_of 0 (kernel 0) kernel-Ready

yields-interrupts_example :
    (k' : Kernel) × (yields 0 (frame ∷ timer_frame ∷ []) (kernel 0)
      ≡ some ((interrupts (10 ∷ 20 ∷ []) threads_of (frame ∷ timer_frame ∷ []) schedule).0, k'))
    × Represents
        (10 ∷ 20 ∷ [])
        threads_of
        0
        k'
        (interrupts (10 ∷ 20 ∷ []) threads_of (frame ∷ timer_frame ∷ []) schedule).1
yields-interrupts_example =
    yields-interrupts (10 ∷ 20 ∷ []) threads_of 0 (frame ∷ timer_frame ∷ []) (kernel 0) schedule
      (schedule_of-Represents (10 ∷ 20 ∷ []) threads_of 0 (kernel 0) kernel-Ready)
