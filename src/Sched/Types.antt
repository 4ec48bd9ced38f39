-- ===== src/Sched/Types.antt =====
-- sys/include/sched/process.h, sys/include/sched/sched.h and the trap frame of
-- sys/include/amd64/asm.h: what the scheduler keeps.
use qnixx.Common.{ℕ, Option, List}
use qnixx.Libkern.Bitmap.{Bytes}
use qnixx.Sched.Queue.{Tailq}
use qnixx.Mm.Vmm.{Vm}

-- `trapframe_t`, each register as its bit pattern.
pub record Trapframe : Type 0 where
  pub rdi : ℕ
  pub rsi : ℕ
  pub rbx : ℕ
  pub rdx : ℕ
  pub rcx : ℕ
  pub rax : ℕ
  pub r8 : ℕ
  pub r9 : ℕ
  pub r10 : ℕ
  pub r11 : ℕ
  pub r12 : ℕ
  pub r13 : ℕ
  pub r14 : ℕ
  pub r15 : ℕ
  pub fs : ℕ
  pub gs : ℕ
  pub trapno : ℕ
  pub rip : ℕ
  pub cs : ℕ
  pub rflags : ℕ
  pub rsp : ℕ
  pub ss : ℕ

-- `memzero(tf, sizeof(trapframe_t))`
abbrev pub zero_frame : Trapframe
zero_frame = record {
  rdi = 0;
  rsi = 0;
  rbx = 0;
  rdx = 0;
  rcx = 0;
  rax = 0;
  r8 = 0;
  r9 = 0;
  r10 = 0;
  r11 = 0;
  r12 = 0;
  r13 = 0;
  r14 = 0;
  r15 = 0;
  fs = 0;
  gs = 0;
  trapno = 0;
  rip = 0;
  cs = 0;
  rflags = 0;
  rsp = 0;
  ss = 0;
}

abbrev pub thread_startup : ℕ
thread_startup = 1

-- `thread_t`. Its queue entry is kept in the queue of its process.
pub record Thread : Type 0 where
  pub tf : Trapframe
  pub stack_base : ℕ
  pub flags : ℕ
  pub parent : ℕ

-- `process_t`. `name` holds the bytes that have been copied into the array. A thread stands in one
-- queue at most, so each queue has its own links.
pub record Process : Type 0 where
  pub name : List ℕ
  pub pid : ℕ
  pub uid : ℕ
  pub euid : ℕ
  pub gid : ℕ
  pub threadq : Tailq
  pub running_thread : ℕ
  pub thread_count : ℕ
  pub vaddrsp : ℕ

-- `cpu_core_t`, with the addresses that its pointers hold.
pub record Core : Type 0 where
  pub lapic_freq : ℕ
  pub lapic_id : ℕ
  pub flags : ℕ
  pub lock : ℕ
  pub gdt : ℕ
  pub gdtr_limit : ℕ
  pub gdtr_ptr : ℕ
  pub tss : ℕ
  pub processq : Tailq
  pub running_process : ℕ

-- `pid_bitmap` (`none` while it is NULL) and `pid_bitmap_bytes`.
pub record Pids : Type 0 where
  pub bitmap : Option Bytes
  pub bytes : ℕ

-- The memory behind the pointers, by address (cores by index), the scheduler's variables, the process
-- IDs and the page tables.
pub record Kernel : Type 0 where
  pub threads : ℕ → Thread
  pub processes : ℕ → Process
  pub cores : ℕ → Core
  pub current_core_idx : ℕ
  pub core_count : ℕ
  pub pids : Pids
  pub vm : Vm
