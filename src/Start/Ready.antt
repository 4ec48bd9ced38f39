-- ===== src/Start/Ready.antt =====
-- The kernel as `_start` leaves it to the first interrupt.
use qnixx.Common.{ℕ, ◌+◌, ◌^◌, ◌<◌, ◌≡◌, ◌≢◌}
use qnixx.Amd64.Io.{Trace}
use qnixx.Sched.Types.{Core}
use qnixx.Sched.Process.{stack_size}
use qnixx.Common.{suc, ◌≤◌}
use qnixx.Libkern.Bitmap.Marked.{AreBytes}
use qnixx.Dev.Hpet.Sleep.{Ticks, ticks_of}
use qnixx.Amd64.Apic.Lapic.{start_countdown}
use qnixx.Start.{Machine, Started, FirstProcess, lapic_base}

-- What the allocator gives for the first process: blocks that are not NULL, two threads that are
-- apart, stacks that end in the address space, and a byte for the IDs, with a round for each bit.
pub record IsFirst (m : Machine) (first : FirstProcess) : Type 0 where
  pub process : first.fresh.process ≢ 0
  pub main : first.fresh.thread ≢ 0
  pub thread : first.thread ≢ 0
  pub apart : first.thread ≢ first.fresh.thread
  pub main_stack : first.fresh.stack + stack_size < 2 ^ 64
  pub stack : first.stack + stack_size < 2 ^ 64
  pub bits : AreBytes first.fresh.pid_bits
  pub rounds : 8 ≤ m.fuel

-- From the calibration of the local timer on, the counter of the HPET that init has found goes on by
-- a tick or more from read to read, for one read more than the ticks of 10 milliseconds, and there
-- is a round for each.
pub record Counts (m : Machine) (sleep_fuel : ℕ) (t : Trace) (s : Started m) : Type 0 where
  pub enough : sleep_fuel ≡ suc (ticks_of s.hpet 10)
  pub ticks :
      Ticks m.hw s.hpet.hpet_base
        (ticks_of s.hpet 10 + 1)
        (start_countdown (lapic_base m s.acpi) t).1
