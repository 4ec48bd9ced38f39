-- ===== src/Sched/Trap.antt =====
-- sys/amd64/trap.c: the handler of every interrupt that is not an exception.
use qnixx.Common.{
  ℕ, suc, ◌+◌, ◌≡◌, ◌≢◌, refl, false, Option, none, some, List, ◌∷◌, ◌==◌, ne→==, ==_iff,
  if◌then◌else◌, update,
}
use qnixx.Common.Word.{u64}
use qnixx.Amd64.Io.{Hardware, Trace, Io, pure, ◌>>=◌, ◌>>◌, store}
use qnixx.Amd64.Apic.Lapic.{Clock, lapic_send_eoi}
use qnixx.Sync.Mutex.{mutex_acquire, mutex_release}
use qnixx.Sched.Types.{Trapframe, Kernel}
use qnixx.Sched.Switch.{sched_yield, Ready, Switched, sched_yield-Switched, current, is_startup}
use qnixx.Sched.Start.{sched_begin_timer, sched_begin_timer-returns}
use qnixx.Amd64.Apic.Calibrate.{Sleeps}

-- `this_core()->lapic_freq = freq`
abbrev pub set_freq : (core freq : ℕ) → Kernel → Kernel
set_freq core freq k =
    let c = k.cores core in
    record k { cores = update k.cores core (record c { lapic_freq = freq }) }

-- `base` is that of the local APIC, and `timer_vector` is `lapic_get_timer_vector()`.
module _ (hw : Hardware) (clock : Clock) (base timer_vector core : ℕ) where
  -- The frequency that `sched_begin_timer` measures, if it returns, is kept in the descriptor.
  unfoldable pub with_freq : Trapframe → Kernel → Option ℕ → Option (Trapframe × Kernel)
  with_freq out k none = none
  with_freq out k (some freq) = some (out, set_freq core freq k)

  -- `sched_yield`, with the timer that it sets at its end. `none` is also that the timer's
  -- calibration does not end.
  unfoldable pub yield : Trapframe → Kernel → Io (Option (Trapframe × Kernel))
  yield tf k = elim (sched_yield core tf k) [
    | none ↦ pure none
    | some (out, k') ↦ do
      measured ← sched_begin_timer hw clock base timer_vector
      pure (with_freq out k' measured)
  ]

  unfoldable pub on_trap : Trapframe → Kernel → Io (Option (Trapframe × Kernel))
  on_trap tf k = if tf.trapno == timer_vector then yield tf k else pure (some (tf, k))

  -- `lapic_send_eoi(); mutex_release(&lock);`
  unfoldable pub finish :
      (lock : ℕ) → Option (Trapframe × Kernel) → Io (Option (Trapframe × Kernel × ℕ))
  finish lock none = pure none
  finish lock (some (out, k)) = do lapic_send_eoi base; pure (some (out, k, mutex_release lock))

  -- The frame that is returned to, the kernel and the lock. `none`: the lock is not free within the
  -- fuel, a null pointer is read, or the calibration of the timer does not end.
  unfoldable pub trap : (fuel lock : ℕ) → Trapframe → Kernel → Io (Option (Trapframe × Kernel × ℕ))
  trap fuel lock tf k = elim (mutex_acquire fuel lock) [
    | none ↦ pure none
    | some held ↦ do r ← on_trap tf k; finish held r
  ]

  -- The access that ends the interrupt.
  abbrev pub end_of_interrupt : Trace → Trace
  end_of_interrupt t = store 32 (u64 (base + 0xb0)) 0 ∷ t

  trap-free :
      (fuel : ℕ) (tf : Trapframe) (k : Kernel) (t t' : Trace) (out : Trapframe) (k' : Kernel)
      → on_trap tf k t ≡ (some (out, k'), t')
      → trap (suc fuel) 0 tf k t ≡ (some (out, k', 0), end_of_interrupt t')
  unfolding trap mutex_acquire finish lapic_send_eoi
  trap-free fuel tf k t t' out k' e = rw e refl

  -- With the lock free, an interrupt of another vector than the timer's changes no thread: its frame
  -- is returned to, the lock is left free, and the end of the interrupt is signalled.
  pub trap-other :
      (fuel : ℕ) (tf : Trapframe) (k : Kernel) (t : Trace)
      → tf.trapno ≢ timer_vector
      → trap (suc fuel) 0 tf k t ≡ (some (tf, k, 0), end_of_interrupt t)
  unfolding on_trap
  trap-other fuel tf k t ne =
      trap-free fuel tf k t t tf k (rw (ne→== tf.trapno timer_vector ne) refl)

  -- On a timer interrupt, with the lock of the handler free, the queues of the core standing for
  -- its processes and their threads, its running thread started, and a HPET whose lock is free,
  -- whose period is not 0 and whose counter goes on by a tick or more from read to read for one
  -- read more than the ticks of 10 milliseconds, with a round for each, trap returns with the
  -- lock free, the context switched as sched_yield does it, and the end of the interrupt
  -- signalled by the last access to a device.
  pub trap-Switched :
      (fuel : ℕ) (tf : Trapframe) (ps : List ℕ) (ts : ℕ → List ℕ) (k : Kernel) (t : Trace)
      → (ready : Ready core ps ts k) → tf.trapno ≡ timer_vector
      → is_startup (k.threads (current core k)) ≡ false
      → Sleeps hw base clock t
      → (out : Trapframe) × (k' : Kernel) × (freq : ℕ) × (t' : Trace) × (trap (suc fuel) 0 tf k t
          ≡ (some (out, set_freq core freq k', 0), end_of_interrupt t'))
        × Switched core tf ps ts k ready out k'
  unfolding on_trap yield with_freq
  trap-Switched fuel tf ps ts k t ready timer started sleeps =
      let (out, k', e, switched) = sched_yield-Switched core tf ps ts k ready started in
      let (freq, later, set) = sched_begin_timer-returns hw clock base timer_vector t sleeps in
      let yields : yield tf k t ≡ (some (out, set_freq core freq k'), later) =
        rw (e, yield) (rw (set, with_freq) refl) in
      let run : on_trap tf k t ≡ (some (out, set_freq core freq k'), later) =
        rw ((==_iff tf.trapno timer_vector).1 timer) yields in
      (out, k', freq, later, trap-free fuel tf k t later out (set_freq core freq k') run, switched)
