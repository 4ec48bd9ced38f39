-- ===== src/Sched/Start.antt =====
-- `sched_start` of sys/sched/sched.c: the first process with its two threads, and the timer.
use qnixx.Common.{
  ℕ, ◌+◌, ◌%◌, ◌^◌, ◌<◌, ◌≡◌, ◌≢◌, ne→==, refl, sym, ap, ◌∙◌, true, Option, none, some, List, [],
  ◌∷◌, update, update_self, bit_or, arith,
}
use qnixx.Amd64.Io.{Hardware, Io, pure, ◌>>=◌, ◌>>◌}
use qnixx.Amd64.Apic.Calibrate.{Sleeps, lapic_timer_calibrate-returns}
use qnixx.Amd64.Io.{Trace}
use qnixx.Amd64.Apic.Lapic.{Clock, lapic_timer_calibrate, lapic_timer_oneshot}
use qnixx.Sched.Queue.{Tailq, insert_tail}
use qnixx.Sched.Queue.Chain.{has, IsQueue}
use qnixx.Sched.Queue.Insert.{insert_tail-append}
use qnixx.Sched.Types.{Thread, Core, Kernel, thread_startup}
use qnixx.Sched.Process.{
  stack_size, new_thread, new_process, with_process, Fresh, process_create_thread,
  process_create_thread_lem, sched_core, enqueue_thread, enqueue_process, start_process,
  push_process, Owns, enqueue_thread-Owns, new_process-Owns,
}
use qnixx.Sched.Process.Create.{
  Services, with_ids, create_kernel_process, Supplies, create_process-returns,
}
use qnixx.Sched.Switch.{Ready}

abbrev pub sched_quantum_base : ℕ
sched_quantum_base = 20

-- The timer is set, where its frequency could be measured.
unfoldable pub set_timer : (base timer_vector : ℕ) → Option ℕ → Io (Option ℕ)
set_timer base timer_vector none = pure none
set_timer base timer_vector (some lapic_freq) = do
  lapic_timer_oneshot base timer_vector lapic_freq sched_quantum_base
  pure (some lapic_freq)

-- The frequency that is measured is kept in the descriptor of the core. `none`: the calibration does
-- not end.
unfoldable pub sched_begin_timer : Hardware → Clock → (base timer_vector : ℕ) → Io (Option ℕ)
sched_begin_timer hw clock base timer_vector = do
  measured ← lapic_timer_calibrate hw clock base
  set_timer base timer_vector measured

set_timer-returns :
    (base timer_vector freq : ℕ) (t : Trace)
    → (t' : Trace) × (set_timer base timer_vector (some freq) t ≡ (some freq, t'))
unfolding set_timer lapic_timer_oneshot
set_timer-returns base timer_vector freq t = (_, refl)

pub sched_begin_timer-returns :
    (hw : Hardware) (clock : Clock) (base timer_vector : ℕ) (t : Trace)
    → Sleeps hw base clock t
    → (freq : ℕ) × (t' : Trace) × (sched_begin_timer hw clock base timer_vector t ≡ (some freq, t'))
unfolding sched_begin_timer
sched_begin_timer-returns hw clock base timer_vector t sleeps =
    let (freq, later, run) = lapic_timer_calibrate-returns hw base clock t sleeps in
    let (last, set) = set_timer-returns base timer_vector freq later in
    (freq, last, rw (run, sched_begin_timer) set)

-- `"idle"`
abbrev idle_name : List ℕ
idle_name = 105 ∷ 100 ∷ 108 ∷ 101 ∷ []

-- The kernel with a thread's descriptor in place.
abbrev pub with_thread : (thread : ℕ) → Thread → Kernel → Kernel
with_thread thread t k = record k { threads = update k.threads thread t }

-- All of `sched_start` before the timer is started. `idle` and `test_func` are the addresses of
-- those functions, and `thread` and `stack` are what `kmalloc` returns for the second thread. `none`: one of the descriptors is NULL, and is
-- written through all the same, an assertion fails, an ID or a page table is not returned, or there
-- is no core.
unfoldable pub sched_start :
    Services → (idle test_func : ℕ) → Fresh → Tailq → (thread stack : ℕ) → Kernel → Option Kernel
sched_start sv idle test_func fresh q thread stack k =
    elim (create_kernel_process sv idle_name idle fresh q k) [
      | none ↦ none
      | some (p, k1) ↦ elim (enqueue_process p k1) [
        | none ↦ none
        | some k2 ↦ elim (process_create_thread thread stack p test_func) [
          | none ↦ none
          | some t ↦ some (enqueue_thread p thread (with_thread thread t k2))
        ]
      ]
    ]

-- The kernel with the process in the queue of the next core.
abbrev queued : (p : ℕ) → Kernel → Kernel
queued p k =
    push_process k.current_core_idx p
      (record k { current_core_idx = (k.current_core_idx + 1) % k.core_count })

-- `start_process` where the core runs no process.
abbrev started : (core p : ℕ) → Kernel → Kernel
started core p k =
    let c = k.cores core in
    let main = (k.processes p).running_thread in
    let t = k.threads main in
    record k {
      cores = update k.cores core (record c { running_process = p });
      threads = update k.threads main (record t { flags = bit_or t.flags thread_startup });
    }

start_process-idle :
    (core p : ℕ) (k : Kernel)
    → (k.cores core).running_process ≡ 0
    → start_process core p k ≡ started core p k
start_process-idle core p k idle = rw idle refl

enqueue_process-idle :
    (p : ℕ) (k : Kernel)
    → k.core_count ≢ 0
    → (k.cores k.current_core_idx).running_process ≡ 0
    → enqueue_process p k ≡ some (started k.current_core_idx p (queued p k))
unfolding enqueue_process sched_core
enqueue_process-idle p k cores idle =
    let core = k.current_core_idx in
    let c = k.cores core in
    let same = update_self k.cores core (record c { processq = insert_tail c.processq p }) in
    rw (ne→== k.core_count 0 cores, enqueue_process, sched_core)
      (ap some (start_process-idle core p (queued p k) (ap (λ c. c.running_process) same ∙ idle)))

-- The descriptor of a core that takes its first process.
abbrev started_core : ℕ → Core → Core
started_core p c = record c { processq = insert_tail c.processq p; running_process = p }

abbrev started_running : ℕ → Core → Core
started_running p c = record c { running_process = p }

started-cores :
    (p : ℕ) (k : Kernel)
    → (started k.current_core_idx p (queued p k)).cores k.current_core_idx
      ≡ started_core p (k.cores k.current_core_idx)
started-cores p k =
    let core = k.current_core_idx in
    let c = k.cores core in
    let same = update_self k.cores core (record c { processq = insert_tail c.processq p }) in
    update_self (queued p k).cores core (record ((queued p k).cores core) { running_process = p })
    ∙ ap (λ (c : Core). started_running p c) same

has-single : {x y : ℕ} → has x (y ∷ []) ≡ true → x ≡ y
has-single e = ground arith

-- If the addresses that kmalloc returns are not NULL, those of the two threads are distinct, both
-- stacks end below 2^64, there is usable memory, the PID bitmap holds bytes and its length is not
-- 0, the search for a PID has 8 rounds or more, there is a core, and the current core has an
-- empty queue and no running process, then sched_start reaches the timer with a kernel in which
-- that core runs the first process, whose queue holds its two threads in order.
pub sched_start-Ready :
    (sv : Services) (idle test_func : ℕ) (fresh : Fresh) (q : Tailq) (thread stack : ℕ) (k : Kernel)
    → Supplies sv fresh k
    → k.core_count ≢ 0
    → thread ≢ 0
    → thread ≢ fresh.thread
    → stack + stack_size < 2 ^ 64
    → IsQueue (k.cores k.current_core_idx).processq []
    → (k.cores k.current_core_idx).running_process ≡ 0
    → (k' : Kernel) × (sched_start sv idle test_func fresh q thread stack k ≡ some k')
      × Ready k.current_core_idx (fresh.process ∷ []) (λ _. fresh.thread ∷ thread ∷ []) k'
unfolding sched_start create_kernel_process enqueue_thread
sched_start-Ready sv idle test_func fresh q thread stack k given cores ne2 apart room empty off =
    let p = fresh.process in
    let core = k.current_core_idx in
    let (pid, pml4, pids, vm, made, taken) =
      create_process-returns sv idle_name 0 0 idle fresh q k (omega arith) given in
    let p0 = new_process idle_name 0 0 pid pml4 fresh q in
    let k1 = with_process fresh (new_thread fresh.stack p idle) p0 (with_ids pids vm k) in
    let t = new_thread stack p test_func in
    let k2 = with_thread thread t (started core p (queued p k1)) in
    let at = update_self k.processes p p0 in
    let owns0 : Owns (k2.processes p) (fresh.thread ∷ []) =
      rw at (new_process-Owns idle_name 0 0 pid pml4 fresh q given.thread) in
    let owns = enqueue_thread-Owns p thread k2 (fresh.thread ∷ []) ne2 (ground arith) owns0 in
    let returns : sched_start sv idle test_func fresh q thread stack k
        ≡ some (enqueue_thread p thread k2) =
      rw
        (
          made,
          enqueue_process-idle p k1 cores off,
          process_create_thread_lem thread stack p test_func ne2 room,
          sched_start,
        )
        refl in
    let same = started-cores p k1 in
    (
      enqueue_thread p thread k2,
      returns,
      record {
        queue = rw same (insert_tail-append (k.cores core).processq p [] given.process refl empty);
        place = 0;
        running = ap (λ (c : Core). some c.running_process) (sym same);
        threads = λ x inn. rw (has-single inn) owns.queue;
        seat = λ _. 0;
        sits = λ x inn. rw (has-single inn) (ground arith);
      },
    )
