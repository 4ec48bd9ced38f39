-- ===== src/Sched/Switch.antt =====
-- sys/sched/sched.c: the context switch on a timer interrupt.
pub mod RoundRobin
use qnixx.Common.{
  ℕ, zero, suc, ◌+◌, ◌-◌, ◌%◌, ◌≡◌, ◌≢◌, refl, ap, Bool, true, false, not, Option, none, some, List,
  arith, ◌==◌, Bool-cases, inl, inr, if◌then◌else◌, update, update_self, update_ne, length, bit_and,
  [], ◌∷◌, ne→==, get_elem?, none≢some,
}
use qnixx.Sched.Queue.{next_or_first}
use qnixx.Sched.Queue.Chain.{has, IsQueue}
use qnixx.Sched.Queue.Cycle.{next_or_first-cycle, get-ne-zero}
use qnixx.Sched.Types.{Trapframe, thread_startup, Thread, Kernel}

unfoldable pub next_process : (core : ℕ) → Kernel → Kernel
next_process core k =
    let c = k.cores core in
    record k {
      cores =
          update k.cores core
            (record c { running_process = next_or_first c.processq c.running_process });
    }

unfoldable pub next_thread : (parent : ℕ) → Kernel → Kernel
next_thread parent k =
    let p = k.processes parent in
    record k {
      processes =
          update k.processes parent
            (record p { running_thread = next_or_first p.threadq p.running_thread });
    }

-- `thread->tf = *tf`
abbrev pub save_frame : (thread : ℕ) → Trapframe → Kernel → Kernel
save_frame thread tf k =
    let t = k.threads thread in
    record k { threads = update k.threads thread (record t { tf = tf }) }

-- `thread->flags &= ~THREAD_STARTUP`, on 16 bits.
abbrev pub clear_startup : (thread : ℕ) → Kernel → Kernel
clear_startup thread k =
    let t = k.threads thread in
    record k {
      threads =
          update k.threads thread (record t { flags = bit_and t.flags (0xFFFF - thread_startup) });
    }

-- The thread that the core runs.
abbrev pub current : (core : ℕ) → Kernel → ℕ
current core k = (k.processes (k.cores core).running_process).running_thread

abbrev pub is_startup : Thread → Bool
is_startup t = not (bit_and t.flags thread_startup == 0)

-- What the handler does to the queues before it loads a frame.
unfoldable pub switch : (core : ℕ) → Trapframe → Kernel → Kernel
unfolding next_thread next_process
switch core tf k =
    let thread = current core k in
    if not (is_startup (k.threads thread))
    then next_process core (next_thread (k.cores core).running_process (save_frame thread tf k))
    else clear_startup thread k

-- The frame that is loaded, and the kernel. `none`: the core runs no process, and the source reads
-- through a null pointer. The timer that is set at the end, which may not return, is added by the
-- handler of the interrupt, `yield`.
unfoldable pub sched_yield : (core : ℕ) → Trapframe → Kernel → Option (Trapframe × Kernel)
unfolding switch
sched_yield core tf k =
    if (k.cores core).running_process == 0
    then none
    else let k' = switch core tf k in some ((k'.threads (current core k')).tf, k')

-- Core `core` has the processes `ps`, each with the threads that `ts` gives for it, and runs one.
pub record Ready (core : ℕ) (ps : List ℕ) (ts : ℕ → List ℕ) (k : Kernel) : Type 0 where
  pub queue : IsQueue (k.cores core).processq ps
  pub place : ℕ
  pub running : get_elem? ps place ≡ some (k.cores core).running_process
  pub threads : (p : ℕ) → has p ps ≡ true → IsQueue (k.processes p).threadq (ts p)
  pub seat : ℕ → ℕ
  pub sits :
      (p : ℕ) → has p ps ≡ true → get_elem? (ts p) (seat p) ≡ some (k.processes p).running_thread

pub has_of_get : (xs : List ℕ) (i : ℕ) {e : ℕ} → get_elem? xs i ≡ some e → has e xs ≡ true
has_of_get [] i at = absurd (none≢some at)
has_of_get (x ∷ xs) zero at = ground arith
has_of_get (x ∷ xs) (suc i) at = ground (arith, has_of_get xs i at)

-- If the running thread of a core is marked as not yet started, sched_yield loads its frame and
-- clears the mark, and changes nothing else.
pub sched_yield-startup :
    (core : ℕ) (tf : Trapframe) (k : Kernel)
    → (k.cores core).running_process ≢ 0
    → is_startup (k.threads (current core k)) ≡ true
    → sched_yield core tf k
      ≡ some ((k.threads (current core k)).tf, clear_startup (current core k) k)
unfolding sched_yield
sched_yield-startup core tf k ne startup =
    rw (ne→== (k.cores core).running_process 0 ne, startup)
      (ap (λ (t : Thread). some (t.tf, clear_startup thread k))
        (update_self k.threads thread cleared))
  where
    thread : ℕ
    thread = current core k

    cleared : Thread
    cleared = record (k.threads thread) {
      flags = bit_and (k.threads thread).flags (0xFFFF - thread_startup);
    }

module _ (core : ℕ) (tf : Trapframe) (ps : List ℕ) (ts : ℕ → List ℕ) (k : Kernel) where
  -- The kernel after the frame is saved and both queues have moved on.
  abbrev pub moved : Kernel
  moved =
      next_process core
        (next_thread (k.cores core).running_process (save_frame (current core k) tf k))

  pub sched_yield-moved :
      (k.cores core).running_process ≢ 0
      → is_startup (k.threads (current core k)) ≡ false
      → sched_yield core tf k ≡ some ((moved.threads (current core moved)).tf, moved)
  unfolding sched_yield
  sched_yield-moved ne started = rw (ne→== (k.cores core).running_process 0 ne, started) refl

  running_moved :
      (moved.cores core).running_process
      ≡ next_or_first (k.cores core).processq (k.cores core).running_process
  unfolding next_process next_thread
  running_moved = ground arith

  pub saved_moved : (moved.threads (current core k)).tf ≡ tf
  unfolding next_process next_thread
  saved_moved = ground arith

  pub others_moved : (t : ℕ) → t ≢ current core k → moved.threads t ≡ k.threads t
  unfolding next_process next_thread
  others_moved t ne = update_ne k.threads _ ne

  processq_moved : (moved.cores core).processq ≡ (k.cores core).processq
  unfolding next_process next_thread
  processq_moved = ground arith

  threadq_moved : (p : ℕ) → (moved.processes p).threadq ≡ (k.processes p).threadq
  unfolding next_process next_thread
  threadq_moved p = ground arith

  seat_moved :
      (p : ℕ)
      → (moved.processes p).running_thread ≡ (
          if p == (k.cores core).running_process
          then next_or_first (k.processes p).threadq (k.processes p).running_thread
          else (k.processes p).running_thread)
  unfolding next_process next_thread
  seat_moved p = ground arith

  abbrev next_seat : Ready core ps ts k → ℕ → ℕ
  next_seat ready p =
      if p == (k.cores core).running_process
      then (ready.seat p + 1) % length (ts p)
      else ready.seat p

  sits_moved :
      (ready : Ready core ps ts k) (p : ℕ)
      → has p ps ≡ true
      → get_elem? (ts p) (next_seat ready p) ≡ some (moved.processes p).running_thread
  sits_moved ready p in_ps = elim (Bool-cases (p == (k.cores core).running_process)) [
    | inl running ↦
        rw (seat_moved p, running)
          (next_or_first-cycle (k.processes p).threadq (ts p) (ready.seat p)
            (k.processes p).running_thread (ready.threads p in_ps) (ready.sits p in_ps))
    | inr waiting ↦ rw (seat_moved p, waiting) (ready.sits p in_ps)
  ]

  pub Ready-moved : Ready core ps ts k → Ready core ps ts moved
  Ready-moved ready = record {
    queue = rw processq_moved ready.queue;
    place = (ready.place + 1) % length ps;
    running = rw running_moved (
        next_or_first-cycle (k.cores core).processq ps ready.place (k.cores core).running_process
          ready.queue ready.running);
    threads = λ p in_ps. rw (threadq_moved p) (ready.threads p in_ps);
    seat = next_seat ready;
    sits = sits_moved ready;
  }

  -- What one switch does: the frame of the interrupted thread is kept, no other thread is touched,
  -- the next process in the queue runs, and the frame of its thread is loaded.
  pub record Switched (ready : Ready core ps ts k) (out : Trapframe) (k' : Kernel) : Type 0 where
    pub still_ready : Ready core ps ts k'
    pub next_running :
        get_elem? ps ((ready.place + 1) % length ps) ≡ some (k'.cores core).running_process
    pub saved : (k'.threads (current core k)).tf ≡ tf
    pub untouched : (t : ℕ) → t ≢ current core k → k'.threads t ≡ k.threads t
    pub loaded : out ≡ (k'.threads (current core k')).tf

  -- On a core whose queues stand for its processes and their threads, each with a running one,
  -- and whose running thread has been started, sched_yield returns; the interrupted frame is kept
  -- in the descriptor of the interrupted thread, no other thread is changed, the process after
  -- the running one in the cyclic order of the queue runs, the frame of its thread is loaded, and
  -- the queues are again as assumed.
  pub sched_yield-Switched :
      (ready : Ready core ps ts k)
      → is_startup (k.threads (current core k)) ≡ false
      → (out : Trapframe) × (k' : Kernel) × (sched_yield core tf k ≡ some (out, k'))
        × Switched ready out k'
  unfolding Ready-moved
  sched_yield-Switched ready started =
      let still = Ready-moved ready in
      (
        (moved.threads (current core moved)).tf,
        moved,
        sched_yield-moved
            (get-ne-zero (k.cores core).processq.next (k.cores core).processq.first ps ready.place
              ready.queue.chain ready.running)
            started,
        record {
          still_ready = still;
          next_running = still.running;
          saved = saved_moved;
          untouched = others_moved;
          loaded = refl;
        },
      )
