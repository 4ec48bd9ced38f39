-- ===== src/Sched/Switch/RoundRobin.antt =====
-- What the scheduler promises: round robin over processes and their threads, each of which goes on
-- with the frame at which it was interrupted.
use qnixx.Common.{
  ℕ, ◌+◌, ◌/◌, ◌%◌, ◌≡◌, ◌≢◌, refl, sym, ap, ◌∙◌, Bool, true, false, not, Option, none, some, List,
  [], ◌∷◌, length, get_elem?, ◌==◌, Bool-cases, inl, inr, if◌then◌else◌, update, bit_and, arith,
}
use qnixx.Common.Bits.{bit_and_step}
use qnixx.Common.BitLaws.{bit_and-ones}
use qnixx.Sched.Queue.Chain.{has, IsQueue}
use qnixx.Sched.Queue.Cycle.{get-ne-zero}
use qnixx.Sched.Types.{Trapframe, Kernel, thread_startup}
use qnixx.Sched.Switch.{
  sched_yield, sched_yield-startup, current, clear_startup, is_startup, Ready, moved, Ready-moved,
  sched_yield-moved, has_of_get, next_process, next_thread,
}

-- The place in the cycle of processes, each one's place in the cycle of its threads, the frame of
-- each thread, and whether it is still to be started.
pub record Schedule : Type 0 where
  pub place : ℕ
  pub seat : ℕ → ℕ
  pub frames : ℕ → Trapframe
  pub fresh : ℕ → Bool

abbrev or_zero : Option ℕ → ℕ
or_zero none = 0
or_zero (some x) = x

abbrev pub elem : List ℕ → ℕ → ℕ
elem xs i = or_zero (get_elem? xs i)

-- A sequence of calls of `sched_yield`, each at the frame of an interrupt, with what they load.
unfoldable pub yields : (core : ℕ) → List Trapframe → Kernel → Option (List Trapframe × Kernel)
yields core [] k = some ([], k)
yields core (tf ∷ tfs) k = elim (sched_yield core tf k) [
  | none ↦ none
  | some (out, k1) ↦ elim (yields core tfs k1) [
    | none ↦ none
    | some (outs, k2) ↦ some (out ∷ outs, k2)
  ]
]

module _ (ps : List ℕ) (ts : ℕ → List ℕ) where
  abbrev pub running : Schedule → ℕ
  running a = elem ps a.place

  abbrev pub thread : Schedule → ℕ
  thread a = elem (ts (running a)) (a.seat (running a))

  -- The frame is kept, and both cycles go on.
  abbrev pub rotate : Trapframe → Schedule → Schedule
  rotate tf a = record a {
    place = (a.place + 1) % length ps;
    seat = λ p. if p == running a then (a.seat p + 1) % length (ts p) else a.seat p;
    frames = update a.frames (thread a) tf;
  }

  -- An interrupt: a thread that is to be started is started, and else the next one goes on.
  abbrev pub interrupt : Trapframe → Schedule → Trapframe × Schedule
  interrupt tf a =
      if a.fresh (thread a)
      then (a.frames (thread a), record a { fresh = update a.fresh (thread a) false })
      else ((rotate tf a).frames (thread (rotate tf a)), rotate tf a)

  -- A sequence of interrupts, with the frames that are loaded.
  abbrev pub interrupts : List Trapframe → Schedule → List Trapframe × Schedule
  interrupts [] a = ([], a)
  interrupts (tf ∷ tfs) a =
      let (out, b) = interrupt tf a in let (outs, c) = interrupts tfs b in (out ∷ outs, c)

  -- The kernel's queues and descriptors stand for the schedule.
  pub record Represents (core : ℕ) (k : Kernel) (a : Schedule) : Type 0 where
    pub queue : IsQueue (k.cores core).processq ps
    pub at : get_elem? ps a.place ≡ some (k.cores core).running_process
    pub threads : (p : ℕ) → has p ps ≡ true → IsQueue (k.processes p).threadq (ts p)
    pub sits :
        (p : ℕ)
        → has p ps ≡ true
        → get_elem? (ts p) (a.seat p) ≡ some (k.processes p).running_thread
    pub kept : (t : ℕ) → (k.threads t).tf ≡ a.frames t
    pub startup : (t : ℕ) → is_startup (k.threads t) ≡ a.fresh t

  -- A core that is ready stands for the schedule that its descriptors hold.
  abbrev pub schedule_of : (core : ℕ) (k : Kernel) → Ready core ps ts k → Schedule
  schedule_of core k ready = record {
    place = ready.place;
    seat = ready.seat;
    frames = λ t. (k.threads t).tf;
    fresh = λ t. is_startup (k.threads t);
  }

  pub schedule_of-Represents :
      (core : ℕ) (k : Kernel) (ready : Ready core ps ts k)
      → Represents core k (schedule_of core k ready)
  schedule_of-Represents core k ready = record {
    queue = ready.queue;
    at = ready.running;
    threads = ready.threads;
    sits = ready.sits;
    kept = λ t. refl;
    startup = λ t. refl;
  }

  module _ (core : ℕ) (k : Kernel) (a : Schedule) (r : Represents core k a) where
    ready : Ready core ps ts k
    ready = record {
      queue = r.queue;
      place = a.place;
      running = r.at;
      threads = r.threads;
      seat = a.seat;
      sits = r.sits;
    }

    running_lem : running a ≡ (k.cores core).running_process
    running_lem = ap or_zero r.at

    thread_lem : thread a ≡ current core k
    thread_lem =
        rw running_lem
          (ap or_zero (r.sits (k.cores core).running_process (has_of_get ps a.place r.at)))

    not_idle : (k.cores core).running_process ≢ 0
    not_idle =
        get-ne-zero (k.cores core).processq.next (k.cores core).processq.first ps a.place
          r.queue.chain r.at

  mark_cleared : (f : ℕ) → bit_and (bit_and f 0xFFFE) 1 ≡ 0
  mark_cleared f = omega (
    arith,
    bit_and_step f 0xFFFE,
    bit_and_step (bit_and f 0xFFFE) 1,
    bit_and-ones 0 (bit_and f 0xFFFE / 2),
  )

  flags_moved :
      (core : ℕ) (tf : Trapframe) (k : Kernel) (t : ℕ)
      → ((moved core tf ps ts k).threads t).flags ≡ (k.threads t).flags
  unfolding next_process next_thread
  flags_moved core tf k t = ground arith

  startup_cleared :
      (k : Kernel) (thread t : ℕ)
      → is_startup ((clear_startup thread k).threads t)
        ≡ update (λ t. is_startup (k.threads t)) thread false t
  startup_cleared k thread t = ground (arith, mark_cleared (k.threads thread).flags)

  tf_cleared :
      (k : Kernel) (thread t : ℕ) → ((clear_startup thread k).threads t).tf ≡ (k.threads t).tf
  tf_cleared k thread t = ground arith

  tf_moved :
      (core : ℕ) (tf : Trapframe) (k : Kernel) (t : ℕ)
      → ((moved core tf ps ts k).threads t).tf
        ≡ update (λ t. (k.threads t).tf) (current core k) tf t
  unfolding next_process next_thread
  tf_moved core tf k t = ground arith

  module _ (core : ℕ) (tf : Trapframe) (k : Kernel) (a : Schedule) (r : Represents core k a) where
    Represents-started :
        a.fresh (thread a) ≡ true
        → Represents core
            (clear_startup (current core k) k)
            (record a { fresh = update a.fresh (thread a) false })
    Represents-started fresh = record {
      queue = r.queue;
      at = r.at;
      threads = r.threads;
      sits = r.sits;
      kept = λ t. tf_cleared k (current core k) t ∙ r.kept t;
      startup = λ t.
          startup_cleared k (current core k) t
          ∙ rw (thread_lem core k a r) (ground (arith, r.startup t));
    }

    Represents-rotate : Represents core (moved core tf ps ts k) (rotate tf a)
    unfolding Ready-moved ready
    Represents-rotate =
        let still = Ready-moved core tf ps ts k (ready core k a r) in
        record {
          queue = still.queue;
          at = still.running;
          threads = still.threads;
          sits = λ p inn. rw (running_lem core k a r) (still.sits p inn);
          kept = λ t. tf_moved core tf k t ∙ rw (thread_lem core k a r) (ground (arith, r.kept t));
          startup = λ t.
              ap (λ (f : ℕ). not (bit_and f thread_startup == 0)) (flags_moved core tf k t)
              ∙ r.startup t;
        }

    sched_yield-interrupt :
        (k' : Kernel) × (sched_yield core tf k ≡ some ((interrupt tf a).0, k'))
        × Represents core k' (interrupt tf a).1
    sched_yield-interrupt = elim (Bool-cases (a.fresh (thread a))) [
      | inl fresh ↦
          let startup : is_startup (k.threads (current core k)) ≡ true =
            r.startup (current core k) ∙ rw (← thread_lem core k a r) fresh in
          let frame : (k.threads (current core k)).tf ≡ a.frames (thread a) =
            r.kept (current core k) ∙ ap a.frames (sym (thread_lem core k a r)) in
          rw fresh (
            clear_startup (current core k) k,
            sched_yield-startup core tf k (not_idle core k a r) startup
                ∙ ap (λ (f : Trapframe). some (f, clear_startup (current core k) k)) frame,
            Represents-started fresh,
          )
      | inr started ↦
          let going : is_startup (k.threads (current core k)) ≡ false =
            r.startup (current core k) ∙ rw (← thread_lem core k a r) started in
          let next = moved core tf ps ts k in
          let frame : (next.threads (current core next)).tf
              ≡ (rotate tf a).frames (thread (rotate tf a)) =
            Represents-rotate.kept (current core next)
            ∙ ap (rotate tf a).frames
                (sym (thread_lem core next (rotate tf a) Represents-rotate)) in
          rw started (
            next,
            sched_yield-moved core tf ps ts k (not_idle core k a r) going
                ∙ ap (λ (f : Trapframe). some (f, next)) frame,
            Represents-rotate,
          )
    ]

  -- On a core whose queues and descriptors stand for a round-robin schedule, every sequence of
  -- calls of sched_yield, each at the frame of an interrupt, returns; it loads the frames that
  -- the schedule gives for the same interrupts, and the core stands for the schedule that they
  -- leave. The schedule keeps the interrupted frame with its thread, moves the interrupted
  -- process to its next thread, and goes on to the next process, both in a cycle, except that a
  -- thread that is still to be started is started first.
  pub yields-interrupts :
      (core : ℕ) (tfs : List Trapframe) (k : Kernel) (a : Schedule)
      → Represents core k a
      → (k' : Kernel) × (yields core tfs k ≡ some ((interrupts tfs a).0, k'))
        × Represents core k' (interrupts tfs a).1
  unfolding yields
  yields-interrupts core [] k a r = (k, refl, r)
  yields-interrupts core (tf ∷ tfs) k a r =
      let (k1, first, r1) = sched_yield-interrupt core tf k a r in
      let (k2, rest, r2) = yields-interrupts core tfs k1 (interrupt tf a).1 r1 in
      (k2, rw (first, rest, yields) refl, r2)
