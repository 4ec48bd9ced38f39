-- ===== src/Sched/Process.antt =====
-- sys/sched/process.c and the queueing half of sys/sched/sched.c. Addresses that `kmalloc` returns
-- are arguments.
pub mod Create
use qnixx.Libkern.Bitmap.{Bytes}
use qnixx.Common.{
  ℕ, ◌+◌, ◌-◌, ◌*◌, ◌%◌, ◌^◌, ◌≤◌, ◌<◌, ◌≡◌, ◌≢◌, refl, true, false, Option, none, some, List,
  arith, leb, ◌==◌, if◌then◌else◌, update, length, bit_or, ◌++◌, [], ◌∷◌, ne→==, length-append,
  le→leb, update_self,
}
use qnixx.Common.Word.{u64}
use qnixx.Sched.Queue.{Tailq, init, insert_tail}
use qnixx.Sched.Queue.Chain.{has, has-append, IsQueue}
use qnixx.Sched.Queue.Insert.{init-IsQueue, insert_tail-append}
use qnixx.Sched.Types.{zero_frame, thread_startup, Thread, Process, Kernel}

abbrev pub name_max : ℕ
name_max = 255

-- The size of a thread's stack.
abbrev pub stack_size : ℕ
stack_size = 0x500

-- The descriptor as it is filled in, with the stack at `stack`.
abbrev pub new_thread : (stack parent entry : ℕ) → Thread
new_thread stack parent entry = record {
  tf = record zero_frame {
    ss = 0x30;
    cs = 0x28;
    rflags = 0x202;
    rsp = u64 (u64 (stack + stack_size) + (stack_size - 1));
    rip = entry;
  };
  stack_base = u64 (stack + stack_size);
  flags = 0;
  parent = parent;
}

-- `none`: an assertion fails. `thread` and `stack` are what the two calls of `kmalloc` return.
unfoldable pub process_create_thread : (thread stack parent entry : ℕ) → Option Thread
process_create_thread thread stack parent entry =
    if thread == 0
    then none
    else if u64 (stack + stack_size) == 0
    then none
    else some (new_thread stack parent entry)

-- What the calls of `kmalloc` under `create_process` return: three addresses, and what stands at the
-- one that is taken for the IDs.
pub record Fresh : Type 0 where
  pub process : ℕ
  pub thread : ℕ
  pub stack : ℕ
  pub pid_bits : Bytes

-- The descriptor as it is filled in: `q` is the links found in the allocated memory.
abbrev pub new_process : (name : List ℕ) (user_id group_id pid pml4 : ℕ) → Fresh → Tailq → Process
new_process name user_id group_id pid pml4 fresh q = record {
  name = name;
  pid = pid;
  uid = user_id;
  euid = user_id;
  gid = group_id;
  threadq = insert_tail (init q) fresh.thread;
  running_thread = fresh.thread;
  thread_count = 1;
  vaddrsp = pml4;
}

-- The kernel with the new process and its thread in place.
abbrev pub with_process : Fresh → Thread → Process → Kernel → Kernel
with_process fresh t p k = record k {
  threads = update k.threads fresh.thread t;
  processes = update k.processes fresh.process p;
}

-- The index of the core that `sched_core` returns. `none`: there are no cores, and the remainder is
-- by 0.
unfoldable pub sched_core : Kernel → Option (ℕ × Kernel)
sched_core k =
    if k.core_count == 0
    then none
    else some (
      k.current_core_idx,
      record k { current_core_idx = (k.current_core_idx + 1) % k.core_count },
    )

unfoldable pub enqueue_thread : (parent thread : ℕ) → Kernel → Kernel
enqueue_thread parent thread k =
    let p = k.processes parent in
    record k {
      processes =
          update k.processes parent (record p {
            threadq = insert_tail p.threadq thread;
            thread_count = p.thread_count + 1;
          });
    }

-- The process becomes the running one of a core that has none, its thread marked as not yet started.
abbrev pub start_process : (core p : ℕ) → Kernel → Kernel
start_process core p k =
    let c = k.cores core in
    let main = (k.processes p).running_thread in
    let t = k.threads main in
    if c.running_process == 0
    then record k {
      cores = update k.cores core (record c { running_process = p });
      threads = update k.threads main (record t { flags = bit_or t.flags thread_startup });
    }
    else k

-- The queue of the core that the process is pushed to.
abbrev pub push_process : (core p : ℕ) → Kernel → Kernel
push_process core p k =
    let c = k.cores core in
    record k { cores = update k.cores core (record c { processq = insert_tail c.processq p }) }

unfoldable pub enqueue_process : ℕ → Kernel → Option Kernel
unfolding sched_core
enqueue_process p k = elim (sched_core k) [
  | none ↦ none
  | some (core, k') ↦ some (start_process core p (push_process core p k'))
]

-- A process owns the threads `ts`, counts them, and runs one of them.
pub record Owns (p : Process) (ts : List ℕ) : Type 0 where
  pub queue : IsQueue p.threadq ts
  pub count : p.thread_count ≡ length ts
  pub running : has p.running_thread ts ≡ true

pub process_create_thread_lem :
    (thread stack parent entry : ℕ)
    → thread ≢ 0
    → stack + stack_size < 2 ^ 64
    → process_create_thread thread stack parent entry ≡ some (new_thread stack parent entry)
unfolding process_create_thread
process_create_thread_lem thread stack parent entry ne room =
    rw (ne→== thread 0 ne, ne→== (u64 (stack + stack_size)) 0 (omega arith)) refl

-- The process as it is filled in owns just its main thread.
pub new_process-Owns :
    (name : List ℕ) (user_id group_id pid pml4 : ℕ) (fresh : Fresh) (q : Tailq)
    → fresh.thread ≢ 0
    → Owns (new_process name user_id group_id pid pml4 fresh q) (fresh.thread ∷ [])
new_process-Owns name user_id group_id pid pml4 fresh q ne = record {
  queue = insert_tail-append (init q) fresh.thread [] ne refl (init-IsQueue q);
  count = refl;
  running = ground arith;
}

-- enqueue_thread of a thread that is not NULL and not in the queue appends it to the threads of
-- the process, and the thread count stays the length of the queue, with a running thread among
-- them.
pub enqueue_thread-Owns :
    (parent thread : ℕ) (k : Kernel) (ts : List ℕ)
    → thread ≢ 0
    → has thread ts ≡ false
    → Owns (k.processes parent) ts
    → Owns ((enqueue_thread parent thread k).processes parent) (ts ++ (thread ∷ []))
unfolding enqueue_thread
enqueue_thread-Owns parent thread k ts ne out owns =
    let p = k.processes parent in
    let grown : Process = record p {
      threadq = insert_tail p.threadq thread;
      thread_count = p.thread_count + 1;
    } in
    let owned : Owns grown (ts ++ (thread ∷ [])) = record {
      queue = insert_tail-append p.threadq thread ts ne out owns.queue;
      count = omega (arith, owns.count, length-append ts (thread ∷ []));
      running = ground (arith, has-append p.running_thread ts (thread ∷ []), owns.running);
    } in
    rw (update_self k.processes parent grown) owned

-- For every thread that process_create_thread makes with a stack that is not at the end of the
-- address space, the initial stack pointer lies above the end of the block that was allocated for
-- the stack.
pub process_create_thread-rsp :
    (thread stack parent entry : ℕ)
    → thread ≢ 0
    → stack + 2 * stack_size < 2 ^ 64
    → (t : Thread) × (process_create_thread thread stack parent entry ≡ some t)
      × (stack + stack_size < t.tf.rsp)
process_create_thread-rsp thread stack parent entry ne room = (
  new_thread stack parent entry,
  process_create_thread_lem thread stack parent entry ne (omega arith),
  omega arith,
)
