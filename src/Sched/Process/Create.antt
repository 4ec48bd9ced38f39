-- ===== src/Sched/Process/Create.antt =====
-- `create_process` of sys/sched/process.c, with the process ID and the page table that it takes.
use qnixx.Common.{
  ℕ, ◌+◌, ◌^◌, ◌≤◌, ◌<◌, ◌≡◌, ◌≢◌, refl, Option, none, some, List, [], ◌∷◌, arith, leb, ◌==◌,
  if◌then◌else◌, length, ne→==, le→leb, update_self,
}
use qnixx.Libkern.Bitmap.{Bytes}
use qnixx.Libkern.Bitmap.Marked.{AreBytes}
use qnixx.Mm.Pmm.Usable.{IsUsable}
use qnixx.Mm.Vmm.{Vm, ◌>>=◌, vmm_make_pml4}
use qnixx.Mm.Vmm.Usable.{vmm_make_pml4-returns}
use qnixx.Sched.Queue.{Tailq}
use qnixx.Sched.Types.{Kernel, Pids}
use qnixx.Sched.Pid.{alloc_pid, alloc_pid-returns, pid_bytes}
use qnixx.Sched.Process.{
  name_max, stack_size, new_thread, new_process, with_process, Fresh, process_create_thread,
  process_create_thread_lem, Owns, new_process-Owns,
}

-- What the calls under `create_process` go by: a shift by 32 or more, `krealloc` of the IDs, the
-- offset of the higher half, and the rounds of the search for an ID.
pub record Services : Type 0 where
  pub undef : ℕ → ℕ → ℕ
  pub realloc : Bytes → ℕ → Option Bytes
  pub hhdm : ℕ
  pub fuel : ℕ

-- The kernel with other IDs and page tables.
abbrev pub with_ids : Pids → Vm → Kernel → Kernel
with_ids pids vm k = record k { pids = pids; vm = vm }

module _ (sv : Services) where
  -- The ID and the page table of a new process, `alloc_pid()` and `vmm_make_pml4()`.
  unfoldable pub take_ids : (pid_bits : Bytes) → Kernel → Option (ℕ × ℕ × Kernel)
  take_ids pid_bits k = do
    (pid, pids) ← alloc_pid sv.undef sv.realloc sv.fuel pid_bits k.pids
    (pml4, vm) ← vmm_make_pml4 sv.undef sv.hhdm k.vm
    some (pid, pml4, with_ids pids vm k)

  -- `none`: an assertion fails, or one of the two calls does not return.
  unfoldable pub create_process :
      (name : List ℕ) (user_id group_id entry : ℕ) → Fresh → Tailq → Kernel → Option (ℕ × Kernel)
  create_process name user_id group_id entry fresh q k =
      if leb (length name) name_max
      then if fresh.process == 0
        then none
        else elim (process_create_thread fresh.thread fresh.stack fresh.process entry) [
          | none ↦ none
          | some t ↦ do
            (pid, pml4, k') ← take_ids fresh.pid_bits k
            let p = new_process name user_id group_id pid pml4 fresh q
            some (fresh.process, with_process fresh t p k')
        ]
      else none

  unfoldable pub create_kernel_process :
      (name : List ℕ) (entry : ℕ) → Fresh → Tailq → Kernel → Option (ℕ × Kernel)
  unfolding create_process
  create_kernel_process name entry fresh q k = create_process name 0 0 entry fresh q k

  -- What a new process asks for: blocks that are not NULL and a stack that ends in the address
  -- space, usable memory, the bytes of the IDs, and rounds to find one.
  pub record Supplies (fresh : Fresh) (k : Kernel) : Type 0 where
    pub process : fresh.process ≢ 0
    pub thread : fresh.thread ≢ 0
    pub stack : fresh.stack + stack_size < 2 ^ 64
    pub usable : IsUsable k.vm.pmm
    pub bits : AreBytes (pid_bytes fresh.pid_bits k.pids)
    pub bytes : 0 < k.pids.bytes
    pub enough : 8 ≤ sv.fuel

  -- What the two calls give, and what they leave.
  pub record Taken (pid_bits : Bytes) (k : Kernel) (pid pml4 : ℕ) (pids : Pids) (vm : Vm)
      : Type 0 where
    pub id : alloc_pid sv.undef sv.realloc sv.fuel pid_bits k.pids ≡ some (pid, pids)
    pub table : vmm_make_pml4 sv.undef sv.hhdm k.vm ≡ some (pml4, vm)

  take_ids-returns :
      (fresh : Fresh) (k : Kernel)
      → Supplies fresh k
      → (pid pml4 : ℕ) × (pids : Pids) × (vm : Vm) × (take_ids fresh.pid_bits k
          ≡ some (pid, pml4, with_ids pids vm k))
        × Taken fresh.pid_bits k pid pml4 pids vm
  unfolding take_ids
  take_ids-returns fresh k given =
      let (pid, pids, id) =
        alloc_pid-returns sv.undef sv.realloc sv.fuel fresh.pid_bits k.pids given.bits given.bytes
          given.enough in
      let (pml4, vm, table, still) = vmm_make_pml4-returns sv.undef sv.hhdm k.vm given.usable in
      (pid, pml4, pids, vm, rw (id, take_ids) (rw table refl), record { id = id; table = table })

  pub create_process-returns :
      (name : List ℕ) (user_id group_id entry : ℕ) (fresh : Fresh) (q : Tailq) (k : Kernel)
      → length name ≤ name_max
      → Supplies fresh k
      → (pid pml4 : ℕ) × (pids : Pids) × (vm : Vm) × (create_process name user_id group_id entry
            fresh q k
          ≡ some (
            fresh.process,
            with_process fresh
                (new_thread fresh.stack fresh.process entry)
                (new_process name user_id group_id pid pml4 fresh q)
                (with_ids pids vm k),
          ))
        × Taken fresh.pid_bits k pid pml4 pids vm
  unfolding create_process
  create_process-returns name user_id group_id entry fresh q k short given =
      let (pid, pml4, pids, vm, run, taken) = take_ids-returns fresh k given in
      let made =
        process_create_thread_lem fresh.thread fresh.stack fresh.process entry given.thread
          given.stack in
      (
        pid,
        pml4,
        pids,
        vm,
        rw
            (
              le→leb (length name) name_max short,
              ne→== fresh.process 0 given.process,
              made,
              create_process,
            )
            (rw run refl),
        taken,
      )

  -- If the name has at most 255 bytes, the allocated process and thread are not NULL, the stack
  -- ends below 2^64, there is usable memory, the PID bitmap holds bytes and its length is not 0,
  -- and the search for a PID has 8 rounds or more, then create_process returns the process; its
  -- queue holds just the main thread, which is counted and running, that thread belongs to the
  -- process and starts at the entry point, and the PID and the page table are those that
  -- alloc_pid and vmm_make_pml4 return, whose states are left.
  pub create_process-Owns :
      (name : List ℕ) (user_id group_id entry : ℕ) (fresh : Fresh) (q : Tailq) (k : Kernel)
      → length name ≤ name_max
      → Supplies fresh k
      → (k' : Kernel) × (create_process name user_id group_id entry fresh q k
          ≡ some (fresh.process, k'))
        × Owns (k'.processes fresh.process) (fresh.thread ∷ [])
        × ((k'.processes fresh.process).running_thread ≡ fresh.thread)
        × ((k'.threads fresh.thread).parent ≡ fresh.process)
        × ((k'.threads fresh.thread).tf.rip ≡ entry)
        × Taken fresh.pid_bits k
            (k'.processes fresh.process).pid
            (k'.processes fresh.process).vaddrsp
            k'.pids
            k'.vm
  create_process-Owns name user_id group_id entry fresh q k short given =
      let (pid, pml4, pids, vm, run, taken) =
        create_process-returns name user_id group_id entry fresh q k short given in
      let t = new_thread fresh.stack fresh.process entry in
      let p = new_process name user_id group_id pid pml4 fresh q in
      let at = update_self k.processes fresh.process p in
      (
        with_process fresh t p (with_ids pids vm k),
        run,
        rw at (new_process-Owns name user_id group_id pid pml4 fresh q given.thread),
        ground arith,
        ground arith,
        ground arith,
        rw at taken,
      )
