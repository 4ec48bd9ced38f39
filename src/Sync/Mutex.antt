-- ===== src/Sync/Mutex.antt =====
-- sys/sync/mutex.c: a spin lock in one byte, and the threads that take it, interleaved in any order.
pub mod Exclusion
mod Tests
use qnixx.Common.{
  ℕ, zero, suc, ◌≡◌, Bool, true, false, not, Option, none, some, ◌==◌, if◌then◌else◌, update,
}

-- `__atomic_test_and_set`: whether the byte was set, and the byte that it leaves.
abbrev pub test_and_set : ℕ → Bool × ℕ
test_and_set lock = (not (lock == 0), 1)

-- `while (__atomic_test_and_set(lock, ...));` on fuel, where no other thread runs meanwhile.
unfoldable pub mutex_acquire : ℕ → ℕ → Option ℕ
mutex_acquire zero lock = none
mutex_acquire (suc fuel) lock =
    let again = mutex_acquire fuel (test_and_set lock).1 in
    if (test_and_set lock).0 then again else some (test_and_set lock).1

-- `__atomic_clear`
abbrev pub mutex_release : ℕ → ℕ
mutex_release lock = 0

-- Where a thread stands: it does not hold the lock, it is in the loop of `mutex_acquire`, or it is
-- between the return of `mutex_acquire` and `mutex_release`.
pub data Pc : Type 0 where
  outside acquiring inside : Pc

-- One atomic step of a thread, with the byte before and after.
pub data Move (lock : ℕ) : Pc → ℕ → Pc → Type 0 where
  call : Move lock outside lock acquiring
  win : (test_and_set lock).0 ≡ false → Move lock acquiring (test_and_set lock).1 inside
  spin : (test_and_set lock).0 ≡ true → Move lock acquiring (test_and_set lock).1 acquiring
  release : Move lock inside (mutex_release lock) outside

pub record System : Type 0 where
  pub lock : ℕ
  pub pc : ℕ → Pc

pub data Step (s : System) : System → Type 0 where
  pick :
      (i : ℕ) {lock : ℕ} {p : Pc}
      → Move s.lock (s.pc i) lock p
      → Step s (record { lock = lock; pc = update s.pc i p })

-- A `mutex_t` that is 0, as static locks are.
abbrev pub init : System
init = record { lock = 0; pc = λ _. outside }

pub data Reach : System → Type 0 where
  start : Reach init
  later : {s t : System} → Reach s → Step s t → Reach t
