-- ===== src/Sched/Pid.antt =====
-- sys/sched/process.c: process IDs, taken from a bitmap.
use qnixx.Common.{
  ℕ, zero, suc, ◌+◌, ◌-◌, ◌/◌, ◌≤◌, ◌<◌, ◌≡◌, refl, ◌∙◌, true, false, Option, none, some, arith,
  ltb, if◌then◌else◌, le→ltb,
}
use qnixx.Common.{Bool-cases, Option-cases, inl, inr}
use qnixx.Libkern.Bitmap.{Bytes, is_set, set_bit, unset_bit}
use qnixx.Libkern.Bitmap.Marked.{AreBytes, bit_of, bit_of-set_bit, set_bit-AreBytes}
use qnixx.Libkern.Bitmap.Tested.{test_bit-low, test_bit-high}
use qnixx.Sched.Types.{Pids}

-- `undef` is what a shift by 32 or more gives. `realloc` is what `krealloc` makes of the bytes and
-- the new size; `none` is the failed assertion on its result.
module _ (undef : ℕ → ℕ → ℕ) (realloc : Bytes → ℕ → Option Bytes) where
  -- The growth test of one round.
  grow : Bytes → ℕ → ℕ → Option (Bytes × ℕ)
  grow bitmap bytes i =
      if ltb bytes (i / 8)
      then elim (realloc bitmap (bytes + 1 + 2)) [ none ↦ none | some b ↦ some (b, bytes + 1) ]
      else some (bitmap, bytes)

  -- The loop from `i` on; `none` also when the fuel runs out.
  pid_loop : ℕ → ℕ → Bytes → ℕ → Option (ℕ × Pids)
  pid_loop zero i bitmap bytes = none
  pid_loop (suc fuel) i bitmap bytes = elim (grow bitmap bytes i) [
    | none ↦ none
    | some (b, n) ↦ elim (is_set undef b i) [
      | true ↦ pid_loop fuel (i + 1) b n
      | false ↦ some (i, record { bitmap = some (set_bit b i); bytes = n })
    ]
  ]

  -- `fresh` is what `kmalloc` returns for the first byte: it is not cleared.
  pub alloc_pid : ℕ → Bytes → Pids → Option (ℕ × Pids)
  alloc_pid fuel fresh s = elim s.bitmap [
    | none ↦ pid_loop fuel 1 fresh s.bytes
    | some bitmap ↦ pid_loop fuel 1 bitmap s.bytes
  ]

-- `none`: the assertion fails, or the bitmap is NULL.
pub free_pid : Pids → ℕ → Option Pids
free_pid s pid =
    if ltb 0 pid
    then elim s.bitmap [
      | none ↦ none
      | some bitmap ↦ some (record s { bitmap = some (unset_bit bitmap pid) })
    ]
    else none

module _ (undef : ℕ → ℕ → ℕ) (realloc : Bytes → ℕ → Option Bytes) (b : Bytes) (bytes : AreBytes b)
    (n : ℕ) (one : 0 < n) where
  pid_low_taken :
      (fuel i : ℕ)
      → 0 < i
      → i < 8
      → bit_of b i ≡ 1
      → pid_loop undef realloc (suc fuel) i b n ≡ pid_loop undef realloc fuel (i + 1) b n
  unfolding pid_loop grow is_set
  pid_low_taken fuel i pos low taken =
      rw (le→ltb n (i / 8) (omega arith), pid_loop, grow)
        (rw (test_bit-low undef b bytes i low, taken, is_set) refl)

  pid_found :
      (fuel i : ℕ)
      → i < 16
      → is_set undef b i ≡ false
      → pid_loop undef realloc (suc fuel) i b n
        ≡ some (i, record { bitmap = some (set_bit b i); bytes = n })
  unfolding pid_loop grow
  pid_found fuel i small free = rw (le→ltb n (i / 8) (omega arith), pid_loop, grow) (rw free refl)

  -- All of 1 to `k - 1` are taken, and `k` is reported free.
  pid_first :
      (fuel d i k : ℕ)
      → i + d ≡ k
      → 0 < i
      → k ≤ 8
      → d < fuel
      → ((j : ℕ) → i ≤ j → j < k → bit_of b j ≡ 1)
      → is_set undef b k ≡ false
      → pid_loop undef realloc fuel i b n
        ≡ some (k, record { bitmap = some (set_bit b k); bytes = n })
  pid_first zero d i k at pos low enough taken free = absurd (omega arith)
  pid_first (suc fuel) zero i k at pos low enough taken free =
      let same : i ≡ k = omega arith in rw same (pid_found fuel k (omega arith) free)
  pid_first (suc fuel) (suc d) i k at pos low enough taken free =
      rw (pid_low_taken fuel i pos (omega arith) (taken i (omega arith) (omega arith))) (
        pid_first fuel d (i + 1) k (omega arith) (omega arith) low (omega arith)
          (λ j from to. taken j (omega arith) to) free)

  low_reported : (k : ℕ) → k < 8 → bit_of b k ≡ 0 → is_set undef b k ≡ false
  unfolding is_set
  low_reported k low zero_bit = rw (test_bit-low undef b bytes k low, zero_bit) refl

  eight_reported : is_set undef b 8 ≡ false
  unfolding is_set
  eight_reported = rw (test_bit-high undef b bytes 8 (omega arith) (omega arith)) refl

  -- If the PIDs from 1 to k - 1 are taken and k is free, with k below 8, alloc_pid returns k and
  -- marks it, within k rounds of its loop.
  pub alloc_pid-least :
      (fuel k : ℕ) (fresh : Bytes)
      → 0 < k
      → k < 8
      → k ≤ fuel
      → ((j : ℕ) → 1 ≤ j → j < k → bit_of b j ≡ 1)
      → bit_of b k ≡ 0
      → alloc_pid undef realloc fuel fresh (record { bitmap = some b; bytes = n })
        ≡ some (k, record { bitmap = some (set_bit b k); bytes = n })
  unfolding alloc_pid
  alloc_pid-least fuel k fresh pos low enough taken zero_bit =
      pid_first fuel (k - 1) 1 k (omega arith) (omega arith) (omega arith) (omega arith) taken
        (low_reported k low zero_bit)

  pid_next :
      (fuel i : ℕ)
      → i < 16
      → is_set undef b i ≡ true
      → pid_loop undef realloc (suc fuel) i b n ≡ pid_loop undef realloc fuel (i + 1) b n
  unfolding pid_loop grow
  pid_next fuel i small taken = rw (le→ltb n (i / 8) (omega arith), pid_loop, grow) (rw taken refl)

  -- From `i` on a PID is found at 8 at the latest.
  pid_any :
      (fuel d i : ℕ)
      → i + d ≡ 8
      → 0 < i
      → d < fuel
      → (r : ℕ × Pids) × (pid_loop undef realloc fuel i b n ≡ some r)
  pid_any zero d i at pos enough = absurd (omega arith)
  pid_any (suc fuel) zero i at pos enough =
      let same : i ≡ 8 = omega arith in
      (
        (8, record { bitmap = some (set_bit b 8); bytes = n }),
        rw same (pid_found fuel 8 (omega arith) eight_reported),
      )
  pid_any (suc fuel) (suc d) i at pos enough = elim (Bool-cases (is_set undef b i)) [
    | inl taken ↦
        let (r, found) = pid_any fuel d (i + 1) (omega arith) (omega arith) (omega arith) in
        (r, pid_next fuel i (omega arith) taken ∙ found)
    | inr free ↦ (_, pid_found fuel i (omega arith) free)
  ]

  alloc_eight :
      (fuel : ℕ) (fresh : Bytes)
      → 8 ≤ fuel
      → ((j : ℕ) → 1 ≤ j → j < 8 → bit_of b j ≡ 1)
      → alloc_pid undef realloc fuel fresh (record { bitmap = some b; bytes = n })
        ≡ some (8, record { bitmap = some (set_bit b 8); bytes = n })
  unfolding alloc_pid
  alloc_eight fuel fresh enough taken =
      pid_first fuel 7 1 8 refl (omega arith) (omega arith) (omega arith) taken eight_reported

-- The bytes that `alloc_pid` looks into.
abbrev pub pid_bytes : (fresh : Bytes) → Pids → Bytes
pid_bytes fresh s = elim s.bitmap [ none ↦ fresh | some bitmap ↦ bitmap ]

module _ (undef : ℕ → ℕ → ℕ) (realloc : Bytes → ℕ → Option Bytes) where
  alloc_pid-pid_loop :
      (fuel : ℕ) (fresh : Bytes) (s : Pids)
      → alloc_pid undef realloc fuel fresh s
        ≡ pid_loop undef realloc fuel 1 (pid_bytes fresh s) s.bytes
  unfolding alloc_pid
  alloc_pid-pid_loop fuel fresh s = elim (Option-cases s.bitmap) [
    | inl null ↦ rw (null, alloc_pid) refl
    | inr (bitmap, at) ↦ rw (at, alloc_pid) refl
  ]

  -- The bitmap of bytes may be NULL: the first eight PIDs are looked at, and the eighth is reported
  -- free whatever it is, so that alloc_pid returns.
  pub alloc_pid-returns :
      (fuel : ℕ) (fresh : Bytes) (s : Pids)
      → AreBytes (pid_bytes fresh s)
      → 0 < s.bytes
      → 8 ≤ fuel
      → (pid : ℕ) × (s' : Pids) × (alloc_pid undef realloc fuel fresh s ≡ some (pid, s'))
  alloc_pid-returns fuel fresh s bytes one enough =
      let ((pid, s'), found) =
        pid_any undef realloc (pid_bytes fresh s) bytes s.bytes one fuel 7 1 refl (omega arith)
          (omega arith) in
      (pid, s', alloc_pid-pid_loop fuel fresh s ∙ found)

-- Once the PIDs 1 to 7 are taken, two calls of alloc_pid in a row both return 8, whatever the
-- other bits are, whatever krealloc does and whatever a shift by 32 or more gives: PIDs are not
-- unique.
pub alloc_pid_twice :
    (undef : ℕ → ℕ → ℕ) (realloc : Bytes → ℕ → Option Bytes) (b fresh : Bytes) (n fuel : ℕ)
    → AreBytes b
    → 0 < n
    → 8 ≤ fuel
    → ((j : ℕ) → 1 ≤ j → j < 8 → bit_of b j ≡ 1)
    → (s t : Pids) × (alloc_pid undef realloc fuel fresh (record { bitmap = some b; bytes = n })
        ≡ some (8, s))
      × (alloc_pid undef realloc fuel fresh s ≡ some (8, t))
alloc_pid_twice undef realloc b fresh n fuel bytes one enough taken = (
  record { bitmap = some (set_bit b 8); bytes = n },
  record { bitmap = some (set_bit (set_bit b 8) 8); bytes = n },
  alloc_eight undef realloc b bytes n one fuel fresh enough taken,
  alloc_eight undef realloc (set_bit b 8) (set_bit-AreBytes b bytes 8) n one fuel fresh enough
      (λ j from to. bit_of-set_bit b bytes 8 j ∙ ground (arith, taken j from to)),
)
