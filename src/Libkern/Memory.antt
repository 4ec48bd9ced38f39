-- ===== src/Libkern/Memory.antt =====
-- sys/libkern/string.c: `memset`, `memzero` and `memcpy`, over memory as a function of the address.
use qnixx.Common.{
  ℕ, zero, suc, ◌+◌, ◌-◌, ◌≤◌, ◌<◌, ◌≡◌, ◌⊎◌, refl, arith, leb, ltb, ◌&&◌, if◌then◌else◌, update,
}
use qnixx.Common.Loop.{for_loop}

abbrev pub Memory : Type 0
Memory = ℕ → ℕ

unfoldable pub memset : Memory → ℕ → ℕ → ℕ → Memory
memset memory ptr byte n = for_loop n n 1 (λ i m. update m (ptr + i) byte) 0 memory

unfoldable pub memzero : Memory → ℕ → ℕ → Memory
memzero memory ptr n = for_loop n n 1 (λ i m. update m (ptr + i) 0) 0 memory

-- Each round reads the memory that the rounds before it have written.
unfoldable pub memcpy : Memory → ℕ → ℕ → ℕ → Memory
memcpy memory dst src n = for_loop n n 1 (λ i m. update m (dst + i) (m (src + i))) 0 memory

fill_loop :
    (ptr byte n f i a : ℕ) (m : Memory)
    → i + f ≡ n
    → for_loop f n 1 (λ i m. update m (ptr + i) byte) i m a
      ≡ (if leb (ptr + i) a && ltb a (ptr + n) then byte else m a)
unfolding for_loop
fill_loop ptr byte n zero i a m h = ground arith
fill_loop ptr byte n (suc f) i a m h =
    ground (arith, fill_loop ptr byte n f (i + 1) a (update m (ptr + i) byte))

-- `memset` writes the byte to the addresses of the block, and nowhere else.
pub memset_lem :
    (m : Memory) (ptr byte n a : ℕ)
    → memset m ptr byte n a ≡ (if leb ptr a && ltb a (ptr + n) then byte else m a)
unfolding memset
memset_lem m ptr byte n a = ground (arith, fill_loop ptr byte n n 0 a m)

pub memzero_lem :
    (m : Memory) (ptr n a : ℕ)
    → memzero m ptr n a ≡ (if leb ptr a && ltb a (ptr + n) then 0 else m a)
unfolding memzero
memzero_lem m ptr n a = ground (arith, fill_loop ptr 0 n n 0 a m)

copy_loop :
    (dst src n f i a : ℕ) (m old : Memory)
    → i + f ≡ n
    → (dst + n ≤ src) ⊎ (src + n ≤ dst)
    → ((b : ℕ) → b < n → m (src + b) ≡ old (src + b))
    → for_loop f n 1 (λ i m. update m (dst + i) (m (src + i))) i m a
      ≡ (if leb (dst + i) a && ltb a (dst + n) then old (src + (a - dst)) else m a)
unfolding for_loop
copy_loop dst src n zero i a m old h apart same = ground arith
copy_loop dst src n (suc f) i a m old h apart same = ground (
  arith,
  same i,
  copy_loop dst src n f (i + 1) a (update m (dst + i) (m (src + i))) old (omega arith) apart kept,
)
  where
    kept : (b : ℕ) → b < n → update m (dst + i) (m (src + i)) (src + b) ≡ old (src + b)
    kept b inside = ground (arith, same b)

-- Between blocks that do not overlap `memcpy` copies the block, and writes nowhere else.
pub memcpy_lem :
    (m : Memory) (dst src n a : ℕ)
    → (dst + n ≤ src) ⊎ (src + n ≤ dst)
    → memcpy m dst src n a ≡ (if leb dst a && ltb a (dst + n) then m (src + (a - dst)) else m a)
unfolding memcpy
memcpy_lem m dst src n a apart =
    ground (arith, copy_loop dst src n n 0 a m m (omega arith) apart (λ b _. refl))
