-- ===== src/Libkern/String/Reverse.antt =====
-- Swapping the ends reverses the bytes.
use qnixx.Common.{ℕ, zero, suc, ◌+◌, ◌-◌, ◌*◌, ◌≤◌, ◌≡◌, ◌&&◌, leb, if◌then◌else◌, update, arith}
use qnixx.Libkern.String.{Chars, swap_ends}

pub swap_ends_lem :
    (fuel j i : ℕ) (s : Chars) (k : ℕ)
    → i ≤ j + 2 * fuel
    → swap_ends fuel j i s k ≡ (if leb j k && leb k i then s (j + i - k) else s k)
unfolding swap_ends
swap_ends_lem zero j i s k enough = ground arith
swap_ends_lem (suc fuel) j i s k enough =
    ground (
      arith,
      swap_ends_lem fuel (j + 1) (i - 1) (update (update s j (s i)) i (s j)) k (omega arith),
    )
