-- ===== src/Common/Word.antt =====
-- Machine words as native numbers, and the alignment macros of sys/include/lib/math.h.
use Prim.Native.Nat.{ℕ, ◌+◌, ◌-◌, ◌*◌, ◌/◌, ◌%◌, ◌^◌, ◌<◌, bit_and}
use mathlib.Core.Path.{◌≡◌, ◌∙◌, ap}
use native.Mathlib.Omega.{arith}
use qnixx.Common.BitLaws.{bit_and-shift, bit_and-ones}

abbrev pub u8 : ℕ → ℕ
u8 n = n % 2 ^ 8

abbrev pub u16 : ℕ → ℕ
u16 n = n % 2 ^ 16

abbrev pub u32 : ℕ → ℕ
u32 n = n % 2 ^ 32

abbrev pub u64 : ℕ → ℕ
u64 n = n % 2 ^ 64

-- `ALIGN_DOWN` of a 64-bit value: `& ~(align - 1)`.
unfoldable pub align_down : ℕ → ℕ → ℕ
align_down address align = bit_and address (2 ^ 64 - align)

-- `ALIGN_UP` of a 64-bit value.
unfoldable pub align_up : ℕ → ℕ → ℕ
align_up address align = bit_and (u64 (address + align - 1)) (2 ^ 64 - align)

and_page_mask : (a : ℕ) → bit_and a (2 ^ 64 - 4096) ≡ a / 4096 % 2 ^ 52 * 4096
and_page_mask a =
    bit_and-shift 12 a (2 ^ 52 - 1) ∙ ap (λ (t : ℕ). t * 4096) (bit_and-ones 52 (a / 4096))

-- Rounding down to a page.
pub align_down-page : (a : ℕ) → a < 2 ^ 64 → align_down a 4096 ≡ a / 4096 * 4096
unfolding align_down
align_down-page a h = omega (arith, and_page_mask a)

-- Rounding up to a page, where the sum does not wrap.
pub align_up-page : (a : ℕ) → a + 4095 < 2 ^ 64 → align_up a 4096 ≡ (a + 4095) / 4096 * 4096
unfolding align_up
align_up-page a h = omega (arith, and_page_mask (u64 (a + 4096 - 1)))
