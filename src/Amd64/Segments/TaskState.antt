-- ===== src/Amd64/Segments/TaskState.antt =====
-- The addresses that the processor reads from the task state and its descriptor.
use qnixx.Common.{ℕ, ◌+◌, ◌-◌, ◌*◌, ◌/◌, ◌^◌, ◌<◌, ◌≡◌, arith}
use qnixx.Common.BitLaws.{bit_and-ones, bit_and-mod}
use qnixx.Common.Word.{u64}
use qnixx.Amd64.Segments.{TssDesc, TssEntry, write_tss}

-- The base in the descriptor, and the stack for ring 0 in the task state.
abbrev pub tss_base : TssDesc → ℕ
tss_base desc =
    desc.base_addr_low
    + desc.base_addr_middle * 2 ^ 16
    + desc.base_addr_other_middle * 2 ^ 24
    + desc.base_addr_upper * 2 ^ 32

abbrev pub rsp0 : TssEntry → ℕ
rsp0 tss = tss.rsp0_low + tss.rsp0_high * 2 ^ 32

-- The base and the stack are the addresses that write_tss was given and allocated.
pub tss_base-write_tss :
    (desc : TssDesc) (tss block : ℕ)
    → tss < 2 ^ 64
    → block + 0x4FF < 2 ^ 64
    → (tss_base (write_tss desc tss block).0 ≡ tss)
      × (rsp0 (write_tss desc tss block).1 ≡ block + 0x4FF)
unfolding write_tss
tss_base-write_tss desc tss block fits room = (
  omega (arith, bit_and-ones 16 tss, bit_and-ones 8 (tss / 2 ^ 16), bit_and-ones 8 (tss / 2 ^ 24)),
  omega (arith, bit_and-mod 32 (u64 (block + (0x500 - 1)))),
)
