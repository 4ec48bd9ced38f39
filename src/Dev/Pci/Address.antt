-- ===== src/Dev/Pci/Address.antt =====
-- The configuration address: its fields do not overlap.
use qnixx.Common.{ℕ, ◌+◌, ◌*◌, ◌/◌, ◌^◌, ◌<◌, ◌≡◌, ◌∙◌, ap, arith, bit_and, bit_or}
use qnixx.Common.BitLaws.{bit_and-ones, bit_and-shift, bit_or-add}
use qnixx.Common.Word.{u32}
use qnixx.Dev.Pci.{config_addr}

and_fc : (offset : ℕ) → offset < 256 → bit_and offset 0xFC ≡ offset / 4 * 4
and_fc offset small =
    bit_and-shift 2 offset 63 ∙ ap (λ (t : ℕ). t * 4) (bit_and-ones 6 (offset / 4)) ∙ omega arith

or_bus : (bus : ℕ) → bus < 256 → bit_or (2 ^ 31) (bus * 2 ^ 16) ≡ (2 ^ 15 + bus) * 2 ^ 16
or_bus bus b = bit_or-add 31 1 (bus * 2 ^ 16) (omega arith) ∙ omega arith

or_slot :
    (high slot : ℕ)
    → slot < 32
    → bit_or (high * 2 ^ 16) (slot * 2 ^ 11) ≡ (high * 32 + slot) * 2 ^ 11
or_slot high slot s = bit_or-add 16 high (slot * 2 ^ 11) (omega arith) ∙ omega arith

or_func :
    (high func : ℕ) → func < 8 → bit_or (high * 2 ^ 11) (func * 2 ^ 8) ≡ (high * 8 + func) * 2 ^ 8
or_func high func s = bit_or-add 11 high (func * 2 ^ 8) (omega arith) ∙ omega arith

-- For a bus below 256, a slot below 32, a function below 8 and an offset below 256, the bitwise
-- or that makes the configuration address is the sum of the enable bit, the bus times 2^16, the
-- slot times 2^11, the function times 2^8 and the offset rounded down to a multiple of 4.
pub config_addr_lem :
    (bus slot func offset : ℕ)
    → bus < 256
    → slot < 32
    → func < 8
    → offset < 256
    → config_addr bus slot func offset
      ≡ 2 ^ 31 + bus * 2 ^ 16 + slot * 2 ^ 11 + func * 2 ^ 8 + offset / 4 * 4
unfolding config_addr
config_addr_lem bus slot func offset b s f o =
    let wb : u32 (bus * 2 ^ 16) ≡ bus * 2 ^ 16 = omega arith in
    let ws : u32 (slot * 2 ^ 11) ≡ slot * 2 ^ 11 = omega arith in
    let wf : u32 (func * 2 ^ 8) ≡ func * 2 ^ 8 = omega arith in
    let high = (2 ^ 15 + bus) * 32 + slot in
    rw
      (
        wb,
        ws,
        wf,
        and_fc offset o,
        or_bus bus b,
        or_slot (2 ^ 15 + bus) slot s,
        or_func high func f,
        bit_or-add 8 (high * 8 + func) (offset / 4 * 4) (omega arith),
      )
      (omega arith)
