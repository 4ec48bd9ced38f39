-- ===== src/Amd64/Apic.antt =====
-- sys/amd64/ioapic.c and sys/amd64/lapic.c: the interrupt controllers, whose registers lie in memory
-- at a base address in the higher half.
pub mod Lapic
pub mod Calibrate
pub mod Redirection
use qnixx.Common.{ℕ, ◌+◌, ◌*◌, ◌/◌, ◌^◌, bit_and}
use qnixx.Common.Word.{u8, u32, u64}
use qnixx.Amd64.Io.{Hardware, Io, pure, ◌>>=◌, ◌>>◌, emit, store, load, each, receive}

-- `base` is `g_ioapic_mmio_base + VMM_HIGHER_HALF`: a register is selected, then written.
unfoldable pub write_mmio : ℕ → (reg value : ℕ) → Io (Unit {0})
write_mmio base reg value = do
  emit (store 32 base (u8 reg))
  emit (store 32 (u64 (base + 0x10)) (u32 value))

unfoldable pub read_mmio : Hardware → ℕ → (reg : ℕ) → Io ℕ
read_mmio hw base reg = do
  emit (store 32 base (u8 reg))
  value ← receive hw (load 32 (u64 (base + 0x10)))
  pure (u32 value)

unfoldable pub ioapic_set_entry : ℕ → (index entry : ℕ) → Io (Unit {0})
ioapic_set_entry base index entry = do
  write_mmio base (0x10 + u8 index * 2) (u32 entry)
  write_mmio base (0x10 + u8 index * 2 + 1) (u32 (entry / 2 ^ 32))

-- Every entry of the redirection table is masked.
unfoldable pub ioapic_init : Hardware → ℕ → Io (Unit {0})
ioapic_init hw base = do
  version ← read_mmio hw base 0x01
  each (bit_and (version / 2 ^ 16) 0xFF + 1) 0 (λ i. ioapic_set_entry base i (2 ^ 16))
