-- ===== src/Amd64/Idt.antt =====
-- sys/amd64/idt.c, sys/amd64/interrupts.c and sys/amd64/exceptions.c: the interrupt table and who
-- registers in it. An address of a handler is a 64-bit number.
pub mod Gates
pub mod Fields
use qnixx.Common.{Option, none, some, ℕ, ◌+◌, ◌*◌, ◌/◌, ◌^◌, leb, if◌then◌else◌, bit_and, update}
use qnixx.Common.Word.{u8, u32, u64}
use qnixx.Amd64.Io.{Io, pure, ◌>>◌}

-- `idt_gate_descriptor_t`
pub record Gate : Type 0 where
  pub isr_low16 : ℕ
  pub cs : ℕ
  pub ist : ℕ
  pub zero_bits : ℕ
  pub attr : ℕ
  pub zero1 : ℕ
  pub dpl : ℕ
  pub p : ℕ
  pub isr_mid16 : ℕ
  pub isr_high32 : ℕ
  pub reserved : ℕ

abbrev pub Idt : Type 0
Idt = ℕ → Gate

-- The gate as it is filled in. `attr` has four bits.
abbrev pub gate_of : (isr flags : ℕ) → Gate
gate_of isr flags = record {
  isr_low16 = bit_and isr 0xFFFF;
  isr_mid16 = bit_and (isr / 2 ^ 16) 0xFFFF;
  isr_high32 = u32 (isr / 2 ^ 32);
  cs = 0x28;
  ist = 0;
  zero_bits = 0;
  zero1 = 0;
  reserved = 0;
  dpl = 3;
  p = 1;
  attr = bit_and (u8 flags) 0xF;
}

unfoldable pub idt_set_desc : Idt → (vector isr flags : ℕ) → Idt
idt_set_desc idt vector isr flags = update idt (u8 vector) (gate_of isr flags)

unfoldable pub register_interrupt : Idt → (vector isr : ℕ) → Idt
register_interrupt idt vector isr = idt_set_desc idt vector isr 0x8E

unfoldable pub register_exception : Idt → (vector isr : ℕ) → Idt
register_exception idt vector isr = idt_set_desc idt vector isr 0x8F

-- With `acpi_remap_irq` and `ioapic_set_entry` as arguments. `none`: the first does not end.
unfoldable pub register_irq :
    (remap : ℕ → Option ℕ)
    → (set_entry : ℕ → ℕ → Io (Unit {0})) → (irq isr : ℕ) → Idt
    → Io (Option Idt)
register_irq remap set_entry irq isr idt =
    let registered = register_interrupt idt (u8 (0x20 + irq)) isr in
    elim (remap irq) [
      | none ↦ pure none
      | some entry ↦ do set_entry (u8 entry) (0x20 + irq); pure (some registered)
    ]

-- The vector that is given, with the next state of the static variable.
unfoldable pub alloc_int_vector : ℕ → ℕ × ℕ
alloc_int_vector vector = if leb 255 vector then (0, vector) else (vector, u8 (vector + 1))

-- The handlers of sys/amd64/exceptions.c.
pub data Handler : Type 0 where
  divide_error debug_exception breakpoint overflow bound_range_exceeded invalid_opcode : Handler
  device_not_available double_fault invalid_tss segment_not_present stack_segment_fault : Handler
  general_protection_fault page_fault : Handler

-- What a handler does after its message: it returns, or it halts in `abort`.
pub data Outcome : Type 0 where
  returns halts : Outcome

abbrev pub handle : Handler → Outcome
handle Handler.debug_exception = Outcome.returns
handle Handler.breakpoint = Outcome.returns
handle Handler.overflow = Outcome.returns
handle Handler.divide_error = Outcome.halts
handle Handler.bound_range_exceeded = Outcome.halts
handle Handler.invalid_opcode = Outcome.halts
handle Handler.device_not_available = Outcome.halts
handle Handler.double_fault = Outcome.halts
handle Handler.invalid_tss = Outcome.halts
handle Handler.segment_not_present = Outcome.halts
handle Handler.stack_segment_fault = Outcome.halts
handle Handler.general_protection_fault = Outcome.halts
handle Handler.page_fault = Outcome.halts

-- With the addresses of the handlers.
unfoldable pub init_exceptions : (Handler → ℕ) → Idt → Idt
init_exceptions address idt =
    let idt = register_exception idt 0x0 (address Handler.divide_error) in
    let idt = register_exception idt 0x1 (address Handler.debug_exception) in
    let idt = register_exception idt 0x3 (address Handler.breakpoint) in
    let idt = register_exception idt 0x4 (address Handler.overflow) in
    let idt = register_exception idt 0x5 (address Handler.bound_range_exceeded) in
    let idt = register_exception idt 0x6 (address Handler.invalid_opcode) in
    let idt = register_exception idt 0x7 (address Handler.device_not_available) in
    let idt = register_exception idt 0x8 (address Handler.double_fault) in
    let idt = register_exception idt 0xA (address Handler.invalid_tss) in
    let idt = register_exception idt 0xB (address Handler.segment_not_present) in
    let idt = register_exception idt 0xC (address Handler.stack_segment_fault) in
    let idt = register_exception idt 0xD (address Handler.general_protection_fault) in
    register_exception idt 0xE (address Handler.page_fault)
