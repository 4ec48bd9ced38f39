-- ===== src/Amd64/Idt/Gates.antt =====
-- What the processor finds in the interrupt table, and the vectors that are given out.
use qnixx.Common.{
  ℕ, zero, suc, ◌+◌, ◌*◌, ◌/◌, ◌%◌, ◌^◌, ◌<◌, ◌≡◌, ◌≢◌, refl, sym, Option, none, some, none≢some,
  some_eq, true, ltb, bit_and, if◌then◌else◌, update_ne, arith, ◌==◌,
}
use qnixx.Common.BitLaws.{bit_and-ones}
use qnixx.Common.Word.{u8, u32}
use qnixx.Amd64.Idt.{
  Gate, Idt, gate_of, idt_set_desc, alloc_int_vector, Handler, register_exception,
  register_interrupt, register_irq, init_exceptions,
}
use qnixx.Amd64.Io.{Trace, Io, pure, ◌>>◌}

-- The address that the processor jumps to.
abbrev pub gate_address : Gate → ℕ
gate_address gate = gate.isr_low16 + gate.isr_mid16 * 2 ^ 16 + gate.isr_high32 * 2 ^ 32

halves :
    (isr : ℕ)
    → isr < 2 ^ 64
    → bit_and isr 0xFFFF + bit_and (isr / 2 ^ 16) 0xFFFF * 2 ^ 16 + u32 (isr / 2 ^ 32) * 2 ^ 32
      ≡ isr
halves isr fits = omega (arith, bit_and-ones 16 isr, bit_and-ones 16 (isr / 2 ^ 16))

-- The address and the type in a gate.
pub gate_of_lem :
    (isr flags : ℕ)
    → isr < 2 ^ 64
    → (gate_address (gate_of isr flags) ≡ isr) × ((gate_of isr flags).attr ≡ flags % 16)
gate_of_lem isr flags fits = (halves isr fits, omega (arith, bit_and-ones 4 (u8 flags)))

-- The vectors of the exceptions, as the processor numbers them.
abbrev pub vector_of : Handler → ℕ
vector_of Handler.divide_error = 0
vector_of Handler.debug_exception = 1
vector_of Handler.breakpoint = 3
vector_of Handler.overflow = 4
vector_of Handler.bound_range_exceeded = 5
vector_of Handler.invalid_opcode = 6
vector_of Handler.device_not_available = 7
vector_of Handler.double_fault = 8
vector_of Handler.invalid_tss = 10
vector_of Handler.segment_not_present = 11
vector_of Handler.stack_segment_fault = 12
vector_of Handler.general_protection_fault = 13
vector_of Handler.page_fault = 14

pub vector_of_small : (h : Handler) → vector_of h < 15
vector_of_small h = ground arith

-- After init_exceptions the gate at the vector of each exception is that of its handler.
pub init_exceptions_lem :
    (address : Handler → ℕ) (idt : Idt) (h : Handler)
    → init_exceptions address idt (vector_of h) ≡ gate_of (address h) 0x8F
unfolding init_exceptions register_exception idt_set_desc
init_exceptions_lem address idt Handler.divide_error = refl
init_exceptions_lem address idt Handler.debug_exception = refl
init_exceptions_lem address idt Handler.breakpoint = refl
init_exceptions_lem address idt Handler.overflow = refl
init_exceptions_lem address idt Handler.bound_range_exceeded = refl
init_exceptions_lem address idt Handler.invalid_opcode = refl
init_exceptions_lem address idt Handler.device_not_available = refl
init_exceptions_lem address idt Handler.double_fault = refl
init_exceptions_lem address idt Handler.invalid_tss = refl
init_exceptions_lem address idt Handler.segment_not_present = refl
init_exceptions_lem address idt Handler.stack_segment_fault = refl
init_exceptions_lem address idt Handler.general_protection_fault = refl
init_exceptions_lem address idt Handler.page_fault = refl

-- For a vector below 256 and a 64-bit address, the gate that idt_set_desc leaves at the vector
-- has the three parts of the address, which make the address again, and the low four bits of the
-- flags as its type.
pub gate_address-idt_set_desc :
    (idt : Idt) (vector isr flags : ℕ)
    → vector < 256
    → isr < 2 ^ 64
    → (gate_address (idt_set_desc idt vector isr flags vector) ≡ isr)
      × ((idt_set_desc idt vector isr flags vector).attr ≡ flags % 16)
unfolding idt_set_desc
gate_address-idt_set_desc idt vector isr flags small fits =
    let at : u8 vector ≡ vector = omega arith in
    let here : (vector == vector) ≡ true = ground arith in
    rw (at, here) (halves isr fits, omega (arith, bit_and-ones 4 (u8 flags)))

pub idt_set_desc_elsewhere :
    (idt : Idt) (vector isr flags other : ℕ)
    → vector < 256
    → other ≢ vector
    → idt_set_desc idt vector isr flags other ≡ idt other
unfolding idt_set_desc
idt_set_desc_elsewhere idt vector isr flags other small away = update_ne idt _ (omega (arith, away))

pub register_interrupt_self :
    (idt : Idt) (vector isr : ℕ)
    → vector < 256
    → register_interrupt idt vector isr vector ≡ gate_of isr 0x8E
unfolding register_interrupt idt_set_desc
register_interrupt_self idt vector isr small = ground arith

pub register_interrupt_elsewhere :
    (idt : Idt) (vector isr other : ℕ)
    → vector < 256
    → other ≢ vector
    → register_interrupt idt vector isr other ≡ idt other
unfolding register_interrupt
register_interrupt_elsewhere idt vector isr other small away =
    idt_set_desc_elsewhere idt vector isr 0x8E other small away

-- The state of `alloc_int_vector` after a number of calls.
unfoldable pub vectors_after : ℕ → ℕ
vectors_after zero = 0x81
vectors_after (suc k) = (alloc_int_vector (vectors_after k)).1

vectors_after_lem : (k : ℕ) → vectors_after k ≡ (if ltb k 126 then 0x81 + k else 255)
unfolding alloc_int_vector vectors_after
vectors_after_lem zero = refl
vectors_after_lem (suc k) = ground (arith, vectors_after_lem k)

-- The first 126 calls of alloc_int_vector return the vectors from 0x81 on in order, and every
-- later call returns 0.
pub alloc_int_vector_lem :
    (k : ℕ) → (alloc_int_vector (vectors_after k)).0 ≡ (if ltb k 126 then 0x81 + k else 0)
unfolding alloc_int_vector
alloc_int_vector_lem k = ground (arith, vectors_after_lem k)

module _ (remap : ℕ → Option ℕ) (set_entry : ℕ → ℕ → Io (Unit {0})) (isr : ℕ) (idt idt' : Idt) where
  line_cases :
      (o : Option ℕ) (irq : ℕ) (t : Trace)
      → (elim o as (λ _. Io (Option Idt)) [
        | none ↦ pure none
        | some entry ↦
            set_entry (u8 entry) (0x20 + irq)
            >> pure (some (register_interrupt idt (u8 (0x20 + irq)) isr))
      ]
          t).0
        ≡ some idt'
      → idt' ≡ register_interrupt idt (u8 (0x20 + irq)) isr
  line_cases none irq t done = absurd (none≢some done)
  line_cases (some entry) irq t done = sym (some_eq done)

  -- A line that is registered is at its vector.
  pub register_irq-registers :
      (irq : ℕ) (t : Trace)
      → (register_irq remap set_entry irq isr idt t).0 ≡ some idt'
      → idt' ≡ register_interrupt idt (u8 (0x20 + irq)) isr
  unfolding register_irq
  register_irq-registers irq t done = line_cases (remap irq) irq t done
