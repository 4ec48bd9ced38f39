-- ===== src/Amd64/Idt/Fields.antt =====
-- The bit fields of the gates, in every table that registrations lead to.
use qnixx.Common.{
  ℕ, ◌+◌, ◌/◌, ◌^◌, ◌<◌, ◌≡◌, ◌⊎◌, inl, inr, refl, Bool-cases, Option, some, ◌==◌, arith,
}
use qnixx.Common.BitLaws.{bit_and-ones}
use qnixx.Common.Word.{u8}
use qnixx.Amd64.Io.{Trace, Io}
use qnixx.Amd64.Idt.Gates.{register_irq-registers}
use qnixx.Amd64.Idt.{
  Gate, Idt, Handler, gate_of, idt_set_desc, register_interrupt, register_exception, register_irq,
  init_exceptions,
}

-- Every field fits the width that it is declared with.
pub record Fits (gate : Gate) : Type 0 where
  pub isr_low16 : gate.isr_low16 < 2 ^ 16
  pub cs : gate.cs < 2 ^ 16
  pub ist : gate.ist < 2 ^ 2
  pub zero_bits : gate.zero_bits < 2 ^ 4
  pub attr : gate.attr < 2 ^ 4
  pub zero1 : gate.zero1 < 2
  pub dpl : gate.dpl < 2 ^ 2
  pub p : gate.p < 2
  pub isr_mid16 : gate.isr_mid16 < 2 ^ 16
  pub isr_high32 : gate.isr_high32 < 2 ^ 32
  pub reserved : gate.reserved < 2 ^ 32

-- A present gate of the kernel's code segment, for interrupts (0xE) or exceptions (0xF).
pub record IsPresent (gate : Gate) : Type 0 where
  pub p : gate.p ≡ 1
  pub cs : gate.cs ≡ 0x28
  pub attr : (gate.attr ≡ 0xE) ⊎ (gate.attr ≡ 0xF)
  pub zeros : (gate.ist ≡ 0) × (gate.zero_bits ≡ 0) × (gate.zero1 ≡ 0) × (gate.reserved ≡ 0)

-- The tables that the calls of the kernel lead to.
pub data Reached (start : Idt) : Idt → Type 0 where
  begin : Reached start start
  interrupt :
      (idt : Idt) (vector isr : ℕ)
      → Reached start idt
      → Reached start (register_interrupt idt vector isr)
  exception :
      (idt : Idt) (vector isr : ℕ)
      → Reached start idt
      → Reached start (register_exception idt vector isr)
  exceptions :
      (idt : Idt) (address : Handler → ℕ)
      → Reached start idt
      → Reached start (init_exceptions address idt)
  irq :
      (remap : ℕ → Option ℕ) (set_entry : ℕ → ℕ → Io (Unit {0})) (line isr : ℕ) (idt idt' : Idt)
      (t : Trace)
      → Reached start idt
      → (register_irq remap set_entry line isr idt t).0 ≡ some idt'
      → Reached start idt'

gate_of-Fits : (isr flags : ℕ) → Fits (gate_of isr flags)
gate_of-Fits isr flags = record {
  isr_low16 = omega (arith, bit_and-ones 16 isr);
  cs = omega arith;
  ist = omega arith;
  zero_bits = omega arith;
  attr = omega (arith, bit_and-ones 4 (u8 flags));
  zero1 = omega arith;
  dpl = omega arith;
  p = omega arith;
  isr_mid16 = omega (arith, bit_and-ones 16 (isr / 2 ^ 16));
  isr_high32 = omega arith;
  reserved = omega arith;
}

-- What holds of every gate of a table.
abbrev Sound : Gate → Gate → Type 0
Sound before gate = Fits gate × ((gate ≡ before) ⊎ IsPresent gate)

abbrev IsSound : Idt → Idt → Type 0
IsSound start idt = (v : ℕ) → Sound (start v) (idt v)

idt_set_desc-IsSound :
    (start idt : Idt) (vector isr flags : ℕ)
    → ((gate_of isr flags).attr ≡ 0xE) ⊎ ((gate_of isr flags).attr ≡ 0xF)
    → IsSound start idt
    → IsSound start (idt_set_desc idt vector isr flags)
unfolding idt_set_desc
idt_set_desc-IsSound start idt vector isr flags type sound v = elim (Bool-cases (v == u8 vector)) [
  | inl here ↦ rw here (
    gate_of-Fits isr flags,
    inr (record { p = refl; cs = refl; attr = type; zeros = (refl, refl, refl, refl) }),
  )
  | inr away ↦ rw away (sound v)
]

register_interrupt-IsSound :
    (start idt : Idt) (vector isr : ℕ)
    → IsSound start idt
    → IsSound start (register_interrupt idt vector isr)
unfolding register_interrupt
register_interrupt-IsSound start idt vector isr sound =
    idt_set_desc-IsSound start idt vector isr 0x8E (inl refl) sound

register_exception-IsSound :
    (start idt : Idt) (vector isr : ℕ)
    → IsSound start idt
    → IsSound start (register_exception idt vector isr)
unfolding register_exception
register_exception-IsSound start idt vector isr sound =
    idt_set_desc-IsSound start idt vector isr 0x8F (inr refl) sound

init_exceptions-IsSound :
    (start idt : Idt) (address : Handler → ℕ)
    → IsSound start idt
    → IsSound start (init_exceptions address idt)
unfolding init_exceptions
init_exceptions-IsSound start idt address sound =
    let next : (idt : Idt) (vector isr : ℕ)
        → IsSound start idt
        → IsSound start (register_exception idt vector isr) =
      register_exception-IsSound start in
    next _ 0xE _ (
      next _ 0xD _ (
        next _ 0xC _ (
          next _ 0xB _ (
            next _ 0xA _ (
              next _ 0x8 _ (
                next _ 0x7 _ (
                  next _ 0x6 _ (
                    next _ 0x5 _
                      (next _ 0x4 _ (next _ 0x3 _ (next _ 0x1 _ (next _ 0x0 _ sound))))))))))))

register_irq-IsSound :
    (start : Idt) (remap : ℕ → Option ℕ) (set_entry : ℕ → ℕ → Io (Unit {0})) (line isr : ℕ)
    (idt idt' : Idt) (t : Trace)
    → IsSound start idt
    → (register_irq remap set_entry line isr idt t).0 ≡ some idt'
    → IsSound start idt'
register_irq-IsSound start remap set_entry line isr idt idt' t sound done v =
    let same = register_irq-registers remap set_entry isr idt idt' line t done in
    rw same (register_interrupt-IsSound start idt (u8 (0x20 + line)) isr sound v)

-- If every field of the gates of a table fits its width, it does so in every table that calls of
-- register_interrupt, register_exception, register_irq and init_exceptions lead to, and each gate
-- there is as it was at the start or is a present interrupt or trap gate of the kernel code
-- segment with zeros in its reserved fields.
pub Reached-IsSound :
    (start idt : Idt)
    → ((v : ℕ) → Fits (start v))
    → Reached start idt
    → (v : ℕ) → Fits (idt v) × ((idt v ≡ start v) ⊎ IsPresent (idt v))
Reached-IsSound start _ fits begin = λ v. (fits v, inl refl)
Reached-IsSound start _ fits (interrupt idt vector isr before) =
    register_interrupt-IsSound start idt vector isr (Reached-IsSound start idt fits before)
Reached-IsSound start _ fits (exception idt vector isr before) =
    register_exception-IsSound start idt vector isr (Reached-IsSound start idt fits before)
Reached-IsSound start _ fits (exceptions idt address before) =
    init_exceptions-IsSound start idt address (Reached-IsSound start idt fits before)
Reached-IsSound start idt' fits (irq remap set_entry line isr idt _ t before done) =
    register_irq-IsSound start remap set_entry line isr idt idt' t
      (Reached-IsSound start idt fits before) done
