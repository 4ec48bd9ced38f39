-- ===== src/Amd64/Cores/Flags.antt =====
-- The flags of a core are set and cleared in pairs.
use qnixx.Common.{
  ℕ, suc, ◌+◌, ◌-◌, ◌*◌, ◌/◌, ◌%◌, ◌^◌, ◌<◌, ◌≡◌, refl, ◌∙◌, ap, some, bit_and, bit_or, arith,
}
use qnixx.Common.Bits.{bit_and_step, bit_or_step}
use qnixx.Common.BitLaws.{bit_and-ones, bit_or-zero}
use qnixx.Common.Word.{u16}
use qnixx.Sched.Types.{Core}
use qnixx.Sync.Mutex.Exclusion.{mutex_acquire-free}
use qnixx.Amd64.Cores.{
  core_set_flags, core_clear_flags, irq_enter, irq_exit, critical_enter, critical_exit,
}

or_irq : (f : ℕ) → f / 2 % 2 ≡ 0 → bit_or f 2 ≡ f + 2
or_irq f clear = omega (arith, bit_or_step f 2, bit_or_step (f / 2) 1, bit_or-zero (f / 2 / 2))

and_not_irq : (f : ℕ) → f < 2 ^ 16 → bit_and f 0xFFFD ≡ f / 4 * 4 + f % 2
and_not_irq f small =
    omega (arith, bit_and_step f 0xFFFD, bit_and_step (f / 2) 0x7FFE, bit_and-ones 14 (f / 2 / 2))

or_critical : (f : ℕ) → f % 2 ≡ 0 → bit_or f 1 ≡ f + 1
or_critical f clear = omega (arith, bit_or_step f 1, bit_or-zero (f / 2))

and_not_critical : (f : ℕ) → f < 2 ^ 16 → bit_and f 0xFFFE ≡ f / 2 * 2
and_not_critical f small = omega (arith, bit_and_step f 0xFFFE, bit_and-ones 15 (f / 2))

core_set_flags-free :
    (fuel flags : ℕ) (core : Core)
    → core.lock ≡ 0
    → core_set_flags (suc fuel) flags core
      ≡ some (record core { flags = u16 (bit_or core.flags flags); lock = 0 })
unfolding core_set_flags
core_set_flags-free fuel flags core free = rw (free, mutex_acquire-free fuel, core_set_flags) refl

core_clear_flags-free :
    (fuel flags : ℕ) (core : Core)
    → core.lock ≡ 0
    → core_clear_flags (suc fuel) flags core
      ≡ some (record core { flags = bit_and core.flags (0xFFFF - flags); lock = 0 })
unfolding core_clear_flags
core_clear_flags-free fuel flags core free =
    rw (free, mutex_acquire-free fuel, core_clear_flags) refl

-- On a core whose lock is free, irq_enter marks it and irq_exit takes the mark away again.
pub irq_exit-irq_enter :
    (fuel : ℕ) (core : Core)
    → core.lock ≡ 0
    → core.flags < 2 ^ 16
    → core.flags / 2 % 2 ≡ 0
    → (irq_enter (suc fuel) core ≡ some (record core { flags = core.flags + 2; lock = 0 }))
      × (irq_exit (suc fuel) (record core { flags = core.flags + 2; lock = 0 })
          ≡ some (record core { lock = 0 }))
irq_exit-irq_enter fuel core free small clear = (
  core_set_flags-free fuel 2 core free
      ∙ ap (λ (f : ℕ). some (record core { flags = f; lock = 0 }))
          (omega (arith, or_irq core.flags clear)),
  core_clear_flags-free fuel 2 (record core { flags = core.flags + 2; lock = 0 }) refl
      ∙ ap (λ (f : ℕ). some (record core { flags = f; lock = 0 }))
          (omega (arith, and_not_irq (core.flags + 2) (omega (arith, small, clear)))),
)

-- The same of the mark of critical code.
pub critical_exit-critical_enter :
    (fuel : ℕ) (core : Core)
    → core.lock ≡ 0
    → core.flags < 2 ^ 16
    → core.flags % 2 ≡ 0
    → (critical_enter (suc fuel) core ≡ some (record core { flags = core.flags + 1; lock = 0 }))
      × (critical_exit (suc fuel) (record core { flags = core.flags + 1; lock = 0 })
          ≡ some (record core { lock = 0 }))
critical_exit-critical_enter fuel core free small clear = (
  core_set_flags-free fuel 1 core free
      ∙ ap (λ (f : ℕ). some (record core { flags = f; lock = 0 }))
          (omega (arith, or_critical core.flags clear)),
  core_clear_flags-free fuel 1 (record core { flags = core.flags + 1; lock = 0 }) refl
      ∙ ap (λ (f : ℕ). some (record core { flags = f; lock = 0 }))
          (omega (arith, and_not_critical (core.flags + 1) (omega (arith, small, clear)))),
)
