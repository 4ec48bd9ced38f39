-- ===== src/Dev/Hpet/Found.antt =====
-- The start of a timer that is in the tables and has what the kernel asks for.
use qnixx.Common.{
  ℕ, ◌+◌, ◌/◌, ◌^◌, ◌≤◌, ◌<◌, ◌≡◌, ◌≢◌, refl, ◌∷◌, false, some, ◌==◌, ltb, ne→==, bit_and, arith,
}
use qnixx.Common.Word.{u64}
use qnixx.Libkern.Memory.{Memory}
use qnixx.Amd64.Io.{Hardware, Trace}
use qnixx.Acpi.{Acpi, acpi_query}
use qnixx.Dev.Hpet.{
  Hpet, hpet_reg_cap, hpet_load, hpet_address, hpet_init, start_timer, check_period, enable,
}

-- The registers at a base: two comparators or more, and a period.
pub record IsTimer (hw : Hardware) (base capabilities : ℕ) : Type 0 where
  pub reads : (t : Trace) → hw t (hpet_load base hpet_reg_cap) ≡ capabilities
  pub fits : capabilities < 2 ^ 64
  pub comparators : 1 ≤ bit_and (capabilities / 2 ^ 8) 0x1F
  pub period : capabilities / 2 ^ 32 ≢ 0

-- The timer with such registers.
abbrev pub timer_at : (base capabilities : ℕ) → Hpet
timer_at base capabilities = record { hpet_base = base; hpet_period = capabilities / 2 ^ 32 }

module _ (hw : Hardware) where
  enable-returns :
      (base capabilities : ℕ) (t : Trace)
      → IsTimer hw base capabilities
      → (enable hw base t).0 ≡ some (timer_at base capabilities)
  unfolding enable
  enable-returns base capabilities t timer =
      let same : u64 capabilities ≡ capabilities = omega (arith, timer.fits) in
      rw (timer.reads t, same) refl

  check_period-returns :
      (base capabilities : ℕ) (t : Trace)
      → IsTimer hw base capabilities
      → (check_period hw base t).0 ≡ some (timer_at base capabilities)
  unfolding check_period
  check_period-returns base capabilities t timer =
      let enabled = enable-returns base capabilities (hpet_load base hpet_reg_cap ∷ t) timer in
      let some_period : (u64 (hw t (hpet_load base hpet_reg_cap)) / 2 ^ 32 == 0) ≡ false =
        let same : u64 capabilities ≡ capabilities = omega (arith, timer.fits) in
        rw (timer.reads t, same) (ne→== (capabilities / 2 ^ 32) 0 timer.period) in
      rw (some_period, check_period) enabled

  start_timer-returns :
      (base capabilities : ℕ) (t : Trace)
      → IsTimer hw base capabilities
      → (start_timer hw base t).0 ≡ some (timer_at base capabilities)
  unfolding start_timer
  start_timer-returns base capabilities t timer =
      let checked =
        check_period-returns base capabilities (hpet_load base hpet_reg_cap ∷ t) timer in
      let enough : ltb (bit_and (u64 (hw t (hpet_load base hpet_reg_cap)) / 2 ^ 8) 0x1F + 1) 2
          ≡ false =
        let same : u64 capabilities ≡ capabilities = omega (arith, timer.fits) in
        rw (timer.reads t, same) (ground (arith, timer.comparators)) in
      rw (enough, start_timer) checked

  pub hpet_init-returns :
      (memory : Memory) (higher_half : ℕ) (acpi : Acpi) (query : Memory) (capabilities : ℕ)
      (t : Trace)
      → (let hpet = acpi_query memory higher_half acpi query 4 in
          (hpet ≢ 0) × IsTimer hw (u64 (hpet_address memory hpet + higher_half)) capabilities)
      → (hpet_init hw memory higher_half acpi query t).0
        ≡ some (
            timer_at
              (u64 (hpet_address memory (acpi_query memory higher_half acpi query 4) + higher_half))
              capabilities)
  unfolding hpet_init
  hpet_init-returns memory higher_half acpi query capabilities t (found, timer) =
      let started = start_timer-returns _ capabilities t timer in
      rw (ne→== (acpi_query memory higher_half acpi query 4) 0 found, hpet_init) started
