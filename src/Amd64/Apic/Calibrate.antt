-- ===== src/Amd64/Apic/Calibrate.antt =====
-- The calibration of the timer in sys/amd64/lapic.c, which sleeps by the other timer, ends.
use qnixx.Common.{ℕ, suc, ◌+◌, ◌≡◌, ◌≢◌, refl, some}
use qnixx.Amd64.Io.{Hardware, Trace}
use qnixx.Amd64.Apic.Lapic.{Clock, start_countdown, end_countdown, lapic_timer_calibrate}
use qnixx.Dev.Hpet.Sleep.{Ticks, ticks_of, hpet_sleep-ends, reads}

-- The lock of the sleep is free, and from the start of the countdown on the counter goes on by a
-- tick or more from read to read, for as many reads as there are ticks in 10 milliseconds, and one
-- more; there is a round for each.
pub record Sleeps (hw : Hardware) (base : ℕ) (clock : Clock) (t : Trace) : Type 0 where
  pub free : clock.lock ≡ 0
  pub period : clock.hpet.hpet_period ≢ 0
  pub enough : clock.fuel ≡ suc (ticks_of clock.hpet 10)
  pub ticks : Ticks hw clock.hpet.hpet_base (ticks_of clock.hpet 10 + 1) (start_countdown base t).1

end_countdown-returns :
    (hw : Hardware) (base lock : ℕ) (t : Trace)
    → (freq : ℕ) × (t' : Trace) × (end_countdown hw base (some lock) t ≡ (some freq, t'))
unfolding end_countdown
end_countdown-returns hw base lock t = (_, _, refl)

pub lapic_timer_calibrate-returns :
    (hw : Hardware) (base : ℕ) (clock : Clock) (t : Trace)
    → Sleeps hw base clock t
    → (freq : ℕ) × (t' : Trace) × (lapic_timer_calibrate hw clock base t ≡ (some freq, t'))
unfolding lapic_timer_calibrate
lapic_timer_calibrate-returns hw base clock t sleeps =
    let (n, few, run, late) =
      hpet_sleep-ends hw clock.hpet 10 (start_countdown base t).1 sleeps.period sleeps.ticks in
    let (freq, later, ended) =
      end_countdown-returns hw base 0
        (reads hw clock.hpet.hpet_base (suc n) (start_countdown base t).1) in
    (freq, later, rw (sleeps.free, sleeps.enough, run, lapic_timer_calibrate) ended)
