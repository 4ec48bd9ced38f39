-- ===== src/Dev/Hpet/Sleep.antt =====
-- The sleep ends, and not before its time.
use qnixx.Common.{
  ℕ, zero, suc, ◌+◌, ◌*◌, ◌/◌, ◌^◌, ◌≤◌, ◌<◌, ◌≡◌, ◌≢◌, refl, ◌∙◌, true, false, some, ◌∷◌,
  Bool-cases, inl, inr, ltb, arith,
}
use qnixx.Common.Word.{u64}
use qnixx.Amd64.Io.{Hardware, Trace}
use qnixx.Sync.Mutex.Exclusion.{mutex_acquire-free}
use qnixx.Dev.Hpet.{Hpet, hpet_reg_counter, hpet_load, wait_until, hpet_sleep}

module _ (hw : Hardware) (base : ℕ) where
  -- The trace after `n` reads of the counter, and what the next read gives.
  abbrev pub reads : ℕ → Trace → Trace
  reads zero t = t
  reads (suc n) t = hpet_load base hpet_reg_counter ∷ reads n t

  abbrev pub count_at : ℕ → Trace → ℕ
  count_at n t = hw (reads n t) (hpet_load base hpet_reg_counter)

  -- The counter goes on by a tick or more from read to read, `top` times, and does not overflow.
  abbrev pub Ticks : (top : ℕ) → Trace → Type 0
  Ticks top t = (n : ℕ) → n ≤ top → (count_at 0 t + n ≤ count_at n t) × (count_at n t < 2 ^ 64)

  wait_until-done :
      (fuel goal n : ℕ) (t : Trace)
      → count_at n t < 2 ^ 64
      → goal ≤ count_at n t
      → wait_until hw (suc fuel) base goal (reads n t) ≡ (some tt, reads (suc n) t)
  unfolding wait_until
  wait_until-done fuel goal n t small done =
      let over : ltb (u64 (count_at n t)) goal ≡ false = ground arith in rw (over, wait_until) refl

  wait_until-again :
      (fuel goal n : ℕ) (t : Trace)
      → count_at n t < goal
      → goal < 2 ^ 64
      → wait_until hw (suc fuel) base goal (reads n t)
        ≡ wait_until hw fuel base goal (reads (suc n) t)
  unfolding wait_until
  wait_until-again fuel goal n t early small =
      let under : ltb (u64 (count_at n t)) goal ≡ true = ground arith in rw (under, wait_until) refl

  -- From the `m`-th read on: the loop ends at some read, which is the first that reaches the goal.
  wait_until-ends :
      (fuel m goal top : ℕ) (t : Trace)
      → Ticks top t
      → m + fuel ≤ top
      → goal ≤ count_at 0 t + m + fuel
      → goal < 2 ^ 64
      → (n : ℕ) × (n ≤ m + fuel)
        × (wait_until hw (suc fuel) base goal (reads m t) ≡ (some tt, reads (suc n) t))
        × (goal ≤ count_at n t)
  wait_until-ends zero m goal top t ticks room near small =
      let reached : goal ≤ count_at m t = omega (arith, ticks m (omega arith)) in
      (m, omega arith, wait_until-done 0 goal m t (ticks m (omega arith)).1 reached, reached)
  wait_until-ends (suc fuel) m goal top t ticks room near small =
      elim (Bool-cases (ltb (count_at m t) goal)) [
        | inr over ↦
            let reached : goal ≤ count_at m t = ground (arith, over) in
            (
              m,
              omega arith,
              wait_until-done (suc fuel) goal m t (ticks m (omega arith)).1 reached,
              reached,
            )
        | inl under ↦
            let early : count_at m t < goal = ground (arith, under) in
            let (n, few, run, reached) =
              wait_until-ends fuel (suc m) goal top t ticks (omega arith) (omega arith) small in
            (n, omega (arith, few), wait_until-again (suc fuel) goal m t early small ∙ run, reached)
      ]

-- The ticks of the counter, `period` femtoseconds long, in `ms` milliseconds.
abbrev pub ticks_of : Hpet → ℕ → ℕ
ticks_of hpet ms = ms * (1000000000000 / hpet.hpet_period)

-- If the period is not 0 and the counter goes on by a tick or more from read to read without an
-- overflow, for one read more than the ticks to wait, then hpet_sleep with the lock free ends
-- after at most that many rounds, with the lock free, and not before the counter has reached its
-- value at the start plus the ticks.
pub hpet_sleep-ends :
    (hw : Hardware) (hpet : Hpet) (ms : ℕ) (t : Trace)
    → hpet.hpet_period ≢ 0
    → Ticks hw hpet.hpet_base (ticks_of hpet ms + 1) t
    → (n : ℕ) × (n ≤ ticks_of hpet ms + 1)
      × (hpet_sleep hw (suc (ticks_of hpet ms)) 0 hpet ms t
          ≡ (some 0, reads hw hpet.hpet_base (suc n) t))
      × (count_at hw hpet.hpet_base 0 t + ticks_of hpet ms ≤ count_at hw hpet.hpet_base n t)
unfolding hpet_sleep
hpet_sleep-ends hw hpet ms t positive ticks =
    let d = ticks_of hpet ms in
    let base = hpet.hpet_base in
    let start = count_at hw base 0 t in
    let (last, small) = ticks (d + 1) (omega arith) in
    let (n, few, run, reached) =
      wait_until-ends hw base d 1 (start + d) (d + 1) t ticks (omega arith) (omega arith)
        (omega (arith, last, small)) in
    let goal : u64 (u64 start + u64 d) ≡ start + d = omega (arith, last, small) in
    let sleeps : hpet_sleep hw (suc d) 0 hpet ms t ≡ (some 0, reads hw base (suc n) t) =
      rw (mutex_acquire-free d, hpet_sleep, goal, run) refl in
    (n, omega (arith, few), sleeps, reached)
