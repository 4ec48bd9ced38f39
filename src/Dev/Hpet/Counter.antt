-- ===== src/Dev/Hpet/Counter.antt =====
-- A counter for the tests of sys/dev/timer/hpet.c: it goes on by one from read to read, and any other
-- access sets it back.
use qnixx.Common.{
  ℕ, zero, suc, ◌+◌, ◌^◌, ◌<◌, ◌≡◌, refl, ap, true, [], ◌∷◌, ◌==◌, ==_iff, if◌then◌else◌, arith,
}
use qnixx.Common.Word.{u64}
use qnixx.Amd64.Io.{Hardware, Trace, load}
use qnixx.Dev.Hpet.Sleep.{Ticks, count_at, reads}

-- The reads of an address that came last.
abbrev pub run_of : (at : ℕ) → Trace → ℕ
run_of at [] = 0
run_of at (load w a ∷ t) = if a == at then suc (run_of at t) else 0
run_of at (_ ∷ t) = 0

abbrev pub counter : (base : ℕ) → Hardware → Hardware
counter base hw t (load w a) =
    if a == u64 (base + 0xF0) then run_of (u64 (base + 0xF0)) t else hw t (load w a)
counter base hw t e = hw t e

run_of-reads :
    (hw : Hardware) (base n : ℕ) (t : Trace)
    → run_of (u64 (base + 0xF0)) t ≡ 0
    → run_of (u64 (base + 0xF0)) (reads hw base n t) ≡ n
run_of-reads hw base zero t fresh = fresh
run_of-reads hw base (suc n) t fresh =
    rw ((==_iff (u64 (base + 0xF0)) (u64 (base + 0xF0))).1 refl)
      (ap suc (run_of-reads hw base n t fresh))

pub counter-Ticks :
    (hw : Hardware) (base top : ℕ) (t : Trace)
    → run_of (u64 (base + 0xF0)) t ≡ 0
    → top < 2 ^ 64
    → Ticks (counter base hw) base top t
counter-Ticks hw base top t fresh small n few =
    let it = counter base hw in
    let self : (u64 (base + 0xF0) == u64 (base + 0xF0)) ≡ true =
      (==_iff (u64 (base + 0xF0)) (u64 (base + 0xF0))).1 refl in
    let counts : (n : ℕ) → count_at it base n t ≡ n =
      λ n. rw self (run_of-reads it base n t fresh) in
    (omega (arith, counts 0, counts n), omega (arith, counts n, few, small))
