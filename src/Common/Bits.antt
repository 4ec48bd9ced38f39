-- ===== src/Common/Bits.antt =====
-- The lowest digit of `&` and `|`, and checks by evaluation over a small range.
use Prim.Native.Nat.{
  ℕ, zero, suc, ◌+◌, ◌*◌, ◌/◌, ◌%◌, ◌≤◌, ◌<◌, min, max, bit_and, bit_or, digits, bit_and-bitwise,
  bit_or-bitwise,
}
use mathlib.Core.Path.{◌≡◌, refl}
use mathlib.Core.Bool.{Bool, true, ◌&&◌}
use native.Mathlib.Omega.{arith}

-- A test on all numbers below a bound.
unfoldable pub all_below : (bound : ℕ) → (ℕ → Bool) → Bool
all_below zero test = true
all_below (suc bound) test = test bound && all_below bound test

-- What the test says of one of them.
pub all_below_sound :
    (bound : ℕ) (test : ℕ → Bool) (i : ℕ) → all_below bound test ≡ true → i < bound → test i ≡ true
unfolding all_below
all_below_sound zero test i passed small = absurd (omega (arith, small))
all_below_sound (suc bound) test i passed small = ground (arith, all_below_sound bound test i)

-- More rounds than the first number has digits change nothing.
module _ (pad : ℕ → ℕ) (op : ℕ → ℕ → ℕ) where
  digits_settled :
      (a b left right : ℕ) → a ≤ left → a ≤ right → digits pad op left a b ≡ digits pad op right a b
  digits_settled zero b zero zero l r = refl
  digits_settled zero b zero (suc right) l r = refl
  digits_settled zero b (suc left) zero l r = refl
  digits_settled zero b (suc left) (suc right) l r = refl
  digits_settled (suc a) b zero right l r = absurd (omega (arith, l))
  digits_settled (suc a) b (suc left) zero l r = absurd (omega (arith, r))
  digits_settled (suc a) b (suc left) (suc right) l r =
      let rest =
        digits_settled (suc a / 2) (b / 2) left right (omega (arith, l)) (omega (arith, r)) in
      omega (arith, rest)

pub zero-bit_and : (mask : ℕ) → bit_and 0 mask ≡ 0
zero-bit_and mask = bit_and-bitwise 0 mask

-- The lowest digit of a conjunction is the lesser one.
pub bit_and_step : (x y : ℕ) → bit_and x y ≡ bit_and (x / 2) (y / 2) * 2 + min (x % 2) (y % 2)
bit_and_step zero y = let none = zero-bit_and (y / 2) in omega (arith, none, zero-bit_and y)
bit_and_step (suc x) y =
    let settled =
      digits_settled (λ _. 0) min (suc x / 2) (y / 2) x (suc x / 2) (omega arith) (omega arith) in
    omega (arith, settled, bit_and-bitwise (suc x / 2) (y / 2), bit_and-bitwise (suc x) y)

pub zero-bit_or : (mask : ℕ) → bit_or 0 mask ≡ mask
zero-bit_or mask = bit_or-bitwise 0 mask

-- The lowest digit of a disjunction is the greater one.
pub bit_or_step : (x y : ℕ) → bit_or x y ≡ bit_or (x / 2) (y / 2) * 2 + max (x % 2) (y % 2)
bit_or_step zero y = let all = zero-bit_or (y / 2) in omega (arith, all, zero-bit_or y)
bit_or_step (suc x) y =
    let settled =
      digits_settled (λ t. t) max (suc x / 2) (y / 2) x (suc x / 2) (omega arith) (omega arith) in
    omega (arith, settled, bit_or-bitwise (suc x / 2) (y / 2), bit_or-bitwise (suc x) y)
