-- ===== src/Common/BitLaws.antt =====
-- Masks and packed fields: `&` with a run of ones, `|` of fields that do not overlap.
use Prim.Native.Nat.{ℕ, zero, suc, ◌+◌, ◌-◌, ◌*◌, ◌/◌, ◌%◌, ◌^◌, ◌≤◌, ◌<◌, bit_and, bit_or}
use mathlib.Core.Path.{◌≡◌, refl, ap, ◌∙◌}
use native.Mathlib.Omega.{arith}
use native.Mathlib.Nat.{
  pow-suc, div-add-mod', mod-lt, mod-eq_of_lt, add-mul-mod_self_right, mul-one, div-one,
  div-div-eq-div-mul,
}
use qnixx.Common.Bits.{bit_and_step, bit_or_step, zero-bit_or}

-- `2 ^ k` as the recursion on `k` that the induction below follows.
pub pow_pos : (k : ℕ) → 0 < 2 ^ k
pow_pos zero = omega arith
pow_pos (suc k) = omega (arith, pow_pos k, pow-suc 2 k)

-- Nothing is left of a number beside 0.
nothing_left : (bound a : ℕ) → a ≤ bound → bit_and a 0 ≡ 0
nothing_left bound zero small = refl
nothing_left zero (suc a) small = absurd (omega (arith, small))
nothing_left (suc bound) (suc a) small =
    let rest = nothing_left bound (suc a / 2) (omega (arith, small)) in
    omega (arith, rest, bit_and_step (suc a) 0)

pub bit_and-zero : (a : ℕ) → bit_and a 0 ≡ 0
bit_and-zero a = nothing_left a a (omega arith)

bit_or-zero_fuel : (n a : ℕ) → a ≤ n → bit_or a 0 ≡ a
bit_or-zero_fuel zero zero h = refl
bit_or-zero_fuel zero (suc a) h = absurd (omega arith)
bit_or-zero_fuel (suc n) zero h = refl
bit_or-zero_fuel (suc n) (suc a) h =
    omega (arith, bit_or_step (suc a) 0, bit_or-zero_fuel n (suc a / 2) (omega arith))

pub bit_or-zero : (a : ℕ) → bit_or a 0 ≡ a
bit_or-zero a = bit_or-zero_fuel a a (omega arith)

-- Both fields are shifted by `k`.
pub bit_and-shift : (k a m : ℕ) → bit_and a (m * 2 ^ k) ≡ bit_and (a / 2 ^ k) m * 2 ^ k
bit_and-shift zero a m = simp (mul-one, div-one)
bit_and-shift (suc k) a m =
    let p : m * 2 ^ suc k ≡ m * 2 ^ k * 2 = omega (arith, ap (λ (t : ℕ). m * t) (pow-suc 2 k)) in
    let half : m * 2 ^ k * 2 / 2 ≡ m * 2 ^ k = omega arith in
    let twice : 2 * 2 ^ k ≡ 2 ^ suc k = omega (arith, pow-suc 2 k) in
    let deep : a / 2 / 2 ^ k ≡ a / 2 ^ suc k = rw (div-div-eq-div-mul, twice) refl in
    let step : bit_and a (m * 2 ^ k * 2) ≡ bit_and (a / 2) (m * 2 ^ k) * 2 =
      rw (bit_and_step a (m * 2 ^ k * 2), half) (omega arith) in
    rw (p, step, bit_and-shift k (a / 2) m, deep)
      (omega (arith, ap (λ (t : ℕ). bit_and (a / 2 ^ suc k) m * t) twice))

-- Dividing by two takes the remainder apart.
mod-double : (a q : ℕ) → 0 < q → a % (q * 2) ≡ a / 2 % q * 2 + a % 2
mod-double a q pos =
    let whole : a / 2 / q * q + a / 2 % q ≡ a / 2 = div-add-mod' (a / 2) q in
    let split : a ≡ a / 2 % q * 2 + a % 2 + a / 2 / q * (q * 2) =
      omega (arith, ap (λ (t : ℕ). t * 2) whole) in
    ap (λ (t : ℕ). t % (q * 2)) split
    ∙ add-mul-mod_self_right (a / 2 % q * 2 + a % 2) (a / 2 / q) (q * 2)
    ∙ mod-eq_of_lt (omega (arith, mod-lt (a / 2) pos))

-- The field of `k` ones keeps the remainder.
pub bit_and-ones : (k a : ℕ) → bit_and a (2 ^ k - 1) ≡ a % 2 ^ k
bit_and-ones zero a = omega (arith, bit_and-zero a)
bit_and-ones (suc k) a =
    let half : (2 ^ suc k - 1) / 2 ≡ 2 ^ k - 1 = omega (arith, pow-suc 2 k, pow_pos k) in
    let twice : 2 ^ suc k ≡ 2 ^ k * 2 = pow-suc 2 k in
    rw (bit_and_step a (2 ^ suc k - 1), half, bit_and-ones k (a / 2))
      (omega
        (arith, mod-double a (2 ^ k) (pow_pos k), ap (λ (t : ℕ). a % t) twice, pow_pos k, twice))

-- Fields that do not overlap add up.
pub bit_or-add : (k a b : ℕ) → b < 2 ^ k → bit_or (a * 2 ^ k) b ≡ a * 2 ^ k + b
bit_or-add zero a b h =
    let none : b ≡ 0 = omega arith in rw (none, bit_or-zero (a * 2 ^ 0)) (omega arith)
bit_or-add (suc k) a b h =
    let p : a * 2 ^ suc k ≡ a * 2 ^ k * 2 = omega (arith, ap (λ (t : ℕ). a * t) (pow-suc 2 k)) in
    let half : a * 2 ^ k * 2 / 2 ≡ a * 2 ^ k = omega arith in
    rw (p, bit_or_step (a * 2 ^ k * 2) b, half)
      (omega (arith, bit_or-add k a (b / 2) (omega (arith, pow-suc 2 k))))

bit_or_comm_fuel : (n a b : ℕ) → a ≤ n → bit_or a b ≡ bit_or b a
bit_or_comm_fuel n zero b h = omega (arith, zero-bit_or b, bit_or-zero b)
bit_or_comm_fuel zero (suc a) b h = absurd (omega arith)
bit_or_comm_fuel (suc n) (suc a) b h = omega (
  arith,
  bit_or_step (suc a) b,
  bit_or_step b (suc a),
  bit_or_comm_fuel n (suc a / 2) (b / 2) (omega arith),
)

pub bit_or_comm : (a b : ℕ) → bit_or a b ≡ bit_or b a
bit_or_comm a b = bit_or_comm_fuel a a b (omega arith)

-- A field above the bits of `b`.
pub add-bit_or : (k a b : ℕ) → b < 2 ^ k → bit_or b (a * 2 ^ k) ≡ b + a * 2 ^ k
add-bit_or k a b h = omega (arith, bit_or_comm b (a * 2 ^ k), bit_or-add k a b h)

-- A number and its own low bits.
pub bit_and-mod : (k a : ℕ) → bit_and a (a % 2 ^ k) ≡ a % 2 ^ k
bit_and-mod zero a = let none : a % 2 ^ 0 ≡ 0 = omega arith in rw none (bit_and-zero a)
bit_and-mod (suc k) a =
    let split : a % 2 ^ suc k ≡ a / 2 % 2 ^ k * 2 + a % 2 =
      ap (λ (t : ℕ). a % t) (pow-suc 2 k) ∙ mod-double a (2 ^ k) (pow_pos k) in
    let half : (a / 2 % 2 ^ k * 2 + a % 2) / 2 ≡ a / 2 % 2 ^ k = omega arith in
    rw (split, bit_and_step a (a / 2 % 2 ^ k * 2 + a % 2), half)
      (omega (arith, bit_and-mod k (a / 2)))
