-- ===== src/Dev/Fb/Area.antt =====
-- Which pixels an operation writes.
use qnixx.Common.{
  ℕ, ◌^◌, ap, ◌+◌, ◌*◌, ◌/◌, ◌≤◌, ◌<◌, ◌≡◌, ◌≢◌, ◌⊎◌, inl, inr, arith, Bool-cases, ltb,
  if◌then◌else◌, update, update_self, update_ne,
}
use native.Mathlib.Nat.{mul-le-mul_left, mul_comm}
use qnixx.Common.Word.{u64}
use qnixx.Common.Loop.{for_loop-keeps, for_loop-sets}
use qnixx.Dev.Fb.{Framebuffer, Pixels, framebuffer_get_index, framebuffer_clear}

-- Two pixels on different rows of `w` pixels.
rows_apart : (w x y x' y' : ℕ) → x < w → y < y' → x + w * y < x' + w * y'
rows_apart w x y x' y' left below =
    let up : w * (y + 1) ≤ w * y' = mul-le-mul_left w (omega (arith, below)) in
    omega (arith, up, left)

trichotomy : (a b : ℕ) → (a < b) ⊎ ((b < a) ⊎ (a ≡ b))
trichotomy a b = ground arith

row_eq : (x x' a b : ℕ) → x + a ≡ x' + b → a ≡ b → x ≡ x'
row_eq x x' a b e same = omega (arith, e, same)

-- A pixel of the row of another stands at another index.
positions_apart : (w x y x' y' : ℕ) → x < w → x' < w → (x ≢ x') ⊎ (y ≢ y') → x + w * y ≢ x' + w * y'
positions_apart w x y x' y' left left' differ e = elim (trichotomy y y') [
  | inl below ↦ absurd (omega (arith, rows_apart w x y x' y' left below, e))
  | inr (inl above) ↦ absurd (omega (arith, rows_apart w x' y' x y left' above, e))
  | inr (inr same) ↦ elim differ [
    | inl columns ↦ absurd (columns (row_eq x x' (w * y) (w * y') e (ap (λ (y : ℕ). w * y) same)))
    | inr rows ↦ absurd (rows same)
  ]
]

-- The index tells the pixels of the frame buffer apart, as long as it fits in 32 bits.
pub get_index-apart :
    (fb : Framebuffer) (x y x' y' : ℕ)
    → x < fb.pitch / 4
    → x' < fb.pitch / 4
    → x + y * (fb.pitch / 4) < 2 ^ 32
    → x' + y' * (fb.pitch / 4) < 2 ^ 32
    → (x ≢ x') ⊎ (y ≢ y')
    → framebuffer_get_index fb x y ≢ framebuffer_get_index fb x' y'
get_index-apart fb x y x' y' left left' fits fits' differ e =
    let w = fb.pitch / 4 in
    let plain : x + y * w ≡ x' + y' * w = omega (arith, e, fits, fits') in
    positions_apart w x y x' y' left left' differ
      (omega (arith, plain, mul_comm w y, mul_comm w y'))

pub framebuffer_clear_lem :
    (fb : Framebuffer) (color : ℕ) (pixels : Pixels) (i : ℕ)
    → framebuffer_clear fb color pixels i
      ≡ (if ltb i (u64 (fb.width * fb.height)) then color else pixels i)
unfolding framebuffer_clear
framebuffer_clear_lem fb color pixels i =
    let n = u64 (fb.width * fb.height) in
    elim (Bool-cases (ltb i n)) [
      | inl inn ↦ rw inn (
          for_loop-sets (λ i (pixels : Pixels). update pixels i color) (λ p. p i) n i color pixels
            (ground (arith, inn)) (λ s. update_self s i color)
            (λ j after to s. update_ne s color (omega (arith, after))))
      | inr out ↦ rw out (
          for_loop-keeps (λ i (pixels : Pixels). update pixels i color) (λ p. p i) n pixels
            (λ j to s. update_ne s color (ground (arith, out))))
    ]
