-- ===== src/Common/Lists.antt =====
-- Lists measured and indexed by native numbers, under the library's names.
use Prim.Native.Nat.{ℕ, zero, suc, ◌+◌}
use mathlib.Core.Path.{◌≡◌}
use mathlib.Core.List.{List, [], ◌∷◌, ◌++◌}
use mathlib.Core.Option.{Option, none, some}
use native.Mathlib.Omega.{arith}

module _ {ℓ} {A : Type ℓ} where
  abbrev pub length : List A → ℕ
  length [] = 0
  length (x ∷ xs) = suc (length xs)

  abbrev pub get_elem? : List A → ℕ → Option A
  get_elem? [] i = none
  get_elem? (x ∷ xs) zero = some x
  get_elem? (x ∷ xs) (suc i) = get_elem? xs i

  -- A write out of bounds changes nothing.
  abbrev pub set : List A → ℕ → A → List A
  set [] i v = []
  set (x ∷ xs) zero v = v ∷ xs
  set (x ∷ xs) (suc i) v = x ∷ set xs i v

  abbrev pub replicate : ℕ → A → List A
  replicate zero x = []
  replicate (suc n) x = x ∷ replicate n x

  pub length-append : (xs ys : List A) → length (xs ++ ys) ≡ length xs + length ys
  length-append [] ys = omega arith
  length-append (x ∷ xs) ys = omega (arith, length-append xs ys)

  abbrev pub All {κ} : (A → Type κ) → List A → Type κ
  All P [] = Unit
  All P (x ∷ xs) = P x × All P xs
