-- ===== src/Common/Family.antt =====
-- Memory as a function of the address or index, written at one place.
use Prim.Native.Nat.{ℕ}
use mathlib.Core.Path.{◌≡◌}
use mathlib.Core.Logic.{◌≢◌}
use native.Mathlib.Omega.{arith}
use qnixx.Common.Tests.{◌==◌, if◌then◌else◌}

module _ {ℓ} {A : Type ℓ} where
  abbrev pub update : (ℕ → A) → ℕ → A → ℕ → A
  update m p v a = if a == p then v else m a

  pub update_self : (m : ℕ → A) (p : ℕ) (v : A) → update m p v p ≡ v
  update_self m p v = ground arith

  pub update_ne : (m : ℕ → A) {p a : ℕ} (v : A) → a ≢ p → update m p v a ≡ m a
  update_ne m v h = ground arith
