-- ===== src/Common/Loop.antt =====
-- `for (i = start; i < stop; i += stride) body(i)`, on fuel.
use Prim.Native.Nat.{ℕ, zero, suc, ◌+◌, ◌≤◌, ◌<◌}
use mathlib.Core.Path.{◌≡◌, refl, ◌∙◌}
use mathlib.Core.Logic.{◌⊎◌, inl, inr}
use native.Mathlib.Omega.{arith}
use mathlib.Core.Bool.{true, false}
use qnixx.Common.Tests.{ltb}

unfoldable pub for_loop {ℓ} : {S : Type ℓ} → ℕ → (stop stride : ℕ) → (ℕ → S → S) → ℕ → S → S
for_loop zero stop stride body i s = s
for_loop (suc fuel) stop stride body i s = elim (ltb i stop) [
  | true ↦ for_loop fuel stop stride body (i + stride) (body i s)
  | false ↦ s
]

module _ {ℓ} {S : Type ℓ} (stop stride : ℕ) (body : ℕ → S → S) where
  pub for_loop-step :
      (fuel i : ℕ) (s : S)
      → ltb i stop ≡ true
      → for_loop (suc fuel) stop stride body i s
        ≡ for_loop fuel stop stride body (i + stride) (body i s)
  unfolding for_loop
  for_loop-step fuel i s more = rw (more, for_loop) refl

  pub for_loop-done :
      (fuel i : ℕ) (s : S) → ltb i stop ≡ false → for_loop fuel stop stride body i s ≡ s
  unfolding for_loop
  for_loop-done zero i s done = refl
  for_loop-done (suc fuel) i s done = rw (done, for_loop) refl

le_cases : (i k : ℕ) → i ≤ k → (i ≡ k) ⊎ (i < k)
le_cases i k le = ground arith

-- What is seen of the state after a loop from 0 on, if no round changes it, or only one does.
module _ {ℓ ℓ'} {S : Type ℓ} {A : Type ℓ'} (body : ℕ → S → S) (see : S → A) (n : ℕ) where
  keeps_from :
      (fuel i : ℕ) (s : S)
      → i + fuel ≡ n
      → ((j : ℕ) → i ≤ j → j < n → (s : S) → see (body j s) ≡ see s)
      → see (for_loop fuel n 1 body i s) ≡ see s
  unfolding for_loop
  keeps_from zero i s end same = refl
  keeps_from (suc fuel) i s end same =
      let more : ltb i n ≡ true = ground arith in
      let rest =
        keeps_from fuel (i + 1) (body i s) (omega arith)
          (λ j from to s. same j (omega (arith, from)) to s) in
      rw (more, for_loop) (rest ∙ same i (omega arith) (omega arith) s)

  pub for_loop-keeps :
      (s : S)
      → ((j : ℕ) → j < n → (s : S) → see (body j s) ≡ see s)
      → see (for_loop n n 1 body 0 s) ≡ see s
  for_loop-keeps s same = keeps_from n 0 s (omega arith) (λ j from to s. same j to s)

  sets_from :
      (fuel i k : ℕ) (a : A) (s : S)
      → i + fuel ≡ n
      → i ≤ k
      → k < n
      → ((s : S) → see (body k s) ≡ a)
      → ((j : ℕ) → k < j → j < n → (s : S) → see (body j s) ≡ see s)
      → see (for_loop fuel n 1 body i s) ≡ a
  unfolding for_loop
  sets_from zero i k a s end from to sets later = absurd (omega arith)
  sets_from (suc fuel) i k a s end from to sets later =
      let more : ltb i n ≡ true = ground arith in
      elim (le_cases i k from) [
        | inl here ↦
            rw (more, for_loop)
              (keeps_from fuel (i + 1) (body i s) (omega arith)
                  (λ j from to s. later j (omega (arith, from, here)) to s)
                ∙ rw here (sets s))
        | inr before ↦
            rw (more, for_loop)
              (sets_from fuel (i + 1) k a (body i s) (omega arith) (omega arith) to sets later)
      ]

  -- The last round that touches what is seen decides it.
  pub for_loop-sets :
      (k : ℕ) (a : A) (s : S)
      → k < n
      → ((s : S) → see (body k s) ≡ a)
      → ((j : ℕ) → k < j → j < n → (s : S) → see (body j s) ≡ see s)
      → see (for_loop n n 1 body 0 s) ≡ a
  for_loop-sets k a s to sets later = sets_from n 0 k a s (omega arith) (omega arith) to sets later
