-- ===== src/Amd64/Io/Search.antt =====
-- Searches over devices, where what a round finds does not depend on the accesses before it.
use qnixx.Common.{
  ℕ, zero, suc, ◌+◌, ◌≤◌, ◌<◌, ◌≡◌, refl, sym, ◌∙◌, Option, none, some, Option-cases, none≢some,
  arith, inl, inr, Bool-cases, ltb, ltb→lt,
}
use qnixx.Amd64.Io.{Io, Trace, search_loop}

module _ {A : Type 0} where
  -- The first value in a range.
  unfoldable pub first : ℕ → ℕ → (ℕ → Option A) → Option A
  first zero i f = none
  first (suc n) i f = elim (f i) [ none ↦ first n (i + 1) f | some a ↦ some a ]

  first-empty : (i : ℕ) (f : ℕ → Option A) → first 0 i f ≡ none
  unfolding first
  first-empty i f = refl

  first-here : (n i : ℕ) (f : ℕ → Option A) {a : A} → f i ≡ some a → first (suc n) i f ≡ some a
  unfolding first
  first-here n i f h = rw (h, first) refl

  first-next : (n i : ℕ) (f : ℕ → Option A) → f i ≡ none → first (suc n) i f ≡ first n (i + 1) f
  unfolding first
  first-next n i f h = rw (h, first) refl

  search_loop-here :
      (n i : ℕ) (body : ℕ → Io (Option A)) (t : Trace) {a : A}
      → (body i t).0 ≡ some a
      → search_loop (suc n) i body t ≡ (some a, (body i t).1)
  unfolding search_loop
  search_loop-here n i body t h = rw (h, search_loop) refl

  search_loop-next :
      (n i : ℕ) (body : ℕ → Io (Option A)) (t : Trace)
      → (body i t).0 ≡ none
      → search_loop (suc n) i body t ≡ search_loop n (i + 1) body (body i t).1
  unfolding search_loop
  search_loop-next n i body t h = rw (h, search_loop) refl

  search_loop-empty :
      (i : ℕ) (body : ℕ → Io (Option A)) (t : Trace) → search_loop 0 i body t ≡ (none, t)
  unfolding search_loop
  search_loop-empty i body t = refl

  pub search_loop-first :
      (n i : ℕ) (body : ℕ → Io (Option A)) (f : ℕ → Option A)
      → ((j : ℕ) (t : Trace) → (body j t).0 ≡ f j)
      → (t : Trace) → (search_loop n i body t).0 ≡ first n i f
  search_loop-first zero i body f same t = rw (search_loop-empty i body t, first-empty i f) refl
  search_loop-first (suc n) i body f same t = elim (Option-cases (f i)) [
    | inl h ↦
        rw (search_loop-next n i body t (same i t ∙ h), first-next n i f h)
          (search_loop-first n (i + 1) body f same (body i t).1)
    | inr (a, h) ↦ rw (search_loop-here n i body t (same i t ∙ h), first-here n i f h) refl
  ]

  -- A value that is found is one of the range.
  pub first-some :
      (n i : ℕ) (f : ℕ → Option A) {a : A}
      → first n i f ≡ some a
      → (j : ℕ) × (i ≤ j) × (j < i + n) × (f j ≡ some a)
  first-some zero i f h = elim (none≢some (sym (first-empty i f) ∙ h)) [ ]
  first-some (suc n) i f h = elim (Option-cases (f i)) [
    | inl e ↦
        let (j, low, high, found) = first-some n (i + 1) f (sym (first-next n i f e) ∙ h) in
        (j, omega (arith, low), omega (arith, high), found)
    | inr (b, e) ↦ (i, omega arith, omega arith, e ∙ sym (first-here n i f e) ∙ h)
  ]

  -- Where nothing is found, the range has no value.
  pub first-none :
      (n i : ℕ) (f : ℕ → Option A) → first n i f ≡ none → (j : ℕ) → i ≤ j → j < i + n → f j ≡ none
  first-none zero i f h j low high = ground arith
  first-none (suc n) i f h j low high = elim (Option-cases (f i)) [
    | inl e ↦ elim (Bool-cases (ltb i j)) [
      | inl more ↦
          first-none n (i + 1) f (sym (first-next n i f e) ∙ h) j (omega (arith, ltb→lt i j more))
            (omega (arith, high))
      | inr here ↦ let at : j ≡ i = ground arith in rw at e
    ]
    | inr (b, e) ↦ elim (none≢some (sym h ∙ first-here n i f e)) [ ]
  ]

  -- The first of the range that has a value is found.
  pub first-at :
      (n i j : ℕ) (f : ℕ → Option A) {a : A}
      → i ≤ j
      → j < i + n
      → f j ≡ some a
      → ((k : ℕ) → i ≤ k → k < j → f k ≡ none)
      → first n i f ≡ some a
  first-at zero i j f low high h before = ground arith
  first-at (suc n) i j f low high h before = elim (Bool-cases (ltb i j)) [
    | inl more ↦
        let gt = ltb→lt i j more in
        first-next n i f (before i (omega arith) gt)
        ∙ first-at n (i + 1) j f (omega (arith, gt)) (omega (arith, high)) h
            (λ k lo hi. before k (omega (arith, lo)) hi)
    | inr here ↦ let at : i ≡ j = ground arith in first-here n i f (rw at h)
  ]
