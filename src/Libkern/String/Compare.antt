-- ===== src/Libkern/String/Compare.antt =====
-- The length of a string, and the equality of bytes.
use qnixx.Common.{
  ℕ, zero, suc, ◌+◌, ◌≤◌, ◌<◌, ◌≡◌, ◌≢◌, refl, ==_iff, sym, ap, ◌∙◌, Bool-cases, inl, inr, ltb→lt,
  true, false, ltb, ◌==◌, some, arith,
}
use qnixx.Libkern.String.{Chars, strlen_from, differ_from}

pub strlen_from_lem :
    (fuel : ℕ) (str : Chars) (i n : ℕ)
    → i ≤ n
    → n < i + fuel
    → str n ≡ 0
    → ((k : ℕ) → i ≤ k → k < n → str k ≢ 0)
    → strlen_from fuel str i ≡ some n
unfolding strlen_from
strlen_from_lem zero str i n low high end chars = ground arith
strlen_from_lem (suc fuel) str i n low high end chars = elim (Bool-cases (ltb i n)) [
  | inl more ↦
      let before = ltb→lt i n more in
      let char : str i ≢ 0 = chars i (omega arith) before in
      let rest =
        strlen_from_lem fuel str (i + 1) n (omega (arith, before)) (omega (arith, high)) end
          (λ k lo hi. chars k (omega (arith, lo)) hi) in
      ground (arith, char, rest)
  | inr there ↦
      let at : n ≡ i = ground arith in
      let ends : str i ≡ 0 = ap str (sym at) ∙ end in ground (arith, ends)
]

differ_from-same :
    (n : ℕ) (str1 str2 : Chars) (i : ℕ)
    → (str1 i == str2 i) ≡ true
    → differ_from (suc n) str1 str2 i ≡ differ_from n str1 str2 (i + 1)
unfolding differ_from
differ_from-same n str1 str2 i h = rw (h, differ_from) refl

differ_from-other :
    (n : ℕ) (str1 str2 : Chars) (i : ℕ)
    → (str1 i == str2 i) ≡ false
    → differ_from (suc n) str1 str2 i ≡ 1
unfolding differ_from
differ_from-other n str1 str2 i h = rw (h, differ_from) refl

pub differ_from_eq :
    (n : ℕ) (str1 str2 : Chars) (i : ℕ)
    → differ_from n str1 str2 i ≡ 0
    → (k : ℕ) → i ≤ k
    → k < i + n
    → str1 k ≡ str2 k
differ_from_eq zero str1 str2 i same k low high = omega (arith, low, high)
differ_from_eq (suc n) str1 str2 i same k low high = elim (Bool-cases (str1 i == str2 i)) [
  | inl equal ↦ elim (Bool-cases (ltb i k)) [
    | inl more ↦
        let rest = sym (differ_from-same n str1 str2 i equal) ∙ same in
        differ_from_eq n str1 str2 (i + 1) rest k (omega (arith, ltb→lt i k more))
          (omega (arith, high))
    | inr here ↦ let at : k ≡ i = ground arith in rw at ((==_iff (str1 i) (str2 i)).0 equal)
  ]
  | inr other ↦ omega (arith, sym (differ_from-other n str1 str2 i other) ∙ same)
]

pub eq-differ_from :
    (n : ℕ) (str1 str2 : Chars) (i : ℕ)
    → ((k : ℕ) → i ≤ k → k < i + n → str1 k ≡ str2 k)
    → differ_from n str1 str2 i ≡ 0
unfolding differ_from
eq-differ_from zero str1 str2 i same = refl
eq-differ_from (suc n) str1 str2 i same =
    let here = same i (omega arith) (omega arith) in
    let rest =
      eq-differ_from n str1 str2 (i + 1)
        (λ k lo hi. same k (omega (arith, lo)) (omega (arith, hi))) in
    ground (arith, here, rest)
