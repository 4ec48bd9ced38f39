-- ===== src/Libkern/String/Decimal.antt =====
-- The decimal digits that `dec2str` writes, and reading them back.
use native.Mathlib.Nat.{pow-suc, div-div-eq-div-mul, div-one, div-eq_of_lt}
use qnixx.Common.{
  ℕ, zero, suc, ◌+◌, ◌-◌, ◌*◌, ◌/◌, ◌%◌, ◌^◌, ◌≤◌, ◌<◌, ◌≡◌, ◌≢◌, refl, sym, ap, ◌∙◌, false, ◌⊎◌,
  inl, inr, ne→==, Bool-cases, ◌==◌, ==_iff, if◌then◌else◌, update, update_self, update_ne, arith,
}
use qnixx.Libkern.String.{Chars, swap_ends, dec_digits, dec2str}
use qnixx.Libkern.String.Reverse.{swap_ends_lem}

dec_digits-done : (fuel i : ℕ) (s : Chars) → dec_digits fuel 0 i s ≡ (i, s)
unfolding dec_digits
dec_digits-done zero i s = refl
dec_digits-done (suc fuel) i s = refl

dec_digits-more :
    (fuel number i : ℕ) (s : Chars)
    → (number == 0) ≡ false
    → dec_digits (suc fuel) number i s
      ≡ dec_digits fuel (number / 10) (i + 1) (update s i (number % 10 + 48))
unfolding dec_digits
dec_digits-more fuel number i s more = rw (more, dec_digits) refl

div-pow_suc : (n k : ℕ) → n / 10 ^ suc k ≡ n / 10 / 10 ^ k
div-pow_suc n k =
    let p : 10 ^ suc k ≡ 10 * 10 ^ k = omega (arith, pow-suc 10 k) in
    ap (λ (t : ℕ). n / t) p ∙ sym (div-div-eq-div-mul n 10 (10 ^ k))

pub div-pow_suc' : (n k : ℕ) → n / 10 ^ suc k ≡ n / 10 ^ k / 10
div-pow_suc' n k =
    let p : 10 ^ suc k ≡ 10 ^ k * 10 = omega (arith, pow-suc 10 k) in
    ap (λ (t : ℕ). n / t) p ∙ sym (div-div-eq-div-mul n (10 ^ k) 10)

-- The digits of a number from the lowest on, above the bytes that stood there.
record Written (fuel number i : ℕ) (s : Chars) (result : ℕ × Chars) : Type 0 where
  count : ℕ
  stop : result.0 ≡ i + count
  short : count ≤ fuel
  some_digit : (number ≡ 0) ⊎ (0 < count)
  covers : number < 10 ^ count
  digit : (k : ℕ) → k < count → result.1 (i + k) ≡ number / 10 ^ k % 10 + 48
  below : (k : ℕ) → k < i → result.1 k ≡ s k

Written-none : (fuel i : ℕ) (s : Chars) → Written fuel 0 i s (i, s)
Written-none fuel i s = record {
  count = 0;
  stop = omega arith;
  short = omega arith;
  some_digit = inl refl;
  covers = omega arith;
  digit = λ k h. omega (arith, h);
  below = λ k h. refl;
}

Written-next :
    (fuel number i : ℕ) (s : Chars) (result : ℕ × Chars)
    → Written fuel (number / 10) (i + 1) (update s i (number % 10 + 48)) result
    → Written (suc fuel) number i s result
Written-next fuel number i s result w = record {
  count = suc w.count;
  stop = omega (arith, w.stop);
  short = omega (arith, w.short);
  some_digit = inr (omega arith);
  covers = omega (arith, w.covers, pow-suc 10 w.count);
  digit = digit;
  below = λ k h. w.below k (omega (arith, h)) ∙ update_ne s (number % 10 + 48) (omega (arith, h));
}
  where
    digit : (k : ℕ) → k < suc w.count → result.1 (i + k) ≡ number / 10 ^ k % 10 + 48
    digit zero h =
        ap result.1 (omega arith)
        ∙ w.below i (omega arith)
        ∙ update_self s i (number % 10 + 48)
        ∙ ap (λ (t : ℕ). t % 10 + 48) (sym (div-one number))
    digit (suc k) h =
        let at : i + suc k ≡ i + 1 + k = omega arith in
        ap result.1 at
        ∙ w.digit k (omega (arith, h))
        ∙ ap (λ (t : ℕ). t % 10 + 48) (sym (div-pow_suc number k))

dec_digits-Written :
    (fuel number i : ℕ) (s : Chars)
    → number < 10 ^ fuel
    → Written fuel number i s (dec_digits fuel number i s)
dec_digits-Written zero number i s enough =
    let none : number ≡ 0 = omega (arith, enough) in
    rw (none, dec_digits-done zero i s) (Written-none zero i s)
dec_digits-Written (suc fuel) number i s enough = elim (Bool-cases (number == 0)) [
  | inl h ↦
      let none : number ≡ 0 = (==_iff number 0).0 h in
      rw (none, dec_digits-done (suc fuel) i s) (Written-none (suc fuel) i s)
  | inr more ↦ rw (dec_digits-more fuel number i s more) (
      Written-next fuel number i s _ (
        dec_digits-Written fuel (number / 10) (i + 1) (update s i (number % 10 + 48))
          (omega (arith, enough, pow-suc 10 fuel))))
]

-- Reading a number in decimal, up to the zero byte.
unfoldable pub read_dec : ℕ → Chars → (i acc : ℕ) → ℕ
read_dec zero s i acc = acc
read_dec (suc fuel) s i acc =
    let rest = read_dec fuel s (i + 1) (acc * 10 + (s i - 48)) in if s i == 0 then acc else rest

read_dec-end : (fuel : ℕ) (s : Chars) (i acc : ℕ) → s i ≡ 0 → read_dec fuel s i acc ≡ acc
unfolding read_dec
read_dec-end zero s i acc end = refl
read_dec-end (suc fuel) s i acc end = rw (end, read_dec) refl

read_dec-digit :
    (fuel : ℕ) (s : Chars) (i acc : ℕ)
    → (s i == 0) ≡ false
    → read_dec (suc fuel) s i acc ≡ read_dec fuel s (i + 1) (acc * 10 + (s i - 48))
unfolding read_dec
read_dec-digit fuel s i acc more = rw (more, read_dec) refl

read_dec_lem :
    (fuel left i count number : ℕ) (s : Chars)
    → i + left ≡ count
    → left < fuel
    → s count ≡ 0
    → ((k : ℕ) → k < count → s k ≡ number / 10 ^ (count - 1 - k) % 10 + 48)
    → read_dec fuel s i (number / 10 ^ left) ≡ number
read_dec_lem fuel zero i count number s here enough end digit =
    let at : i ≡ count = omega (arith, here) in
    read_dec-end fuel s i (number / 10 ^ 0) (ap s at ∙ end) ∙ div-one number
read_dec_lem zero (suc left) i count number s here enough end digit = omega (arith, enough)
read_dec_lem (suc fuel) (suc left) i count number s here enough end digit =
    let place : count - 1 - i ≡ left = omega (arith, here) in
    let char : s i ≡ number / 10 ^ left % 10 + 48 =
      digit i (omega (arith, here)) ∙ ap (λ (t : ℕ). number / 10 ^ t % 10 + 48) place in
    let more : (s i == 0) ≡ false = ne→== (s i) 0 (omega (arith, char)) in
    let value : number / 10 ^ suc left * 10 + (s i - 48) ≡ number / 10 ^ left =
      omega (arith, char, div-pow_suc' number left) in
    read_dec-digit fuel s i (number / 10 ^ suc left) more
    ∙ ap (read_dec fuel s (i + 1)) value
    ∙ read_dec_lem fuel left (i + 1) count number s (omega (arith, here)) (omega (arith, enough))
        end digit

-- The string that the buffer holds once it has been closed and reversed.
abbrev pub reversed : ℕ → Chars → Chars
reversed i s = swap_ends i 0 (i - 1) (update s i 0)

pub reversed_char : (i : ℕ) (s : Chars) (k : ℕ) → k < i → reversed i s k ≡ s (i - 1 - k)
reversed_char i s k h = ground (arith, swap_ends_lem i 0 (i - 1) (update s i 0) k (omega arith))

pub reversed_end : (i : ℕ) (s : Chars) → 0 < i → reversed i s i ≡ 0
reversed_end i s some_char =
    ground (arith, swap_ends_lem i 0 (i - 1) (update s i 0) i (omega arith))

-- A string of at most 20 digits that stand for a number.
pub record Spells (number : ℕ) (s : Chars) : Type 0 where
  pub count : ℕ
  pub some_char : 0 < count
  pub short : count ≤ 20
  pub covers : number < 10 ^ count
  pub digit : (k : ℕ) → k < count → s k ≡ number / 10 ^ (count - 1 - k) % 10 + 48
  pub end : s count ≡ 0

reversed-Spells :
    (count number : ℕ) (s : Chars)
    → 0 < count
    → count ≤ 20
    → number < 10 ^ count
    → ((k : ℕ) → k < count → s k ≡ number / 10 ^ k % 10 + 48)
    → Spells number (reversed count s)
reversed-Spells count number s some_char short covers digit = record {
  count = count;
  some_char = some_char;
  short = short;
  covers = covers;
  digit = λ k h. reversed_char count s k h ∙ digit (count - 1 - k) (omega (arith, h));
  end = reversed_end count s some_char;
}

Written-Spells :
    (number : ℕ) (s : Chars) (result : ℕ × Chars)
    → Written 20 number 0 s result
    → number ≢ 0
    → Spells number (reversed result.0 result.1)
Written-Spells number s result w not_zero =
    let stop : result.0 ≡ w.count = omega (arith, w.stop) in
    let positive : 0 < w.count = omega (arith, w.some_digit) in
    rw stop (
      reversed-Spells w.count number result.1 positive w.short w.covers
        (λ k h. ap result.1 (omega arith) ∙ w.digit k h))

pub dec2str-zero : (s : Chars) → dec2str 0 s ≡ reversed 1 (update s 0 48)
unfolding dec2str
dec2str-zero s = refl

pub dec2str-more :
    (number : ℕ) (s : Chars)
    → (number == 0) ≡ false
    → dec2str number s ≡ reversed (dec_digits 20 number 0 s).0 (dec_digits 20 number 0 s).1
unfolding dec2str
dec2str-more number s more = rw more refl

-- dec2str leaves the digits of its number, whatever the buffer held.
pub dec2str-Spells : (number : ℕ) (s : Chars) → number < 2 ^ 64 → Spells number (dec2str number s)
dec2str-Spells number s fits = elim (Bool-cases (number == 0)) [
  | inl h ↦
      let none : number ≡ 0 = (==_iff number 0).0 h in
      rw (none, dec2str-zero s)
        (reversed-Spells 1 0 (update s 0 48) (omega arith) (omega arith) (omega arith)
          (λ k inside. ground arith))
  | inr more ↦ rw (dec2str-more number s more) (
      Written-Spells number s _ (dec_digits-Written 20 number 0 s (omega (arith, fits)))
        (ground arith))
]

-- For every 64-bit number, whatever the static buffer held before, reading the string that
-- dec2str leaves as a decimal number, up to its zero byte within 21 bytes, gives the number back.
pub read_dec-dec2str :
    (number : ℕ) (s : Chars) → number < 2 ^ 64 → read_dec 21 (dec2str number s) 0 0 ≡ number
read_dec-dec2str number s fits =
    let spelt = dec2str-Spells number s fits in
    ap (read_dec 21 (dec2str number s) 0) (sym (div-eq_of_lt spelt.covers))
    ∙ read_dec_lem 21 spelt.count 0 spelt.count number (dec2str number s) (omega arith)
        (omega (arith, spelt.short)) spelt.end spelt.digit
