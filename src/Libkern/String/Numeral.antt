-- ===== src/Libkern/String/Numeral.antt =====
-- The numerals of a base, and the string that `dec2str` leaves.
use mathlib.Core.Path.{subst}
use qnixx.Common.{
  ℕ, zero, suc, ◌+◌, ◌-◌, ◌/◌, ◌%◌, ◌≤◌, ◌<◌, ◌≡◌, ◌≢◌, refl, sym, ap, ◌∙◌, Bool-cases, inl, inr,
  List, [], ◌∷◌, ◌++◌, All, length, ◌==◌, ltb, if◌then◌else◌, ==_iff, ltb→lt, ne→==, update,
  update_self, update_ne, arith,
}
use qnixx.Libkern.String.{Chars, swap_ends, dec_digits, dec2str}
use qnixx.Libkern.String.Decimal.{reversed, reversed_char, reversed_end, dec2str-zero, dec2str-more}

-- The digits of a number in front of other characters, on fuel.
unfoldable pub numeral : (base : ℕ) → (char : ℕ → ℕ) → (fuel n : ℕ) → List ℕ → List ℕ
numeral base char zero n rest = rest
numeral base char (suc fuel) n rest =
    let here = char (n % base) ∷ rest in
    let more = numeral base char fuel (n / base) here in if ltb n base then here else more

-- 20 digits are enough for 64 bits.
abbrev pub decimal : ℕ → List ℕ
decimal n = numeral 10 (λ digit. digit + 48) 20 n []

pub length-numeral :
    (base : ℕ) (char : ℕ → ℕ) (fuel n : ℕ) (rest : List ℕ)
    → length (numeral base char fuel n rest) ≤ fuel + length rest
unfolding numeral
length-numeral base char zero n rest = omega arith
length-numeral base char (suc fuel) n rest = elim (Bool-cases (ltb n base)) [
  | inl one ↦ rw (one, numeral) (omega arith)
  | inr more ↦
      rw (more, numeral)
        (omega (arith, length-numeral base char fuel (n / base) (char (n % base) ∷ rest)))
]

-- The characters stand in a buffer from an index on, with a zero byte behind them.
abbrev pub IsString : Chars → ℕ → List ℕ → Type 0
IsString s i [] = s i ≡ 0
IsString s i (c ∷ cs) = (s i ≡ c) × (c ≢ 0) × IsString s (i + 1) cs

abbrev Holds : Chars → ℕ → List ℕ → Type 0
Holds s i [] = Unit
Holds s i (d ∷ ds) = (s i ≡ d) × (d ≢ 0) × Holds s (i + 1) ds

abbrev pub NonZero : ℕ → Type 0
NonZero c = c ≢ 0

abbrev pub rev : List ℕ → List ℕ → List ℕ
rev [] acc = acc
rev (d ∷ ds) acc = rev ds (d ∷ acc)

-- The characters are stored from an index on.
abbrev pub write : List ℕ → ℕ → Chars → ℕ × Chars
write [] i s = (i, s)
write (d ∷ ds) i s = write ds (i + 1) (update s i d)

pub write-append :
    (xs ys : List ℕ) (i : ℕ) (s : Chars)
    → write (xs ++ ys) i s ≡ write ys (write xs i s).0 (write xs i s).1
write-append [] ys i s = refl
write-append (x ∷ xs) ys i s = write-append xs ys (i + 1) (update s i x)

write-length : (ds : List ℕ) (i : ℕ) (s : Chars) → (write ds i s).0 ≡ i + length ds
write-length [] i s = omega arith
write-length (d ∷ ds) i s = omega (arith, write-length ds (i + 1) (update s i d))

write_below : (ds : List ℕ) (i : ℕ) (s : Chars) (k : ℕ) → k < i → (write ds i s).1 k ≡ s k
write_below [] i s k below = refl
write_below (d ∷ ds) i s k below =
    write_below ds (i + 1) (update s i d) k (omega (arith, below))
    ∙ update_ne s d (omega (arith, below))

write-Holds : (ds : List ℕ) (i : ℕ) (s : Chars) → All NonZero ds → Holds (write ds i s).1 i ds
write-Holds [] i s all = tt
write-Holds (d ∷ ds) i s (first, all) = (
  write_below ds (i + 1) (update s i d) i (omega arith) ∙ update_self s i d,
  first,
  write-Holds ds (i + 1) (update s i d) all,
)

-- Read from the end on, the characters are the string in the reversed buffer.
backwards :
    (ds : List ℕ) (i n : ℕ) (s t : Chars) (acc : List ℕ)
    → Holds s i ds
    → i + length ds ≡ n
    → ((k : ℕ) → k < n → t k ≡ s (n - 1 - k))
    → IsString t (n - i) acc
    → IsString t 0 (rev ds acc)
backwards [] i n s t acc held here turned done =
    let start : n - i ≡ 0 = omega (arith, here) in subst (λ (k : ℕ). IsString t k acc) start done
backwards (d ∷ ds) i n s t acc (char, some_char, held) here turned done =
    let place : n - 1 - (n - (i + 1)) ≡ i = omega (arith, here) in
    let next : n - (i + 1) + 1 ≡ n - i = omega (arith, here) in
    backwards ds (i + 1) n s t (d ∷ acc) held (omega (arith, here)) turned (
      turned (n - (i + 1)) (omega (arith, here)) ∙ ap s place ∙ char,
      some_char,
      subst (λ (k : ℕ). IsString t k acc) (sym next) done,
    )

pub reversed-IsString :
    (ds : List ℕ) (s : Chars)
    → 0 < length ds
    → All NonZero ds
    → IsString (reversed (write ds 0 s).0 (write ds 0 s).1) 0 (rev ds [])
reversed-IsString ds s some_char all =
    let count : (write ds 0 s).0 ≡ length ds = omega (arith, write-length ds 0 s) in
    backwards ds 0 (write ds 0 s).0 (write ds 0 s).1 (reversed (write ds 0 s).0 (write ds 0 s).1) []
      (write-Holds ds 0 s all) (omega (arith, count))
      (reversed_char (write ds 0 s).0 (write ds 0 s).1)
      (subst (λ (k : ℕ). reversed (write ds 0 s).0 (write ds 0 s).1 k ≡ 0) (omega arith)
        (reversed_end (write ds 0 s).0 (write ds 0 s).1 (omega (arith, some_char, count))))

module _ (base : ℕ) (char : ℕ → ℕ) where
  -- The digits of a number from the lowest on.
  unfoldable pub low : (fuel n : ℕ) → List ℕ
  low zero n = []
  low (suc fuel) n = let rest = low fuel (n / base) in if n == 0 then [] else char (n % base) ∷ rest

  low-zero : (fuel : ℕ) → low fuel 0 ≡ []
  unfolding low
  low-zero zero = refl
  low-zero (suc fuel) = refl

  pub low-NonZero : ((d : ℕ) → char d ≢ 0) → (fuel n : ℕ) → All NonZero (low fuel n)
  unfolding low
  low-NonZero some_char zero n = tt
  low-NonZero some_char (suc fuel) n = elim (Bool-cases (n == 0)) [
    | inl none ↦ rw (none, low) tt
    | inr more ↦ rw (more, low) (some_char (n % base), low-NonZero some_char fuel (n / base))
  ]

  module _ (small : (n : ℕ) → n < base → n / base ≡ 0)
      (large : (n : ℕ) → base ≤ n → n / base ≢ 0) where
    pub rev-low :
        (fuel n : ℕ) (acc : List ℕ) → n ≢ 0 → rev (low fuel n) acc ≡ numeral base char fuel n acc
    unfolding low numeral
    rev-low zero n acc some_digit = refl
    rev-low (suc fuel) n acc some_digit =
        rw (ne→== n 0 some_digit, low)
          (elim (Bool-cases (ltb n base)) [
            | inl one ↦ rw (one, numeral, small n (ltb→lt n base one), low-zero fuel) refl
            | inr more ↦
                rw (more, numeral)
                  (rev-low fuel (n / base) (char (n % base) ∷ acc) (large n (ground arith)))
          ])

dec_digits-write :
    (fuel n i : ℕ) (s : Chars)
    → dec_digits fuel n i s ≡ write (low 10 (λ digit. digit + 48) fuel n) i s
unfolding dec_digits low
dec_digits-write zero n i s = refl
dec_digits-write (suc fuel) n i s = elim (Bool-cases (n == 0)) [
  | inl none ↦ rw (none, dec_digits, low) refl
  | inr more ↦
      rw (more, dec_digits, low) (dec_digits-write fuel (n / 10) (i + 1) (update s i (n % 10 + 48)))
]

pub low-length :
    (base : ℕ) (char : ℕ → ℕ) (fuel n : ℕ) → n ≢ 0 → 0 < length (low base char (suc fuel) n)
unfolding low
low-length base char fuel n some_digit = rw (ne→== n 0 some_digit, low) (omega arith)

dec_zero : (s : Chars) → IsString (reversed 1 (update s 0 48)) 0 (decimal 0)
unfolding swap_ends numeral
dec_zero s = (refl, (λ e. omega (arith, e)), refl)

-- dec2str leaves the decimal digits of its number.
pub dec2str-IsString : (n : ℕ) (s : Chars) → IsString (dec2str n s) 0 (decimal n)
dec2str-IsString n s = elim (Bool-cases (n == 0)) [
  | inl h ↦ rw ((==_iff n 0).0 h, dec2str-zero s) (dec_zero s)
  | inr more ↦
      let some_digit : n ≢ 0 = ground arith in
      let digits : List ℕ = low 10 (λ digit. digit + 48) 20 n in
      rw
        (
          dec2str-more n s more,
          dec_digits-write 20 n 0 s,
          sym (
              rev-low 10 (λ digit. digit + 48) (λ n h. omega arith) (λ n h. omega arith) 20 n []
                some_digit),
        )
        (reversed-IsString digits s (low-length 10 (λ digit. digit + 48) 19 n some_digit)
          (low-NonZero 10 (λ digit. digit + 48) (λ d. omega arith) 20 n))
]
