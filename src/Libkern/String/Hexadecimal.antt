-- ===== src/Libkern/String/Hexadecimal.antt =====
-- The string that `hex2str` leaves.
use mathlib.Core.Path.{subst}
use qnixx.Common.{
  ℕ, zero, suc, ◌+◌, ◌-◌, ◌/◌, ◌%◌, ◌^◌, ◌≡◌, ◌≢◌, refl, sym, Bool-cases, inl, inr, false, List, [],
  ◌∷◌, ◌++◌, All, length-append, ◌==◌, ltb, if◌then◌else◌, ==_iff, update, bit_and, arith,
}
use qnixx.Common.Word.{u8}
use qnixx.Common.BitLaws.{bit_and-ones}
use qnixx.Libkern.String.{Chars, swap_ends, hex_char, hex_digits, hex2str}
use qnixx.Libkern.String.Decimal.{reversed}
use qnixx.Libkern.String.Numeral.{
  numeral, IsString, NonZero, rev, write, write-append, reversed-IsString, low, low-NonZero,
  rev-low, low-length,
}

-- At least two digits, of at most 16.
abbrev pub hexadecimal : ℕ → List ℕ
hexadecimal n = numeral 16 hex_char 16 n []

abbrev pub two_digits : ℕ → List ℕ
two_digits n = if ltb n 16 then 48 ∷ hexadecimal n else hexadecimal n

hex_char-NonZero : (nibble : ℕ) → hex_char nibble ≢ 0
hex_char-NonZero nibble e = ground arith

nibble : (n : ℕ) → bit_and (u8 n) 0xF ≡ n % 16
nibble n = omega (arith, bit_and-ones 4 (u8 n))

hex_digits-write :
    (fuel n i : ℕ) (s : Chars) → hex_digits fuel n i s ≡ write (low 16 hex_char fuel n) i s
unfolding hex_digits low
hex_digits-write zero n i s = refl
hex_digits-write (suc fuel) n i s = elim (Bool-cases (n == 0)) [
  | inl none ↦ rw (none, hex_digits, low) refl
  | inr more ↦
      rw (more, hex_digits, low, nibble n)
        (hex_digits-write fuel (n / 2 ^ 4) (i + 1) (update s i (hex_char (n % 16))))
]

-- What stands before the digits, from the last character on.
abbrev prefix : ℕ → List ℕ
prefix n = if ltb n 16 then 48 ∷ 120 ∷ 48 ∷ [] else 120 ∷ 48 ∷ []

hex_zero : (s : Chars) → IsString (hex2str 0 s) 0 (48 ∷ 120 ∷ two_digits 0)
unfolding hex2str hex_digits swap_ends numeral
hex_zero s =
    let no_end : (d : ℕ) → d + 48 ≢ 0 = λ d e. omega (arith, e) in
    (refl, no_end 0, (refl, no_end 72, (refl, no_end 0, (refl, no_end 0, refl))))

closed :
    (i : ℕ) (s : Chars) → swap_ends (i + 2) 0 (i + 1) (update s (i + 2) 0) ≡ reversed (i + 1 + 1) s
closed i s =
    let behind : i + 1 + 1 ≡ i + 2 = omega arith in
    let last : i + 2 - 1 ≡ i + 1 = omega arith in rw (behind, last) refl

hex2str-more :
    (n : ℕ) (s : Chars)
    → (n == 0) ≡ false
    → (let written : ℕ × Chars = write (low 16 hex_char 16 n ++ prefix n) 0 s in
        hex2str n s ≡ reversed written.0 written.1)
unfolding hex2str
hex2str-more n s more =
    let digits : List ℕ = low 16 hex_char 16 n in
    let before : ℕ × Chars = write digits 0 s in
    rw (write-append digits (prefix n) 0 s, more, hex_digits-write 16 n 0 s)
      (elim (Bool-cases (ltb n 16)) [
        | inl one ↦ rw one (
            closed (before.0 + 1) (
              update (update (update before.1 before.0 48) (before.0 + 1) 120) (before.0 + 1 + 1)
                48))
        | inr two ↦
            rw two (closed before.0 (update (update before.1 before.0 120) (before.0 + 1) 48))
      ])

append-NonZero : (xs ys : List ℕ) → All NonZero xs → All NonZero ys → All NonZero (xs ++ ys)
append-NonZero [] ys first second = second
append-NonZero (x ∷ xs) ys (here, first) second = (here, append-NonZero xs ys first second)

rev-append : (xs ys acc : List ℕ) → rev (xs ++ ys) acc ≡ rev ys (rev xs acc)
rev-append [] ys acc = refl
rev-append (x ∷ xs) ys acc = rev-append xs ys (x ∷ acc)

prefix-NonZero : (n : ℕ) → All NonZero (prefix n)
prefix-NonZero n =
    let no_end : (d : ℕ) → d + 48 ≢ 0 = λ d e. omega (arith, e) in
    elim (Bool-cases (ltb n 16)) [
      | inl one ↦ rw one (no_end 0, (no_end 72, (no_end 0, tt)))
      | inr two ↦ rw two (no_end 72, (no_end 0, tt))
    ]

rev-prefix : (n : ℕ) → n ≢ 0 → rev (low 16 hex_char 16 n ++ prefix n) [] ≡ 48 ∷ 120 ∷ two_digits n
rev-prefix n some_digit =
    rw
      (
        rev-append (low 16 hex_char 16 n) (prefix n) [],
        rev-low 16 hex_char (λ n h. omega arith) (λ n h. omega arith) 16 n [] some_digit,
      )
      (elim (Bool-cases (ltb n 16)) [ inl one ↦ rw one refl | inr two ↦ rw two refl ])

-- hex2str leaves 0x and at least two hexadecimal digits of its number.
pub hex2str-IsString : (n : ℕ) (s : Chars) → IsString (hex2str n s) 0 (48 ∷ 120 ∷ two_digits n)
hex2str-IsString n s = elim (Bool-cases (n == 0)) [
  | inl h ↦
      subst (λ (k : ℕ). IsString (hex2str k s) 0 (48 ∷ 120 ∷ two_digits k)) (sym ((==_iff n 0).0 h))
        (hex_zero s)
  | inr more ↦
      let some_digit : n ≢ 0 = ground arith in
      let chars : List ℕ = low 16 hex_char 16 n ++ prefix n in
      let Text = λ (t : Chars) (cs : List ℕ). IsString t 0 cs in
      subst (λ (t : Chars). Text t (48 ∷ 120 ∷ two_digits n)) (sym (hex2str-more n s more))
        (subst (Text _) (rev-prefix n some_digit) (
          reversed-IsString chars s
            (omega (
              arith,
              length-append (low 16 hex_char 16 n) (prefix n),
              low-length 16 hex_char 15 n some_digit,
            ))
            (append-NonZero (low 16 hex_char 16 n) (prefix n)
              (low-NonZero 16 hex_char hex_char-NonZero 16 n) (prefix-NonZero n))))
]
