-- ===== src/Tty/Console/Print.antt =====
-- What `printk` prints.
use native.Mathlib.Nat.{div-one, div-eq_of_lt}
use qnixx.Common.{
  inl, inr, ℕ, zero, suc, ◌+◌, ◌-◌, ◌*◌, ◌/◌, ◌%◌, ◌^◌, ◌<◌, ◌≡◌, ◌≢◌, refl, sym, ap, ◌∙◌, none,
  some, List, [], ◌∷◌, ◌++◌, All, ne→==, arith,
}
use qnixx.Common.Word.{u64}
use qnixx.Libkern.String.{Chars, dec2str}
use qnixx.Libkern.String.Decimal.{dec2str-Spells, div-pow_suc'}
use qnixx.Dev.Fb.{Framebuffer}
use qnixx.Tty.Console.Cursor.{kind-cases}
use qnixx.Tty.Console.{
  Color, default_color, Console, Arg, number, kind, plain, bytes_of, putstr, put_char, format,
  directive, print_from, printk, as_decimal, print_bytes,
}

-- A character that stands for itself.
abbrev pub IsPlain : ℕ → Type 0
IsPlain c = kind c ≡ plain

-- The number that a list of digits stands for, behind what was read before.
abbrev pub value : List ℕ → ℕ → ℕ
value [] acc = acc
value (c ∷ cs) acc = value cs (acc * 10 + (c - 48))

bytes_of-end : (fuel i : ℕ) (s : Chars) → s i ≡ 0 → bytes_of (suc fuel) s i ≡ some []
unfolding bytes_of
bytes_of-end fuel i s end = rw (end, bytes_of) refl

pub bytes_of-next :
    (fuel i : ℕ) (s : Chars) (cs : List ℕ)
    → s i ≢ 0
    → bytes_of fuel s (i + 1) ≡ some cs
    → bytes_of (suc fuel) s i ≡ some (s i ∷ cs)
unfolding bytes_of
bytes_of-next fuel i s cs more rest = rw (ne→== (s i) 0 more, rest, bytes_of) refl

bytes_of-value :
    (fuel left i count n : ℕ) (s : Chars)
    → i + left ≡ count
    → left < fuel
    → s count ≡ 0
    → ((k : ℕ) → k < count → s k ≡ n / 10 ^ (count - 1 - k) % 10 + 48)
    → (cs : List ℕ) × (bytes_of fuel s i ≡ some cs) × (value cs (n / 10 ^ left) ≡ n)
bytes_of-value zero left i count n s here enough end digit = absurd (omega (arith, enough))
bytes_of-value (suc fuel) zero i count n s here enough end digit =
    let at : i ≡ count = omega (arith, here) in
    ([], bytes_of-end fuel i s (ap s at ∙ end), div-one n)
bytes_of-value (suc fuel) (suc left) i count n s here enough end digit =
    let place : count - 1 - i ≡ left = omega (arith, here) in
    let char : s i ≡ n / 10 ^ left % 10 + 48 =
      digit i (omega (arith, here)) ∙ ap (λ (t : ℕ). n / 10 ^ t % 10 + 48) place in
    let so_far : n / 10 ^ suc left * 10 + (s i - 48) ≡ n / 10 ^ left =
      omega (arith, char, div-pow_suc' n left) in
    let (cs, rest, read) =
      bytes_of-value fuel left (i + 1) count n s (omega (arith, here)) (omega (arith, enough)) end
        digit in
    (s i ∷ cs, bytes_of-next fuel i s cs (omega (arith, char)) rest, ap (value cs) so_far ∙ read)

module _ (outside : ℕ → ℕ) (fb : Framebuffer) where
  -- Plain characters in front of a format that is not empty.
  print_from-append :
      (cs : List ℕ) (d : ℕ) (rest : List ℕ) (args : List Arg) (color : Color) (con : Console)
      → All IsPlain cs
      → print_from outside fb (cs ++ (d ∷ rest)) args color con
        ≡ print_from outside fb (d ∷ rest) args color (putstr outside fb color cs con)
  unfolding print_from putstr
  print_from-append [] d rest args color con all = refl
  print_from-append (c ∷ []) d rest args color con (first, all) = rw (first, print_from) refl
  print_from-append (c ∷ e ∷ cs) d rest args color con (first, all) =
      rw (first, print_from)
        (print_from-append (e ∷ cs) d rest args color (put_char outside fb color c con) all)

  print_from-plain :
      (cs : List ℕ) (args : List Arg) (color : Color) (con : Console)
      → All IsPlain cs
      → print_from outside fb cs args color con ≡ some (putstr outside fb color cs con)
  unfolding print_from putstr
  print_from-plain [] args color con all = refl
  print_from-plain (c ∷ []) args color con (first, all) = rw (first, print_from) refl
  print_from-plain (c ∷ e ∷ cs) args color con (first, all) =
      rw (first, print_from)
        (print_from-plain (e ∷ cs) args color (put_char outside fb color c con) all)

  print_from-directive :
      (d : ℕ) (args left : List Arg) (color : Color) (con con' : Console)
      → format outside fb (directive d) args color con ≡ some (left, con')
      → print_from outside fb (37 ∷ d ∷ []) args color con ≡ some con'
  unfolding print_from
  print_from-directive d args left color con con' run = rw (run, print_from) refl

  format-decimal :
      (n : ℕ) (args : List Arg) (ds : List ℕ) (color : Color) (con : Console)
      → n < 2 ^ 64
      → bytes_of 80 (dec2str n con.dec_buffer) 0 ≡ some ds
      → format outside fb as_decimal (number n ∷ args) color con
        ≡ some (
          args,
          putstr outside fb color ds (record con { dec_buffer = dec2str n con.dec_buffer }),
        )
  unfolding format print_bytes
  format-decimal n args ds color con fits bytes =
      let same : u64 n ≡ n = omega (arith, fits) in rw (same, bytes, print_bytes) refl

  -- A format of plain characters is printed as it is.
  pub printk-plain :
      (fmt : List ℕ) (args : List Arg) (con : Console)
      → All IsPlain fmt
      → printk outside fb fmt args con ≡ some (putstr outside fb default_color fmt con)
  unfolding printk
  printk-plain fmt args con all = print_from-plain fmt args default_color con all

  -- For a format of plain characters with a percent sign or an escape as its last character,
  -- printk has no result, since it steps over the end of the string.
  pub printk_unfinished :
      (cs : List ℕ) (c : ℕ) (args : List Arg) (con : Console)
      → All IsPlain cs
      → kind c ≢ plain
      → printk outside fb (cs ++ (c ∷ [])) args con ≡ none
  unfolding printk print_from
  printk_unfinished cs c args con all special =
      print_from-append cs c [] args default_color con all ∙ elim (kind-cases c) [
        | inl k ↦ rw (k, print_from) refl
        | inr (inl k) ↦ rw (k, print_from) refl
        | inr (inr k) ↦ absurd (special k)
      ]

  -- For a format of plain characters with %d at its end and a 64-bit number, printk prints the
  -- characters and then digits that stand for the number in decimal, whatever the static buffer
  -- held.
  pub printk-decimal :
      (cs : List ℕ) (n : ℕ) (args : List Arg) (con : Console)
      → All IsPlain cs
      → n < 2 ^ 64
      → (ds : List ℕ) × (value ds 0 ≡ n)
        × (let shown : Console = putstr outside fb default_color cs con in
            printk outside fb (cs ++ (37 ∷ 100 ∷ [])) (number n ∷ args) con
            ≡ some (
                putstr outside fb default_color ds
                  (record shown { dec_buffer = dec2str n shown.dec_buffer })))
  unfolding printk
  printk-decimal cs n args con all fits =
      let shown : Console = putstr outside fb default_color cs con in
      let spelt = dec2str-Spells n shown.dec_buffer fits in
      let (ds, bytes, read) =
        bytes_of-value 80 spelt.count 0 spelt.count n (dec2str n shown.dec_buffer) (omega arith)
          (omega (arith, spelt.short)) spelt.end spelt.digit in
      (
        ds,
        ap (value ds) (sym (div-eq_of_lt spelt.covers)) ∙ read,
        print_from-append cs 37 (100 ∷ []) (number n ∷ args) default_color con all
            ∙ print_from-directive 100 (number n ∷ args) args default_color shown _
                (format-decimal n args ds default_color shown fits bytes),
      )
