-- ===== src/Tty/Console/Render.antt =====
-- What a format stands for: its tokens, the text that they and the arguments give, and the
-- drawing of the text. `printk` does all three in one loop.
use mathlib.Core.Option
use qnixx.Common.{
  ℕ, zero, suc, ◌+◌, ◌^◌, ◌<◌, ◌≡◌, refl, sym, ap, ◌∙◌, Bool-cases, inl, inr, true, false, Option,
  none, some, List, [], ◌∷◌, length, Bool, ◌-◌, ◌==◌, ltb, leb, if◌then◌else◌, arith,
}
use qnixx.Common.Word.{u8, u32, u64}
use qnixx.Libkern.String.{Chars, dec2str, hex_char, hex2str}
use qnixx.Libkern.String.Numeral.{length-numeral, decimal, IsString, dec2str-IsString}
use qnixx.Libkern.String.Hexadecimal.{two_digits, hex2str-IsString}
use qnixx.Dev.Fb.{Framebuffer, framebuffer_get_height}
use qnixx.Tty.Console.Cursor.{kind-cases}
use qnixx.Tty.Console.Print.{bytes_of-next}
use qnixx.Tty.Console.{
  Color, default_color, Console, Arg, string, number, percent, escape, plain, kind, bytes_of,
  newline, putstr, put_char, format, Directive, as_string, as_decimal, as_hex, as_digits, as_char,
  ignored, directive, select_color, print_from, printk, print_bytes,
}

-- A format string as tokens.
pub data Token : Type 0 where
  literal : ℕ → Token
  select : ℕ → Token
  insert : Directive → Token

-- `none`: a percent sign or an escape with nothing behind it.
unfoldable pub tokens : List ℕ → Option (List Token)
tokens [] = some []
tokens (c ∷ []) = elim (kind c) [ percent ↦ none | escape ↦ none | plain ↦ some (literal c ∷ []) ]
tokens (c ∷ d ∷ rest) = elim (kind c) [
  | percent ↦ Option.map (λ ts. insert (directive d) ∷ ts) (tokens rest)
  | escape ↦ Option.map (λ ts. select d ∷ ts) (tokens rest)
  | plain ↦ Option.map (λ ts. literal c ∷ ts) (tokens (d ∷ rest))
]

-- The characters that a directive stands for, and the arguments that are left.
unfoldable pub expand : Directive → List Arg → Option (List Arg × List ℕ)
expand ignored args = some (args, [])
expand as_string (string s ∷ args) = some (args, s)
expand as_decimal (number n ∷ args) = some (args, decimal (u64 n))
expand as_hex (number n ∷ args) = some (args, 48 ∷ 120 ∷ two_digits (u64 n))
expand as_digits (number n ∷ args) = some (args, two_digits (u64 n))
expand as_char (number n ∷ args) = some (args, if u8 n == 0 then [] else u8 n ∷ [])
expand _ _ = none

-- Text: pieces of a color.
unfoldable pub render : List Token → List Arg → Color → Option (List (Color × List ℕ))
render [] args color = some []
render (literal c ∷ ts) args color =
    Option.map (λ text. (color, c ∷ []) ∷ text) (render ts args color)
render (select c ∷ ts) args color = render ts args (select_color c color)
render (insert d ∷ ts) args color = elim (expand d args) [
  | none ↦ none
  | some (left, cs) ↦ Option.map (λ text. (color, cs) ∷ text) (render ts left color)
]

-- The console without its static buffers.
abbrev pub visible : Console → Console
visible con = record con { dec_buffer = λ _. 0; hex_buffer = λ _. 0 }

bytes_of-IsString :
    (fuel i : ℕ) (s : Chars) (cs : List ℕ)
    → length cs < fuel
    → IsString s i cs
    → bytes_of fuel s i ≡ some cs
unfolding bytes_of
bytes_of-IsString zero i s cs enough is = absurd (omega (arith, enough))
bytes_of-IsString (suc fuel) i s [] enough end = rw (end, bytes_of) refl
bytes_of-IsString (suc fuel) i s (c ∷ cs) enough (char, some_char, rest) =
    bytes_of-next fuel i s cs (λ e. some_char (sym char ∙ e))
      (bytes_of-IsString fuel (i + 1) s cs (omega (arith, enough)) rest)
    ∙ ap (λ (c : ℕ). some (c ∷ cs)) char

if-visible :
    (b : Bool) (x y : Console) → visible (if b then x else y) ≡ (if b then visible x else visible y)
if-visible true x y = refl
if-visible false x y = refl

module _ (outside : ℕ → ℕ) (fb : Framebuffer) where
  unfoldable pub draw : List (Color × List ℕ) → Console → Console
  draw [] con = con
  draw (piece ∷ text) con = draw text (putstr outside fb piece.0 piece.1 con)

  newline-visible :
      (con : Console) → visible (newline outside fb con) ≡ newline outside fb (visible con)
  unfolding newline
  newline-visible con = if-visible (leb (u32 (framebuffer_get_height fb + 2 ^ 32 - 5)) con._cy) _ _

  put_char-visible :
      (color : Color) (c : ℕ) (con : Console)
      → visible (put_char outside fb color c con) ≡ put_char outside fb color c (visible con)
  unfolding put_char
  put_char-visible color c con = elim (Bool-cases (c == 10)) [
    | inl line ↦ rw (line, put_char) (newline-visible con)
    | inr other ↦ rw (other, put_char) refl
  ]

  putstr-visible :
      (color : Color) (cs : List ℕ) (con : Console)
      → visible (putstr outside fb color cs con) ≡ putstr outside fb color cs (visible con)
  unfolding putstr
  putstr-visible color [] con = refl
  putstr-visible color (c ∷ cs) con =
      putstr-visible color cs (put_char outside fb color c con)
      ∙ ap (putstr outside fb color cs) (put_char-visible color c con)

  -- The arguments that are left, and what a result shows.
  abbrev shown : Option (List Arg × Console) → Option (List Arg × Console)
  shown = Option.map (λ r. (r.0, visible r.1))

  abbrev put_expanded : Color → Console → Option (List Arg × List ℕ) → Option (List Arg × Console)
  put_expanded color con = Option.map (λ r. (r.0, putstr outside fb color r.1 con))

  print_bytes-visible :
      (s : Chars) (i : ℕ) (cs : List ℕ) (args : List Arg) (color : Color) (con con' : Console)
      → IsString s i cs
      → length cs < 80
      → visible con' ≡ visible con
      → shown (print_bytes outside fb (bytes_of 80 s i) args color con')
        ≡ some (args, putstr outside fb color cs (visible con))
  unfolding print_bytes
  print_bytes-visible s i cs args color con con' is short same =
      rw (bytes_of-IsString 80 i s cs short is) (
        ap (λ (c : Console). some (args, c))
          (putstr-visible color cs con' ∙ ap (putstr outside fb color cs) same))

  length-two_digits : (n : ℕ) → length (two_digits n) < 20
  length-two_digits n = elim (Bool-cases (ltb n 16)) [
    | inl one ↦ rw one (omega (arith, length-numeral 16 hex_char 16 n []))
    | inr two ↦ rw two (omega (arith, length-numeral 16 hex_char 16 n []))
  ]

  format-expand :
      (d : Directive) (args : List Arg) (color : Color) (con : Console)
      → shown (format outside fb d args color con)
        ≡ put_expanded color (visible con) (expand d args)
  unfolding format expand putstr
  format-expand ignored args color con = refl
  format-expand as_string [] color con = refl
  format-expand as_string (string s ∷ args) color con =
      ap (λ (c : Console). some (args, c)) (putstr-visible color s con)
  format-expand as_string (number n ∷ args) color con = refl
  format-expand as_decimal [] color con = refl
  format-expand as_decimal (string s ∷ args) color con = refl
  format-expand as_decimal (number n ∷ args) color con =
      print_bytes-visible (dec2str (u64 n) con.dec_buffer) 0 (decimal (u64 n)) args color con _
        (dec2str-IsString (u64 n) con.dec_buffer)
        (omega (arith, length-numeral 10 (λ digit. digit + 48) 20 (u64 n) [])) refl
  format-expand as_hex [] color con = refl
  format-expand as_hex (string s ∷ args) color con = refl
  format-expand as_hex (number n ∷ args) color con =
      print_bytes-visible (hex2str (u64 n) con.hex_buffer) 0 (48 ∷ 120 ∷ two_digits (u64 n)) args
        color con _ (hex2str-IsString (u64 n) con.hex_buffer)
        (omega (arith, length-two_digits (u64 n))) refl
  format-expand as_digits [] color con = refl
  format-expand as_digits (string s ∷ args) color con = refl
  format-expand as_digits (number n ∷ args) color con =
      let (_, _, (_, _, digits)) = hex2str-IsString (u64 n) con.hex_buffer in
      print_bytes-visible (hex2str (u64 n) con.hex_buffer) 2 (two_digits (u64 n)) args color con _
        digits (omega (arith, length-two_digits (u64 n))) refl
  format-expand as_char [] color con = refl
  format-expand as_char (string s ∷ args) color con = refl
  format-expand as_char (number n ∷ args) color con = elim (Bool-cases (u8 n == 0)) [
    | inl nul ↦ rw (nul, format, expand) refl
    | inr other ↦
        rw (other, format, expand)
          (ap (λ (c : Console). some (args, c)) (putstr-visible color (u8 n ∷ []) con))
  ]

  -- The text of a format, drawn.
  abbrev pub drawn : Option (List Token) → List Arg → Color → Console → Option Console
  drawn none args color con = none
  drawn (some ts) args color con = Option.map (λ text. draw text con) (render ts args color)

  drawn-text :
      (text : Option (List (Color × List ℕ))) (color : Color) (cs : List ℕ) (con : Console)
      → Option.map (λ text. draw text con) (Option.map (λ text. (color, cs) ∷ text) text)
        ≡ Option.map (λ text. draw text (putstr outside fb color cs con)) text
  unfolding draw
  drawn-text none color cs con = refl
  drawn-text (some text) color cs con = refl

  drawn-literal :
      (ts : Option (List Token)) (c : ℕ) (args : List Arg) (color : Color) (con : Console)
      → drawn (Option.map (λ ts. literal c ∷ ts) ts) args color con
        ≡ drawn ts args color (putstr outside fb color (c ∷ []) con)
  unfolding render
  drawn-literal none c args color con = refl
  drawn-literal (some ts) c args color con = drawn-text (render ts args color) color (c ∷ []) con

  drawn-select :
      (ts : Option (List Token)) (c : ℕ) (args : List Arg) (color : Color) (con : Console)
      → drawn (Option.map (λ ts. select c ∷ ts) ts) args color con
        ≡ drawn ts args (select_color c color) con
  unfolding render
  drawn-select none c args color con = refl
  drawn-select (some ts) c args color con = refl

  -- What is drawn behind a directive.
  abbrev continue : Option (List Token) → Color → Option (List Arg × Console) → Option Console
  continue ts color none = none
  continue ts color (some (left, con)) = drawn ts left color con

  drawn-insert :
      (ts : Option (List Token)) (d : Directive) (args : List Arg) (color : Color) (con : Console)
      → drawn (Option.map (λ ts. insert d ∷ ts) ts) args color con
        ≡ continue ts color (put_expanded color con (expand d args))
  unfolding render
  drawn-insert none d args color con = nothing (expand d args)
    where
      nothing :
          (e : Option (List Arg × List ℕ)) → none ≡ continue none color (put_expanded color con e)
      nothing none = refl
      nothing (some _) = refl
  drawn-insert (some ts) d args color con = by_expansion (expand d args) refl
    where
      by_expansion :
          (e : Option (List Arg × List ℕ))
          → expand d args ≡ e
          → drawn (some (insert d ∷ ts)) args color con
            ≡ continue (some ts) color (put_expanded color con e)
      by_expansion none h = rw (h, render) refl
      by_expansion (some (left, cs)) h =
          rw (h, render) (drawn-text (render ts left color) color cs con)

  formatted :
      (rest : List ℕ) (color : Color) (o : Option (List Arg × Console))
      → ((left : List Arg) (con : Console)
          → Option.map visible (print_from outside fb rest left color con)
            ≡ drawn (tokens rest) left color (visible con))
      → Option.map visible (elim o as (λ _. Option Console) [
        | none ↦ none
        | some (left, con) ↦ print_from outside fb rest left color con
      ])
        ≡ continue (tokens rest) color (shown o)
  formatted rest color none behind = refl
  formatted rest color (some (left, con)) behind = behind left con

  print_from-render :
      (fmt : List ℕ) (args : List Arg) (color : Color) (con : Console)
      → Option.map visible (print_from outside fb fmt args color con)
        ≡ drawn (tokens fmt) args color (visible con)
  unfolding print_from tokens render draw
  print_from-render [] args color con = refl
  print_from-render (c ∷ []) args color con = elim (kind-cases c) [
    | inl k ↦ rw (k, print_from, tokens) refl
    | inr (inl k) ↦ rw (k, print_from, tokens) refl
    | inr (inr k) ↦
        rw (k, print_from, tokens)
          (ap (λ (c : Console). some c) (putstr-visible color (c ∷ []) con))
  ]
  print_from-render (c ∷ d ∷ rest) args color con = elim (kind-cases c) [
    | inl k ↦
        rw (k, print_from, tokens)
          (formatted rest color (format outside fb (directive d) args color con)
              (λ left con. print_from-render rest left color con)
            ∙ ap (continue (tokens rest) color) (format-expand (directive d) args color con)
            ∙ sym (drawn-insert (tokens rest) (directive d) args color (visible con)))
    | inr (inl k) ↦
        rw (k, print_from, tokens)
          (print_from-render rest args (select_color d color) con
            ∙ sym (drawn-select (tokens rest) d args color (visible con)))
    | inr (inr k) ↦
        rw (k, print_from, tokens)
          (print_from-render (d ∷ rest) args color (putstr outside fb color (c ∷ []) con)
            ∙ ap (drawn (tokens (d ∷ rest)) args color) (putstr-visible color (c ∷ []) con)
            ∙ sym (drawn-literal (tokens (d ∷ rest)) c args color (visible con)))
  ]

  -- For every format, arguments and console, printk leaves the cursor and the pixels that it
  -- leaves to split the format into tokens, to render these and the arguments as pieces of text
  -- with a color, the numbers as numerals in base 10 and 16, and to draw the text; it has no
  -- result exactly if the format ends inside a token or an argument is missing or of another
  -- kind.
  pub printk-drawn :
      (fmt : List ℕ) (args : List Arg) (con : Console)
      → Option.map visible (printk outside fb fmt args con)
        ≡ drawn (tokens fmt) args default_color (visible con)
  unfolding printk
  printk-drawn fmt args con = print_from-render fmt args default_color con
