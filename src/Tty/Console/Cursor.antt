-- ===== src/Tty/Console/Cursor.antt =====
-- Where the cursor goes.
use qnixx.Common.{
  ℕ, ◌+◌, ◌-◌, ◌*◌, ◌/◌, ◌%◌, ◌^◌, ◌≤◌, ◌<◌, ◌≡◌, ◌⊎◌, inl, inr, refl, sym, ◌∙◌, false, Bool-cases,
  Option, none, some, none≢some, some_eq, some_pair, Option-cases, List, [], ◌∷◌, ◌==◌, leb,
  if◌then◌else◌, arith,
}
use native.Mathlib.Nat.{mul-le-mul_left, mul_comm}
use qnixx.Common.Word.{u8, u32}
use qnixx.Dev.Fb.{Framebuffer, framebuffer_get_index}
use qnixx.Tty.Console.{
  print_bytes, font_height, Color, default_color, Console, newline, put_char, putstr, format,
  print_from, printk, directive, Arg, string, number, Directive, as_string, as_decimal, as_hex,
  as_digits, as_char, ignored, select_color, kind, percent, escape, plain,
}

-- The height of the frame buffer is at least that of a line and not near 2^32.
abbrev pub IsScreen : Framebuffer → Type 0
IsScreen fb = (5 ≤ fb.height) × (fb.height + 20 < 2 ^ 32)

-- The cursor is less than 15 rows below the height, on a line that is a multiple of 20.
abbrev pub InRange : Framebuffer → Console → Type 0
InRange fb con = (con._cy < fb.height + 15) × (con._cy % 20 ≡ 0)

pub kind-cases : (c : ℕ) → (kind c ≡ percent) ⊎ ((kind c ≡ escape) ⊎ (kind c ≡ plain))
kind-cases c = ground arith

module _ (outside : ℕ → ℕ) (fb : Framebuffer) where
  newline-InRange :
      (con : Console) → IsScreen fb → InRange fb con → InRange fb (newline outside fb con)
  unfolding newline
  newline-InRange con (tall, fits) (inn, line) =
      let limit : u32 (u32 fb.height + 2 ^ 32 - 5) ≡ fb.height - 5 = omega (arith, tall, fits) in
      elim (Bool-cases (leb (fb.height - 5) con._cy)) [
        | inl last ↦ rw (limit, last) (omega (arith, tall), omega arith)
        | inr more ↦
            let early : con._cy < fb.height - 5 = ground (arith, more) in
            rw (limit, more) (omega (arith, early, fits), omega (arith, early, fits, line))
      ]

  put_char-InRange :
      (color : Color) (c : ℕ) (con : Console)
      → IsScreen fb
      → InRange fb con
      → InRange fb (put_char outside fb color c con)
  unfolding put_char
  put_char-InRange color c con screen (inn, line) = elim (Bool-cases (c == 10)) [
    | inl feed ↦ rw feed (newline-InRange con screen (inn, line))
    | inr other ↦ rw other (omega (arith, inn, screen), omega (arith, inn, line, screen))
  ]

  putstr-InRange :
      (color : Color) (str : List ℕ) (con : Console)
      → IsScreen fb
      → InRange fb con
      → InRange fb (putstr outside fb color str con)
  unfolding putstr
  putstr-InRange color [] con screen inn = inn
  putstr-InRange color (c ∷ cs) con screen inn =
      putstr-InRange color cs (put_char outside fb color c con) screen
        (put_char-InRange color c con screen inn)

  print_bytes-InRange :
      (s : Option (List ℕ)) (args left : List Arg) (color : Color) (con con' : Console)
      → print_bytes outside fb s args color con ≡ some (left, con')
      → IsScreen fb
      → InRange fb con
      → InRange fb con'
  unfolding print_bytes
  print_bytes-InRange none args left color con con' done screen inn = absurd (none≢some done)
  print_bytes-InRange (some s) args left color con con' done screen inn =
      rw (← (some_pair done).1) (putstr-InRange color s con screen inn)

  format-InRange :
      (d : Directive) (args left : List Arg) (color : Color) (con con' : Console)
      → format outside fb d args color con ≡ some (left, con')
      → IsScreen fb
      → InRange fb con
      → InRange fb con'
  unfolding format
  format-InRange ignored args left color con con' done screen inn = rw (← (some_pair done).1) inn
  format-InRange as_string (string s ∷ args) left color con con' done screen inn =
      rw (← (some_pair done).1) (putstr-InRange color s con screen inn)
  format-InRange as_decimal (number n ∷ args) left color con con' done screen inn =
      print_bytes-InRange _ args left color _ con' done screen inn
  format-InRange as_hex (number n ∷ args) left color con con' done screen inn =
      print_bytes-InRange _ args left color _ con' done screen inn
  format-InRange as_digits (number n ∷ args) left color con con' done screen inn =
      print_bytes-InRange _ args left color _ con' done screen inn
  format-InRange as_char (number n ∷ args) left color con con' done screen inn =
      let one : InRange fb (if u8 n == 0 then con else putstr outside fb color (u8 n ∷ []) con) =
        elim (Bool-cases (u8 n == 0)) [
          | inl nul ↦ rw nul inn
          | inr some_char ↦ rw some_char (putstr-InRange color (u8 n ∷ []) con screen inn)
        ] in
      rw (← (some_pair done).1) one
  format-InRange as_string [] left color con con' done screen inn = absurd (none≢some done)
  format-InRange as_string (number n ∷ args) left color con con' done screen inn =
      absurd (none≢some done)
  format-InRange as_decimal [] left color con con' done screen inn = absurd (none≢some done)
  format-InRange as_decimal (string s ∷ args) left color con con' done screen inn =
      absurd (none≢some done)
  format-InRange as_hex [] left color con con' done screen inn = absurd (none≢some done)
  format-InRange as_hex (string s ∷ args) left color con con' done screen inn =
      absurd (none≢some done)
  format-InRange as_digits [] left color con con' done screen inn = absurd (none≢some done)
  format-InRange as_digits (string s ∷ args) left color con con' done screen inn =
      absurd (none≢some done)
  format-InRange as_char [] left color con con' done screen inn = absurd (none≢some done)
  format-InRange as_char (string s ∷ args) left color con con' done screen inn =
      absurd (none≢some done)

  print_from-InRange :
      (fmt : List ℕ) (args : List Arg) (color : Color) (con con' : Console)
      → print_from outside fb fmt args color con ≡ some con'
      → IsScreen fb
      → InRange fb con
      → InRange fb con'
  unfolding print_from
  print_from-InRange [] args color con con' done screen inn = rw (← some_eq done) inn
  print_from-InRange (c ∷ []) args color con con' done screen inn = elim (kind-cases c) [
    | inl k ↦ absurd (none≢some (sym (rw (k, print_from) refl) ∙ done))
    | inr (inl k) ↦ absurd (none≢some (sym (rw (k, print_from) refl) ∙ done))
    | inr (inr k) ↦
        let put : print_from outside fb (c ∷ []) args color con
            ≡ some (putstr outside fb color (c ∷ []) con) =
          rw (k, print_from) refl in
        rw (← some_eq (sym put ∙ done)) (putstr-InRange color (c ∷ []) con screen inn)
  ]
  print_from-InRange (c ∷ d ∷ rest) args color con con' done screen inn = elim (kind-cases c) [
    | inl k ↦ elim (Option-cases (format outside fb (directive d) args color con)) [
      | inl failed ↦ absurd (none≢some (sym (rw (k, failed, print_from) refl) ∙ done))
      | inr ((left, con1), run) ↦
          let next : print_from outside fb (c ∷ d ∷ rest) args color con
              ≡ print_from outside fb rest left color con1 =
            rw (k, run, print_from) refl in
          print_from-InRange rest left color con1 con' (sym next ∙ done) screen
            (format-InRange (directive d) args left color con con1 run screen inn)
    ]
    | inr (inl k) ↦
        let next : print_from outside fb (c ∷ d ∷ rest) args color con
            ≡ print_from outside fb rest args (select_color d color) con =
          rw (k, print_from) refl in
        print_from-InRange rest args (select_color d color) con con' (sym next ∙ done) screen inn
    | inr (inr k) ↦
        let next : print_from outside fb (c ∷ d ∷ rest) args color con
            ≡ print_from outside fb (d ∷ rest) args color (putstr outside fb color (c ∷ []) con) =
          rw (k, print_from) refl in
        print_from-InRange (d ∷ rest) args color (putstr outside fb color (c ∷ []) con) con'
          (sym next ∙ done) screen (putstr-InRange color (c ∷ []) con screen inn)
  ]

  -- On a frame buffer of at least 5 and fewer than 2^32 - 20 rows, if the row of the cursor is a
  -- multiple of 20 and less than the height plus 15, it still is after every printk that returns,
  -- for every format and arguments.
  pub printk-InRange :
      (fmt : List ℕ) (args : List Arg) (con con' : Console)
      → printk outside fb fmt args con ≡ some con'
      → IsScreen fb
      → InRange fb con
      → InRange fb con'
  unfolding printk
  printk-InRange fmt args con con' done screen inn =
      print_from-InRange fmt args default_color con con' done screen inn

  newline-next :
      (con : Console)
      → IsScreen fb
      → con._cy + 5 < fb.height
      → (newline outside fb con)._cy ≡ con._cy + 20
  unfolding newline
  newline-next con (tall, fits) high =
      let limit : u32 (u32 fb.height + 2 ^ 32 - 5) ≡ fb.height - 5 = omega (arith, tall, fits) in
      let more : leb (fb.height - 5) con._cy ≡ false = ground (arith, high) in
      rw (limit, more) (omega (arith, high, fits))

  -- If the cursor is at a row at most 35 and at least 6 above the end of the frame buffer, and
  -- the indices fit in 32 bits, then after newline the last row of a character at the cursor lies
  -- behind the end of the frame buffer.
  pub newline-beyond :
      (con : Console) (x : ℕ)
      → IsScreen fb
      → fb.height ≤ con._cy + 35
      → con._cy + 5 < fb.height
      → (fb.height + 30) * (fb.pitch / 4) + x < 2 ^ 32
      → fb.height * (fb.pitch / 4)
        ≤ framebuffer_get_index fb x ((newline outside fb con)._cy + (font_height - 1))
  newline-beyond con x screen low high fits =
      let w = fb.pitch / 4 in
      let row = con._cy + 35 in
      let up : w * fb.height ≤ w * row = mul-le-mul_left w low in
      let down : w * row ≤ w * (fb.height + 30) = mul-le-mul_left w (omega (arith, high)) in
      rw (newline-next con screen high) (
        omega (
          arith,
          up,
          down,
          fits,
          mul_comm w fb.height,
          mul_comm w row,
          mul_comm w (fb.height + 30),
        ))
