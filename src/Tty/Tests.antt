-- ===== src/Tty/Tests.antt =====
-- A screen of 640 by 480 pixels.
use mathlib.Core.Option
use qnixx.Common.{ℕ, ◌+◌, ◌-◌, ◌*◌, ◌/◌, ◌≤◌, ◌<◌, ◌≡◌, ◌≢◌, refl, some, List, [], ◌∷◌, arith}
use qnixx.Dev.Fb.{Framebuffer, framebuffer_get_index}
use qnixx.Tty.Console.{
  Console, default_color, number, as_decimal, as_digits, newline, putch, putstr, printk,
  font_height,
}
use qnixx.Tty.Console.Glyph.{Fits, color_at, putch_lem}
use qnixx.Tty.Console.Cursor.{IsScreen, InRange, printk-InRange, newline-beyond}
use qnixx.Tty.Console.Render.{
  literal, insert, select, tokens, expand, render, visible, drawn, printk-drawn,
}
use qnixx.Libkern.String.Numeral.{numeral}
use qnixx.Tty.Console.Print.{printk-plain}

abbrev outside : ℕ → ℕ
outside _ = 0

abbrev fb : Framebuffer
fb = record { address = 0xFD000000; width = 640; height = 480; pitch = 2560 }

abbrev top : Console
top = record { _cx = 0; _cy = 0; pixels = λ _. 0; dec_buffer = λ _. 0; hex_buffer = λ _. 0 }

abbrev bottom : Console
bottom = record top { _cy = 460 }

screen : IsScreen fb
screen = (omega arith, omega arith)

fits : Fits fb 18 20
fits = (omega arith, omega arith, omega arith)

putch_lem_example :
    ((i j : ℕ)
      → i < 9
      → j < 16
      → putch outside fb 18 20 33 0 7 (λ _. 1) (framebuffer_get_index fb (18 + i) (20 + j))
        ≡ color_at outside fb 18 20 33 0 7 i j)
    × ((a : ℕ)
        → ((i j : ℕ) → i < 9 → j < 16 → a ≢ framebuffer_get_index fb (18 + i) (20 + j))
        → putch outside fb 18 20 33 0 7 (λ _. 1) a ≡ 1)
putch_lem_example = putch_lem outside fb 18 20 33 0 7 (λ _. 1) fits

-- `"ok\n"`
abbrev ok : List ℕ
ok = 111 ∷ 107 ∷ 10 ∷ []

printk-InRange_example : InRange fb (putstr outside fb default_color ok top)
printk-InRange_example =
    printk-InRange outside fb ok [] top (putstr outside fb default_color ok top)
      (printk-plain outside fb ok [] top (refl, (refl, (refl, tt)))) screen (omega arith, refl)

newline-beyond_example :
    480 * (2560 / 4)
    ≤ framebuffer_get_index fb 0 ((newline outside fb bottom)._cy + (font_height - 1))
newline-beyond_example =
    newline-beyond outside fb bottom 0 screen (omega arith) (omega arith) (omega arith)

-- `"ok\n%d \e2%X"`
abbrev colored : List ℕ
colored = 111 ∷ 107 ∷ 10 ∷ 37 ∷ 100 ∷ 32 ∷ 27 ∷ 50 ∷ 37 ∷ 88 ∷ []

printk-drawn_example :
    Option.map visible (printk outside fb colored (number 409 ∷ number 10 ∷ []) top)
    ≡ drawn outside fb (tokens colored) (number 409 ∷ number 10 ∷ []) default_color (visible top)
printk-drawn_example = printk-drawn outside fb colored (number 409 ∷ number 10 ∷ []) top

-- What the format stands for.
colored_text :
    render
      (literal 111 ∷ insert as_decimal ∷ select 50 ∷ insert as_digits ∷ [])
      (number 409 ∷ number 10 ∷ [])
      default_color
    ≡ some (
        (default_color, 111 ∷ [])
        ∷ (default_color, 52 ∷ 48 ∷ 57 ∷ [])
        ∷ (record { fg = 0xFF0000; bg = 0 }, 48 ∷ 65 ∷ [])
        ∷ [])
unfolding render expand numeral
colored_text = refl
