-- ===== src/Tty/Console.antt =====
-- sys/tty/console.c: the cursor, and `printk`. A string is the list of its bytes before the zero.
pub mod Glyph
pub mod Cursor
pub mod Print
pub mod Render
use qnixx.Common.{
  ℕ, zero, suc, ◌+◌, ◌-◌, ◌*◌, ◌/◌, ◌%◌, ◌^◌, Bool, true, false, Option, none, some, List, [], ◌∷◌,
  ◌==◌, ltb, leb, if◌then◌else◌, get_elem?,
}
use qnixx.Common.Word.{u8, u32, u64}
use qnixx.Common.Loop.{for_loop}
use qnixx.Libkern.String.{Chars, dec2str, hex2str}
use qnixx.Dev.Fb.{
  Framebuffer, Pixels, framebuffer_get_height, framebuffer_putpix, framebuffer_clear,
}
use qnixx.Tty.Font.{default_font_data}

abbrev pub font_width : ℕ
font_width = 9

abbrev pub font_height : ℕ
font_height = 16

abbrev pub default_bg : ℕ
default_bg = 0x000000

abbrev pub default_fg : ℕ
default_fg = 0x899499

-- `MAKE_FG_BG`, `EXTRACT_FG` and `EXTRACT_BG`: a color is a pair.
pub record Color : Type 0 where
  pub fg : ℕ
  pub bg : ℕ

abbrev pub default_color : Color
default_color = record { fg = default_fg; bg = default_bg }

-- The file's variables, the pixels, and the static buffers of `dec2str` and `hex2str`.
pub record Console : Type 0 where
  pub _cx : ℕ
  pub _cy : ℕ
  pub pixels : Pixels
  pub dec_buffer : Chars
  pub hex_buffer : Chars

-- `c -= 32`, and the character as a 64-bit index: a `char` is signed.
abbrev pub glyph_index : ℕ → ℕ
glyph_index c =
    let shifted = u8 (c + (256 - 32)) in
    if ltb shifted 128 then shifted else shifted + (2 ^ 64 - 256)

-- The bytes of a static buffer before the first zero. `none`: there is none within the fuel.
unfoldable pub bytes_of : ℕ → Chars → ℕ → Option (List ℕ)
bytes_of zero str i = none
bytes_of (suc fuel) str i =
    let rest = bytes_of fuel str (i + 1) in
    if str i == 0 then some [] else elim rest [ none ↦ none | some cs ↦ some (str i ∷ cs) ]

-- An argument of `printk`: a string, or a number as its bits.
pub data Arg : Type 0 where
  string : List ℕ → Arg
  number : ℕ → Arg

-- What the character behind a `%` asks for. `%d`, `%u` and `%l` are the same, and so are `%x` and
-- `%p`.
pub data Directive : Type 0 where
  as_string as_decimal as_hex as_digits as_char ignored : Directive

abbrev pub directive : ℕ → Directive
directive c =
    if c == 115
    then as_string
    else (if (c == 100)
        then as_decimal
        else (if (c == 117)
            then as_decimal
            else (if (c == 108)
                then as_decimal
                else (if (c == 120)
                    then as_hex
                    else (if (c == 112)
                        then as_hex
                        else (if (c == 88)
                            then as_digits
                            else (if (c == 99) then as_char else ignored)))))))

-- The color that the character behind an escape selects.
abbrev pub select_color : ℕ → Color → Color
select_color c color =
    if c == 48
    then default_color
    else (if c == 49
        then record { fg = 0xB2BEB5; bg = default_bg }
        else (if c == 50
            then record { fg = 0xFF0000; bg = default_bg }
            else (if c == 51
                then record { fg = 0x00CED1; bg = default_bg }
                else (if c == 52 then record { fg = 0x9370DB; bg = default_bg } else color))))

-- How a character of the format is read.
pub data Kind : Type 0 where
  percent escape plain : Kind

abbrev pub kind : ℕ → Kind
kind c = if c == 37 then percent else (if c == 27 then escape else plain)

abbrev pub move_cursor : (x y : ℕ) → Console → Console
move_cursor x y con = record con { _cx = u32 x; _cy = u32 y }

-- `outside` is what the source reads behind and before the font's data.
module _ (outside : ℕ → ℕ) (fb : Framebuffer) where
  abbrev pub font_data : ℕ → ℕ
  font_data i = elim (get_elem? default_font_data i) [ none ↦ outside i | some column ↦ column ]

  -- One column of a character, at `cx`.
  unfoldable pub put_column : (x y c bg fg cx : ℕ) → Pixels → Pixels
  put_column x y c bg fg cx pixels =
      let column = font_data (u64 (glyph_index c * font_width + cx)) in
      for_loop font_height font_height 1
        (λ cy pixels.
          framebuffer_putpix fb (u32 (x + cx)) (u32 (y + cy))
            (if column / 2 ^ cy % 2 == 0 then bg else fg) pixels)
        0 pixels

  unfoldable pub putch : (x y c bg fg : ℕ) → Pixels → Pixels
  putch x y c bg fg pixels = for_loop font_width font_width 1 (put_column x y c bg fg) 0 pixels

  unfoldable pub newline : Console → Console
  newline con =
      if leb (u32 (framebuffer_get_height fb + 2 ^ 32 - 5)) con._cy
      then move_cursor 0 0 (record con { pixels = framebuffer_clear fb default_bg con.pixels })
      else move_cursor 0 (con._cy + (font_height + 4)) con

  -- One round of `putstr`.
  unfoldable pub put_char : Color → ℕ → Console → Console
  put_char color c con =
      if c == 10
      then newline con
      else move_cursor (con._cx + font_width) con._cy
          (record con { pixels = putch (u32 con._cx) (u32 con._cy) c color.bg color.fg con.pixels })

  unfoldable pub putstr : Color → List ℕ → Console → Console
  putstr color [] con = con
  putstr color (c ∷ cs) con = putstr color cs (put_char color c con)

  -- The string in a buffer is printed.
  unfoldable pub print_bytes :
      Option (List ℕ) → List Arg → Color → Console → Option (List Arg × Console)
  print_bytes none args color con = none
  print_bytes (some s) args color con = some (args, putstr color s con)

  -- What a `%` prints, with the arguments that are left. `none`: `va_arg` is asked for an argument
  -- that is not there, or is of another kind.
  unfoldable pub format : Directive → List Arg → Color → Console → Option (List Arg × Console)
  format ignored args color con = some (args, con)
  format as_string (string s ∷ args) color con = some (args, putstr color s con)
  format as_decimal (number n ∷ args) color con =
      let buffer = dec2str (u64 n) con.dec_buffer in
      print_bytes (bytes_of 80 buffer 0) args color (record con { dec_buffer = buffer })
  format as_hex (number n ∷ args) color con =
      let buffer = hex2str (u64 n) con.hex_buffer in
      print_bytes (bytes_of 80 buffer 0) args color (record con { hex_buffer = buffer })
  format as_digits (number n ∷ args) color con =
      let buffer = hex2str (u64 n) con.hex_buffer in
      print_bytes (bytes_of 80 buffer 2) args color (record con { hex_buffer = buffer })
  format as_char (number n ∷ args) color con =
      some (args, if u8 n == 0 then con else putstr color (u8 n ∷ []) con)
  format _ _ color con = none

  -- The loop over the format. `none` is also a `%` or an escape before the zero byte: the zero is
  -- stepped over, and what is behind the string is read.
  unfoldable pub print_from : List ℕ → List Arg → Color → Console → Option Console
  print_from [] args color con = some con
  print_from (c ∷ []) args color con = elim (kind c) [
    | percent ↦ none
    | escape ↦ none
    | plain ↦ some (putstr color (c ∷ []) con)
  ]
  print_from (c ∷ d ∷ rest) args color con = elim (kind c) [
    | percent ↦ elim (format (directive d) args color con) [
      | none ↦ none
      | some (left, con') ↦ print_from rest left color con'
    ]
    | escape ↦ print_from rest args (select_color d color) con
    | plain ↦ print_from (d ∷ rest) args color (putstr color (c ∷ []) con)
  ]

  unfoldable pub printk : (fmt : List ℕ) → List Arg → Console → Option Console
  printk fmt args con = print_from fmt args default_color con
