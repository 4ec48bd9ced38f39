-- ===== src/Tty/Console/Glyph.antt =====
-- The pixels of a character.
use qnixx.Common.{
  ℕ, ◌+◌, ◌*◌, ◌/◌, ◌%◌, ◌^◌, ◌≤◌, ◌<◌, ◌≡◌, ◌≢◌, ◌↔◌, ◌⊎◌, inl, inr, refl, length, ◌==◌,
  if◌then◌else◌, update_self, update_ne, arith,
}
use native.Mathlib.Nat.{mul-le-mul_left, mul_comm}
use qnixx.Common.Word.{u32, u64}
use qnixx.Common.Loop.{for_loop-keeps, for_loop-sets}
use qnixx.Dev.Fb.{Framebuffer, Pixels, framebuffer_get_index, framebuffer_putpix}
use qnixx.Dev.Fb.Area.{get_index-apart}
use qnixx.Tty.Font.{default_font_data}
use qnixx.Tty.Console.{glyph_index, font_width, font_height, font_data, put_column, putch}

-- The cell of a character lies inside the rows, and its pixels have indices of 32 bits.
abbrev pub Fits : Framebuffer → (x y : ℕ) → Type 0
Fits fb x y =
    (x + font_width ≤ fb.pitch / 4)
    × (x + font_width + (y + font_height) * (fb.pitch / 4) < 2 ^ 32)
    × (y + font_height < 2 ^ 32)

module _ (outside : ℕ → ℕ) (fb : Framebuffer) (x y c bg fg : ℕ) where
  abbrev at : (i j : ℕ) → ℕ
  at i j = framebuffer_get_index fb (x + i) (y + j)

  -- What is drawn in column `i` and row `j` of the cell.
  abbrev pub color_at : (i j : ℕ) → ℕ
  color_at i j =
      if font_data outside fb (u64 (glyph_index c * font_width + i)) / 2 ^ j % 2 == 0
      then bg
      else fg

  abbrev plot : (i j : ℕ) → Pixels → Pixels
  plot i j = framebuffer_putpix fb (u32 (x + i)) (u32 (y + j)) (color_at i j)

  -- Inside the cell nothing wraps.
  plot_at :
      (i j : ℕ)
      → Fits fb x y
      → i < 9
      → j < 16
      → framebuffer_get_index fb (u32 (x + i)) (u32 (y + j)) ≡ at i j
  plot_at i j (left, fits, rows) small small' =
      let column : u32 (x + i) ≡ x + i = omega (arith, fits) in
      let row : u32 (y + j) ≡ y + j = omega (arith, rows) in rw (column, row) refl

  at-fits : (i j : ℕ) → Fits fb x y → i < 9 → j < 16 → x + i + (y + j) * (fb.pitch / 4) < 2 ^ 32
  at-fits i j (left, fits, rows) small small' =
      let w = fb.pitch / 4 in
      let up : w * (y + j) ≤ w * (y + 16) = mul-le-mul_left w (omega arith) in
      omega (arith, up, fits, mul_comm w (y + j), mul_comm w (y + 16))

  at-apart :
      (i j i' j' : ℕ)
      → Fits fb x y
      → i < 9
      → j < 16
      → i' < 9
      → j' < 16
      → (i ≢ i') ⊎ (j ≢ j')
      → at i j ≢ at i' j'
  at-apart i j i' j' fits small small' small2 small2' differ =
      get_index-apart fb (x + i) (y + j) (x + i') (y + j') (omega (arith, fits.0))
        (omega (arith, fits.0)) (at-fits i j fits small small') (at-fits i' j' fits small2 small2')
        (elim differ [
          | inl columns ↦ inl (λ e. columns (omega (arith, e)))
          | inr rows ↦ inr (λ e. rows (omega (arith, e)))
        ])

  put_column-sets :
      (i j : ℕ) (pixels : Pixels)
      → Fits fb x y
      → i < 9
      → j < 16
      → put_column outside fb x y c bg fg i pixels (at i j) ≡ color_at i j
  unfolding put_column
  put_column-sets i j pixels fits small small' =
      for_loop-sets (plot i) (λ p. p (at i j)) 16 j (color_at i j) pixels small'
        (λ s. rw (plot_at i j fits small small') (update_self s (at i j) (color_at i j)))
        (λ j' after to s. rw (plot_at i j' fits small to) (
          update_ne s (color_at i j')
            (at-apart i j i j' fits small small' small to (inr (omega (arith, after))))))

  put_column-keeps :
      (i a : ℕ) (pixels : Pixels)
      → Fits fb x y
      → i < 9
      → ((j : ℕ) → j < 16 → a ≢ at i j)
      → put_column outside fb x y c bg fg i pixels a ≡ pixels a
  unfolding put_column
  put_column-keeps i a pixels fits small off =
      for_loop-keeps (plot i) (λ p. p a) 16 pixels
        (λ j to s. rw (plot_at i j fits small to) (update_ne s (color_at i j) (off j to)))

  putch-draws :
      (i j : ℕ) (pixels : Pixels)
      → Fits fb x y
      → i < 9
      → j < 16
      → putch outside fb x y c bg fg pixels (framebuffer_get_index fb (x + i) (y + j))
        ≡ color_at i j
  unfolding putch
  putch-draws i j pixels fits small small' =
      for_loop-sets (put_column outside fb x y c bg fg) (λ p. p (at i j)) 9 i (color_at i j) pixels
        small (λ s. put_column-sets i j s fits small small')
        (λ i' after to s.
          put_column-keeps i' (at i j) s fits to
            (λ j' to'. at-apart i j i' j' fits small small' to to' (inl (omega (arith, after)))))

  putch-keeps :
      (a : ℕ) (pixels : Pixels)
      → Fits fb x y
      → ((i j : ℕ) → i < 9 → j < 16 → a ≢ framebuffer_get_index fb (x + i) (y + j))
      → putch outside fb x y c bg fg pixels a ≡ pixels a
  unfolding putch
  putch-keeps a pixels fits off =
      for_loop-keeps (put_column outside fb x y c bg fg) (λ p. p a) 9 pixels
        (λ i to s. put_column-keeps i a s fits to (λ j to'. off i j to to'))

  -- If the cell of a character lies inside the rows of the frame buffer and its indices fit in 32
  -- bits, putch gives each pixel of the cell the foreground or the background color as the bit of
  -- the font says, and changes no other pixel.
  pub putch_lem :
      (pixels : Pixels)
      → Fits fb x y
      → ((i j : ℕ)
          → i < 9
          → j < 16
          → putch outside fb x y c bg fg pixels (framebuffer_get_index fb (x + i) (y + j))
            ≡ color_at i j)
        × ((a : ℕ)
            → ((i j : ℕ) → i < 9 → j < 16 → a ≢ framebuffer_get_index fb (x + i) (y + j))
            → putch outside fb x y c bg fg pixels a ≡ pixels a)
  putch_lem pixels fits =
      (λ i j to to'. putch-draws i j pixels fits to to', λ a off. putch-keeps a pixels fits off)

-- The characters from 32 to 126 are those whose columns lie in the table.
pub glyph_index-printable :
    (c i : ℕ)
    → c < 256
    → i < 9
    → (u64 (glyph_index c * font_width + i) < length default_font_data) ↔ ((32 ≤ c) × (c < 127))
glyph_index-printable c i byte small = (λ inn. ground arith, λ printable. ground arith)
