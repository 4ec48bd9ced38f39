-- ===== src/Dev/Fb.antt =====
-- sys/dev/video/fb.c: the frame buffer that the boot loader gives. Its pixels are 32-bit words from
-- its address on, as a function of the index.
pub mod Area
use qnixx.Common.{ℕ, ◌+◌, ◌*◌, ◌/◌, update, Option, none, some, List, [], ◌∷◌}
use qnixx.Common.Word.{u32, u64}
use qnixx.Common.Loop.{for_loop}

-- `struct limine_framebuffer`, of which the rest is not used. `pitch` is in bytes.
pub record Framebuffer : Type 0 where
  pub address : ℕ
  pub width : ℕ
  pub height : ℕ
  pub pitch : ℕ

-- The first of the boot loader's answer.
abbrev pub fb_init : List Framebuffer → Option Framebuffer
fb_init [] = none
fb_init (fb ∷ fbs) = some fb

abbrev pub Pixels : Type 0
Pixels = ℕ → ℕ

abbrev pub framebuffer_get_index : Framebuffer → (x y : ℕ) → ℕ
framebuffer_get_index fb x y = u32 (x + y * (fb.pitch / 4))

abbrev pub framebuffer_get_height : Framebuffer → ℕ
framebuffer_get_height fb = u32 fb.height

abbrev pub framebuffer_get_width : Framebuffer → ℕ
framebuffer_get_width fb = u32 fb.width

abbrev pub framebuffer_get_pitch : Framebuffer → ℕ
framebuffer_get_pitch fb = u32 fb.pitch

abbrev pub framebuffer_get_ptr : Framebuffer → ℕ
framebuffer_get_ptr fb = fb.address

abbrev pub framebuffer_putpix : Framebuffer → (x y color : ℕ) → Pixels → Pixels
framebuffer_putpix fb x y color pixels = update pixels (framebuffer_get_index fb x y) color

unfoldable pub framebuffer_clear : Framebuffer → (color : ℕ) → Pixels → Pixels
framebuffer_clear fb color pixels =
    let n = u64 (fb.width * fb.height) in
    for_loop n n 1 (λ i pixels. update pixels i color) 0 pixels
