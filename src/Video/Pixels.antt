-- ===== src/Video/Pixels.antt =====
-- Kernel/c/drivers/videoDriver.c writes nothing outside the framebuffer.
use mass_os.Prelude.{
  Bool-cases, update-ne, ℕ, zero, suc, ◌+◌, ◌*◌, ◌≤◌, ◌<◌, ◌≡◌, refl, ◌∙◌, ◌⊎◌, inl, inr, arith,
}
use mass_os.Video.{Mode, valid_position, bytes_per_pixel, put_color, put_pixel, fill_pixels}

-- A row of the screen fits the pitch.
pub record IsMode (m : Mode) : Type 0 where
  pub row_fits : m.width * bytes_per_pixel m ≤ m.pitch

-- Not a byte of the framebuffer.
abbrev pub Elsewhere : Mode → ℕ → Type 0
Elsewhere m j = (j < m.framebuffer) ⊎ (m.framebuffer + m.height * m.pitch ≤ j)

put_color-outside :
    (n i at color : ℕ) (memory : ℕ → ℕ) (j : ℕ)
    → (j < at + i) ⊎ (at + i + n ≤ j)
    → put_color n i at color memory j ≡ memory j
unfolding put_color
put_color-outside zero i at color memory j away = refl
put_color-outside (suc n) i at color memory j away =
    put_color-outside n (i + 1) at color _ j (ground arith)
    ∙ update-ne memory (at + i) j _ (ground arith)

-- A pixel inside the screen is inside the framebuffer.
pixel_end :
    (width height pitch bytes x y : ℕ)
    → width * bytes ≤ pitch
    → x < width
    → y < height
    → y * pitch + x * bytes + bytes ≤ height * pitch
pixel_end width height pitch bytes x y fits in_row in_column =
    let rows_above : y * pitch + pitch ≤ height * pitch = grind arith in
    let pixel : x * bytes + bytes ≤ width * bytes = grind arith in
    omega (arith, rows_above, pixel, fits)

pub put_pixel-outside :
    (m : Mode) (color x y : ℕ) (memory : ℕ → ℕ) (j : ℕ)
    → IsMode m
    → Elsewhere m j
    → put_pixel m color x y memory j ≡ memory j
unfolding put_pixel
put_pixel-outside m color x y memory j v away = elim (Bool-cases (valid_position m x y)) [
  | inl e ↦
      let bytes = bytes_per_pixel m in
      let ends =
        pixel_end m.width m.height m.pitch bytes x y v.row_fits (ground arith) (ground arith) in
      rw e (
        put_color-outside bytes 0 (m.framebuffer + (y * m.pitch + x * bytes)) color memory j
          (ground (arith, ends)))
  | inr e ↦ rw e refl
]

pub fill_pixels-outside :
    (n : ℕ) (m : Mode) (off color : ℕ) (memory : ℕ → ℕ) (j : ℕ)
    → (j < m.framebuffer + off) ⊎ (m.framebuffer + (off + n * bytes_per_pixel m) ≤ j)
    → fill_pixels n m off color memory j ≡ memory j
unfolding fill_pixels
fill_pixels-outside zero m off color memory j away = refl
fill_pixels-outside (suc n) m off color memory j away =
    let bytes = bytes_per_pixel m in
    let more : off + bytes + n * bytes ≡ off + suc n * bytes = grind arith in
    fill_pixels-outside n m (off + bytes) color _ j (ground (arith, more))
    ∙ put_color-outside bytes 0 (m.framebuffer + off) color memory j (ground (arith, more))
