-- ===== src/Video/Rows.antt =====
-- Rows of the framebuffer under Kernel/c/drivers/videoDriver.c: filling and scrolling.
use mass_os.Prelude.{
  leb, Bool-cases, ℕ, zero, suc, ◌+◌, ◌-◌, ◌*◌, ◌%◌, ◌^◌, ◌≤◌, ◌<◌, min, ◌≡◌, refl, sym, ap, ap₂,
  subst, ◌∙◌, ◌⊎◌, inl, inr, ◌||◌, arith, dec_lt,
}
use mass_os.Copying.{memcpy}
use mass_os.Copying.Effect.{memcpy_lem, memcpy-outside}
use mass_os.Scheduler.{above}
use mass_os.Video.{
  font_height, bg_color, Mode, valid_position, bytes_per_pixel, fill_rows, fill_rectangle,
  scroll_rows, scroll,
}
use mass_os.Video.Pixels.{IsMode, Elsewhere, fill_pixels-outside}

-- The address of a row.
abbrev pub row : Mode → ℕ → ℕ
row m y = m.framebuffer + y * m.pitch

-- Not a byte of the rows from `y` to below `end`.
abbrev pub Off : Mode → ℕ → ℕ → ℕ → Type 0
Off m y end j = (j < row m y) ⊎ (row m end ≤ j)

row_suc : (m : Mode) (y : ℕ) → row m (y + 1) ≡ row m y + m.pitch
row_suc m y = let e : (y + 1) * m.pitch ≡ y * m.pitch + m.pitch = grind arith in omega (arith, e)

row-le : (m : Mode) (y z : ℕ) → y ≤ z → row m y ≤ row m z
row-le m y z le = let e : y * m.pitch ≤ z * m.pitch = grind arith in omega (arith, e)

row_later : (m : Mode) (y z : ℕ) → y < z → row m y + m.pitch ≤ row m z
row_later m y z lt = omega (arith, row_suc m y, row-le m (y + 1) z (omega arith))

part_of : (a b c : ℕ) → a ≤ b → a * c + (b - a) * c ≡ b * c
part_of a b c h =
    let whole : (a + (b - a)) * c ≡ a * c + (b - a) * c = grind arith in
    sym whole ∙ ap (λ n. n * c) (omega arith)

fill_rows-outside :
    (n : ℕ) (m : Mode) (y x0 x1 color : ℕ) (memory : ℕ → ℕ) (j : ℕ)
    → x0 ≤ x1
    → x1 * bytes_per_pixel m ≤ m.pitch
    → Off m y (y + n) j
    → fill_rows n m y x0 x1 color memory j ≡ memory j
unfolding fill_rows
fill_rows-outside zero m y x0 x1 color memory j le fits away = refl
fill_rows-outside (suc n) m y x0 x1 color memory j le fits away =
    let bytes = bytes_per_pixel m in
    let part : x0 * bytes + (x1 - x0) * bytes ≡ x1 * bytes = part_of x0 x1 bytes le in
    let next = row_suc m y in
    let last = row-le m (y + 1) (y + suc n) (omega arith) in
    let shifted : row m (y + 1 + n) ≡ row m (y + suc n) = ap (row m) (omega arith) in
    fill_rows-outside n m (y + 1) x0 x1 color _ j le fits (ground (arith, next, last, shifted))
    ∙ fill_pixels-outside (x1 - x0) m (y * m.pitch + x0 * bytes) color memory j
        (ground (arith, part, next, last))

narrower : (a b c : ℕ) → a ≤ b → a * c ≤ b * c
narrower a b c le = grind arith

-- A rectangle writes only in its rows.
pub fill_rectangle-outside :
    (m : Mode) (x0 y0 x1 y1 color : ℕ) (memory : ℕ → ℕ) (j : ℕ)
    → IsMode m
    → Off m y0 (min y1 m.height) j
    → fill_rectangle m (x0, y0) (x1, y1) color memory j ≡ memory j
unfolding fill_rectangle
fill_rectangle-outside m x0 y0 x1 y1 color memory j v away =
    elim (Bool-cases (leb x1 x0 || leb y1 y0)) [
      | inl none_left ↦ rw none_left refl
      | inr some_area ↦ elim (Bool-cases (valid_position m x0 y0)) [
        | inl inside ↦
            let fits = narrower (min x1 m.width) m.width (bytes_per_pixel m) (omega arith) in
            let rows : y0 + (min y1 m.height - y0) ≡ min y1 m.height = ground arith in
            rw (some_area, inside)
              (fill_rows-outside (min y1 m.height - y0) m y0 x0 (min x1 m.width) color memory j
                (ground arith) (omega (arith, fits, v.row_fits))
                (subst (λ end. Off m y0 end j) (sym rows) away))
        | inr beyond ↦ rw (some_area, beyond) refl
      ]
    ]

scroll_rows-next :
    (n : ℕ) (m : Mode) (lh t : ℕ) (memory : ℕ → ℕ)
    → scroll_rows (suc n) m lh (t + lh) memory
      ≡ scroll_rows n m lh (t + 1 + lh) (memcpy memory (row m t) (row m (t + lh)) m.pitch)
unfolding scroll_rows
scroll_rows-next n m lh t memory =
    let target : t + lh - lh ≡ t = omega arith in
    let next : t + lh + 1 ≡ t + 1 + lh = omega arith in
    ap₂ (λ a b. scroll_rows n m lh a (memcpy memory (row m b) (row m (t + lh)) m.pitch)) next target

-- Row `t` and the `n` after it are the targets.
scroll_rows-outside :
    (n : ℕ) (m : Mode) (lh t : ℕ) (memory : ℕ → ℕ) (j : ℕ)
    → 0 < lh
    → Off m t (t + n) j
    → scroll_rows n m lh (t + lh) memory j ≡ memory j
unfolding scroll_rows
scroll_rows-outside zero m lh t memory j some_lines away = refl
scroll_rows-outside (suc n) m lh t memory j some_lines away =
    let next = row_suc m t in
    let last = row-le m (t + 1) (t + suc n) (omega arith) in
    let shifted : row m (t + 1 + n) ≡ row m (t + suc n) = ap (row m) (omega arith) in
    let source = row_later m t (t + lh) (omega arith) in
    ap (λ f. f j) (scroll_rows-next n m lh t memory)
    ∙ scroll_rows-outside n m lh (t + 1) _ j some_lines (ground (arith, next, last, shifted))
    ∙ memcpy-outside memory (row m t) (row m (t + lh)) m.pitch j (inl source)
        (ground (arith, next, last))

scroll_rows_lem :
    (n : ℕ) (m : Mode) (lh t : ℕ) (memory : ℕ → ℕ) (y k : ℕ)
    → 0 < lh
    → t ≤ y
    → y < t + n
    → k < m.pitch
    → scroll_rows n m lh (t + lh) memory (row m y + k) ≡ memory (row m (y + lh) + k)
unfolding scroll_rows
scroll_rows_lem zero m lh t memory y k some_lines low high lt = absurd (omega arith)
scroll_rows_lem (suc n) m lh t memory y k some_lines low high lt =
    let next = memcpy memory (row m t) (row m (t + lh)) m.pitch in
    let source = row_later m t (t + lh) (omega arith) in
    ap (λ f. f (row m y + k)) (scroll_rows-next n m lh t memory) ∙ elim (dec_lt t y) [
      | yes later ↦
          scroll_rows_lem n m lh (t + 1) next y k some_lines (omega arith) (omega arith) lt
          ∙ memcpy-outside memory (row m t) (row m (t + lh)) m.pitch (row m (y + lh) + k)
              (inl source) (inl (omega (arith, row_later m t (y + lh) (omega arith))))
      | no first ↦
          let same : y ≡ t = omega (arith, low, first) in
          scroll_rows-outside n m lh (t + 1) next (row m y + k) some_lines
            (inl (omega (arith, row_suc m t, ap (row m) same, lt)))
          ∙ ap (λ x. next (row m x + k)) same
          ∙ (memcpy_lem memory (row m t) (row m (t + lh)) m.pitch k (inl source)).0 lt
          ∙ ap (λ x. memory (row m (x + lh) + k)) (sym same)
    ]

pub Elsewhere-Off : (m : Mode) (y end j : ℕ) → end ≤ m.height → Elsewhere m j → Off m y end j
Elsewhere-Off m y end j le away = ground (arith, row-le m end m.height)

-- In a mode whose rows fit the pitch, `scroll` moves each row that has a line above it up by the height
-- of a line, byte by byte.
pub scroll_lem :
    (m : Mode) (size : ℕ) (memory : ℕ → ℕ) (y k : ℕ)
    → IsMode m
    → 0 < size
    → y + size * font_height < m.height
    → m.height < 2 ^ 64
    → k < m.pitch
    → scroll m size memory (row m y + k) ≡ memory (row m (y + size * font_height) + k)
unfolding scroll
scroll_lem m size memory y k v some_size above small lt =
    let lh = size * font_height in
    let start : (m.height + 2 ^ 64 - lh) % 2 ^ 64 ≡ m.height - lh = omega arith in
    let front : lh ≡ 0 + lh = omega arith in
    let fill = λ (s : ℕ) (f : ℕ → ℕ). fill_rectangle m (0, s) (m.width, m.height) bg_color f in
    let scrolled = scroll_rows (m.height - lh) m lh lh memory in
    ap (λ s. fill s scrolled (row m y + k)) start
    ∙ fill_rectangle-outside m 0 (m.height - lh) m.width m.height bg_color scrolled (row m y + k) v
        (inl (omega (arith, row_later m y (m.height - lh) (omega arith))))
    ∙ ap (λ s. scroll_rows (m.height - lh) m lh s memory (row m y + k)) front
    ∙ scroll_rows_lem (m.height - lh) m lh 0 memory y k (omega arith) (omega arith) (omega arith) lt

-- Outside the framebuffer `scroll` changes nothing.
pub scroll-outside :
    (m : Mode) (size : ℕ) (memory : ℕ → ℕ) (j : ℕ)
    → IsMode m
    → 0 < size
    → size * font_height ≤ m.height
    → m.height < 2 ^ 64
    → Elsewhere m j
    → scroll m size memory j ≡ memory j
unfolding scroll
scroll-outside m size memory j v some_size fits small away =
    let lh = size * font_height in
    let start : (m.height + 2 ^ 64 - lh) % 2 ^ 64 ≡ m.height - lh = omega arith in
    let front : lh ≡ 0 + lh = omega arith in
    let fill = λ (s : ℕ) (f : ℕ → ℕ). fill_rectangle m (0, s) (m.width, m.height) bg_color f in
    let scrolled = scroll_rows (m.height - lh) m lh lh memory in
    ap (λ s. fill s scrolled j) start
    ∙ fill_rectangle-outside m 0 (m.height - lh) m.width m.height bg_color scrolled j v
        (Elsewhere-Off m (m.height - lh) (min m.height m.height) j (omega arith) away)
    ∙ ap (λ s. scroll_rows (m.height - lh) m lh s memory j) front
    ∙ scroll_rows-outside (m.height - lh) m lh 0 memory j (omega arith)
        (Elsewhere-Off m 0 (0 + (m.height - lh)) j (omega arith) away)
