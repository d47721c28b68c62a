-- ===== src/Video.antt =====
-- The text terminal of kernel/drivers/video/vgamode3.c: the words at 0xB8000, the place of the next
-- character, and the two cursor registers of the controller.
pub mod Cells
pub mod Output
pub mod Text
mod Tests
use myunixlikeos.Common.{
  ℕ, List, [], drop, if◌then◌else◌, leb, set, suc, take, zero, ◌%◌, ◌*◌, ◌++◌, ◌+◌, ◌-◌, ◌/◌, ◌==◌,
  ◌^◌, ◌∷◌,
}

abbrev pub term_width : ℕ
term_width = 80

abbrev pub term_height : ℕ
term_height = 25

pub record Terminal : Type 0 where
  pub buffer : List ℕ
  pub row : ℕ
  pub col : ℕ
  pub color : ℕ
  pub cursor_high : ℕ
  pub cursor_low : ℕ

-- `((uint16_t)terminal_color << 8) | c` for bytes.
abbrev pub colored : ℕ → ℕ → ℕ
colored color c = color * 256 + c

-- `n` words from index `i` on.
unfoldable pub fill_words : (n i v : ℕ) → List ℕ → List ℕ
fill_words zero i v b = b
fill_words (suc n) i v b = fill_words n (i + 1) v (set b i v)

-- memmove of rows 1 to 24 to the start, and the loop over the last row.
unfoldable pub vga_scroll_up : Terminal → Terminal
unfolding fill_words
vga_scroll_up t =
    let moved = take (24 * 80) (drop 80 t.buffer) ++ drop (24 * 80) t.buffer in
    record t { buffer = fill_words 80 (24 * 80) (colored t.color b' ') moved; row = 24; col = 0 }

unfoldable pub move_cursor : (x y : ℕ) → Terminal → Terminal
move_cursor x y t =
    let at = (y * 80 + x) % 2 ^ 16 in
    record t { cursor_high = at / 256 % 256; cursor_low = at % 256 }

-- To the start of the next row.
unfoldable pub next_row : Terminal → Terminal
unfolding vga_scroll_up move_cursor
next_row t =
    let t' = record t { col = 0; row = t.row + 1 } in
    if leb term_height (t.row + 1) then vga_scroll_up t' else move_cursor 0 (t.row + 1) t'

unfoldable pub put_char : ℕ → Terminal → Terminal
unfolding next_row move_cursor
put_char c t =
    let t' = record t { buffer = set t.buffer (t.row * 80 + t.col) (colored t.color c) } in
    if leb term_width (t.col + 1)
    then next_row t'
    else move_cursor (t.col + 1) t.row (record t' { col = t.col + 1 })

-- Escape is left out.
unfoldable pub terminal_putc : ℕ → Terminal → Terminal
unfolding next_row put_char
terminal_putc c t = if c == 0x1B then t else if c == 10 then next_row t else put_char c t

-- The place one back, without the guard for the first place.
abbrev pub step_back : Terminal → Terminal
step_back t =
    if t.col == 0 then record t { row = t.row - 1; col = 79 } else record t { col = t.col - 1 }

abbrev pub blank_here : Terminal → Terminal
blank_here t = record t { buffer = set t.buffer (t.row * 80 + t.col) (colored t.color b' ') }

unfoldable pub terminal_backspace : Terminal → Terminal
unfolding move_cursor
terminal_backspace t =
    if t.col == 0
    then if t.row == 0
      then t
      else move_cursor (step_back t).col (step_back t).row (blank_here (step_back t))
    else move_cursor (step_back t).col (step_back t).row (blank_here (step_back t))

abbrev pub terminal_set_color : ℕ → Terminal → Terminal
terminal_set_color color t = record t { color = color }

unfoldable pub terminal_write : List ℕ → Terminal → Terminal
unfolding terminal_putc
terminal_write [] t = t
terminal_write (c ∷ s) t = terminal_write s (terminal_putc c t)
