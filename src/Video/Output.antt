-- ===== src/Video/Output.antt =====
-- What terminal_putc, terminal_write and terminal_backspace leave on the screen.
use myunixlikeos.Common.{
  subst, ◌⊎◌, ℕ, ◌+◌, ◌*◌, ◌<◌, ◌≡◌, Bool, true, false, length, if◌then◌else◌, refl, arith, ltb,
  Bool-cases, inl, inr, leb, not, ◌&&◌, ◌==◌, ◌||◌, ◌∙◌, length-set, set, ◌≢◌,
}
use myunixlikeos.Video.{
  Terminal, vga_scroll_up, colored, move_cursor, next_row, put_char, terminal_putc,
}
use myunixlikeos.Video.Cells.{
  cell, IsTerminal, cell-vga_scroll_up, vga_scroll_up-IsTerminal, cell-set,
}

-- Where the controller shows the cursor.
abbrev pub cursor : Terminal → ℕ
cursor t = t.cursor_high * 256 + t.cursor_low

abbrev pub position : Terminal → ℕ
position t = t.row * 80 + t.col

-- What a move to the next row leaves: `scrolled` tells whether it scrolls.
record Moves (t : Terminal) (scrolled : Bool) (place : ℕ) (t' : Terminal) : Type 0 where
  valid : IsTerminal t'
  color : t'.color ≡ t.color
  cells :
      (r k : ℕ)
      → r < 25
      → k < 80
      → cell t' r k ≡ (
          if scrolled
          then if ltb r 24 then cell t (r + 1) k else colored t.color b' '
          else cell t r k)
  at : position t' ≡ place
  shown : cursor t' ≡ (if scrolled then cursor t else place)

move_cursor-Moves :
    (t : Terminal) (row col : ℕ)
    → length t.buffer ≡ 2000
    → row < 25
    → col < 80
    → Moves t false (row * 80 + col) (move_cursor col row (record t { row = row; col = col }))
unfolding move_cursor
move_cursor-Moves t row col h hr hc = record {
  valid = record { sized = h; row = hr; col = hc };
  color = refl;
  cells = λ r k l m. refl;
  at = refl;
  shown = omega arith;
}

vga_scroll_up-Moves :
    (t : Terminal) (row col : ℕ)
    → length t.buffer ≡ 2000
    → Moves t true (24 * 80) (vga_scroll_up (record t { row = row; col = col }))
unfolding vga_scroll_up
vga_scroll_up-Moves t row col h = record {
  valid = vga_scroll_up-IsTerminal (record t { row = row; col = col }) h;
  color = refl;
  cells = λ r k l m. cell-vga_scroll_up (record t { row = row; col = col }) r k h l m;
  at = refl;
  shown = refl;
}

next_row-Moves :
    (t : Terminal)
    → length t.buffer ≡ 2000
    → t.row < 25
    → Moves t (t.row == 24) (if t.row == 24 then 24 * 80 else (t.row + 1) * 80 + 0) (next_row t)
unfolding next_row
next_row-Moves t h hr = elim (Bool-cases (t.row == 24)) [
  | inl e ↦
      let full : leb 25 (t.row + 1) ≡ true = ground arith in
      rw (e, full) (vga_scroll_up-Moves t (t.row + 1) 0 h)
  | inr e ↦
      let room : leb 25 (t.row + 1) ≡ false = ground arith in
      rw (e, room) (move_cursor-Moves t (t.row + 1) 0 h (ground arith) (omega arith))
]

-- Whether a character makes the screen scroll, and the cells before that.
abbrev pub scrolls : ℕ → Terminal → Bool
scrolls c t = (t.row == 24) && ((c == 10) || (t.col == 79))

abbrev pub written : ℕ → Terminal → (r k : ℕ) → ℕ
written c t r k =
    if not (c == 10) && ((r == t.row) && (k == t.col)) then colored t.color c else cell t r k

-- What terminal_putc of `c` makes of `t`.
pub record Puts (c : ℕ) (t t' : Terminal) : Type 0 where
  pub valid : IsTerminal t'
  pub color : t'.color ≡ t.color
  pub cells :
      (r k : ℕ)
      → r < 25
      → k < 80
      → cell t' r k ≡ (
          if scrolls c t
          then if ltb r 24 then written c t (r + 1) k else colored t.color b' '
          else written c t r k)
  pub at :
      position t'
      ≡ (if scrolls c t then 24 * 80 else if c == 10 then (t.row + 1) * 80 else position t + 1)
  pub shown : cursor t' ≡ (if scrolls c t then cursor t else position t')

newline-Puts : (t : Terminal) → IsTerminal t → Puts 10 t (next_row t)
newline-Puts t v =
    let n = next_row-Moves t v.sized v.row in
    record {
      valid = n.valid;
      color = n.color;
      cells = λ r k l m. ground (arith, n.cells r k l m);
      at = ground (arith, n.at);
      shown = ground (arith, n.at, n.shown);
    }

-- The terminal with the character in its cell.
abbrev stored : ℕ → Terminal → Terminal
stored c t = record t { buffer = set t.buffer (t.row * 80 + t.col) (colored t.color c) }

length-stored : (c : ℕ) (t : Terminal) → IsTerminal t → length (stored c t).buffer ≡ 2000
length-stored c t v = length-set t.buffer (t.row * 80 + t.col) (colored t.color c) ∙ v.sized

cell-stored :
    (c : ℕ) (t : Terminal)
    → IsTerminal t
    → c ≢ 10
    → (r k : ℕ) → k < 80
    → cell (stored c t) r k ≡ written c t r k
cell-stored c t v ne r k m =
    let other : (c == 10) ≡ false = ground arith in
    rw other (cell-set t.buffer t.row t.col r k (colored t.color c) v.sized v.row v.col m)

wrapped-Puts :
    (c : ℕ) (t : Terminal) → IsTerminal t → c ≢ 10 → t.col ≡ 79 → Puts c t (next_row (stored c t))
wrapped-Puts c t v ne e =
    let n = next_row-Moves (stored c t) (length-stored c t v) v.row in
    record {
      valid = n.valid;
      color = n.color;
      cells = λ r k l m.
          ground
            (arith, n.cells r k l m, cell-stored c t v ne r k m, cell-stored c t v ne (r + 1) k m);
      at = ground (arith, n.at);
      shown = ground (arith, n.at, n.shown);
    }

inner-Puts :
    (c : ℕ) (t : Terminal)
    → IsTerminal t
    → c ≢ 10
    → t.col < 79
    → Puts c t (move_cursor (t.col + 1) t.row (record (stored c t) { col = t.col + 1 }))
inner-Puts c t v ne lt =
    let n =
      move_cursor-Moves (stored c t) t.row (t.col + 1) (length-stored c t v) v.row (omega arith) in
    record {
      valid = n.valid;
      color = n.color;
      cells = λ r k l m. ground (arith, n.cells r k l m, cell-stored c t v ne r k m);
      at = ground (arith, n.at);
      shown = ground (arith, n.at, n.shown);
    }

-- A character other than escape, on a screen of 2000 words with its place inside: the character stands
-- in its cell with the current color, a newline in none, and the place is the next one or the start of
-- the next row. Where that is behind the last row all rows go up by one and a blank one follows. The
-- hardware cursor is at the place, but keeps its old position when the screen scrolls.
pub terminal_putc_lem :
    (c : ℕ) (t : Terminal) → IsTerminal t → c ≢ 0x1B → Puts c t (terminal_putc c t)
unfolding terminal_putc put_char
terminal_putc_lem c t v ne =
    let no_escape : (c == 0x1B) ≡ false = ground arith in
    rw no_escape (by_newline (Bool-cases (c == 10)) (Bool-cases (leb 80 (t.col + 1))))
  where
    by_newline :
        ((c == 10) ≡ true) ⊎ ((c == 10) ≡ false)
        → (leb 80 (t.col + 1) ≡ true) ⊎ (leb 80 (t.col + 1) ≡ false)
        → Puts c t (if c == 10 then next_row t else put_char c t)
    by_newline (inl e) f =
        let newline : 10 ≡ c = ground arith in
        rw e (subst (λ d. Puts d t (next_row t)) newline (newline-Puts t v))
    by_newline (inr e) (inl f) =
        rw (e, f) (wrapped-Puts c t v (ground arith) (ground (arith, v.col)))
    by_newline (inr e) (inr f) = rw (e, f) (inner-Puts c t v (ground arith) (ground arith))
