-- ===== src/Video/Text.antt =====
-- A text that terminal_write puts on the screen, and a character taken back.
use myunixlikeos.Common.{
  subst, subst, ℕ, ◌+◌, ◌-◌, ◌<◌, ◌≡◌, ◌≢◌, ◌==◌, ◌&&◌, false, List, [], ◌∷◌, get_or, length,
  if◌then◌else◌, arith, ltb, leb, Bool-cases, inl, inr, All, refl, suc, ◌*◌, ◌∙◌,
}
use myunixlikeos.Video.{
  Terminal, colored, terminal_putc, terminal_write, blank_here, move_cursor, terminal_backspace,
}
use myunixlikeos.Video.Cells.{cell, IsTerminal, cell-set}
use myunixlikeos.Video.Output.{scrolls, terminal_putc_lem, cursor, position}

terminal_putc-IsTerminal : (c : ℕ) (t : Terminal) → IsTerminal t → IsTerminal (terminal_putc c t)
unfolding terminal_putc
terminal_putc-IsTerminal c t v = elim (Bool-cases (c == 0x1B)) [
  | inl e ↦ rw e v
  | inr e ↦ (terminal_putc_lem c t v (ground arith)).valid
]

-- Whatever is written, the screen keeps its 2000 words and the place stays inside it.
pub terminal_write-IsTerminal :
    (s : List ℕ) (t : Terminal) → IsTerminal t → IsTerminal (terminal_write s t)
unfolding terminal_write
terminal_write-IsTerminal [] t v = v
terminal_write-IsTerminal (c ∷ s) t v =
    terminal_write-IsTerminal s (terminal_putc c t) (terminal_putc-IsTerminal c t v)

abbrev pub Printable : ℕ → Type 0
Printable c = (c ≢ 10) × (c ≢ 0x1B)

-- What a text that fits in the row leaves.
pub record Writes (s : List ℕ) (t t' : Terminal) : Type 0 where
  pub valid : IsTerminal t'
  pub color : t'.color ≡ t.color
  pub row : t'.row ≡ t.row
  pub col : t'.col ≡ t.col + length s
  pub cells :
      (r k : ℕ)
      → r < 25
      → k < 80
      → cell t' r k ≡ (
          if (r == t.row) && (leb t.col k && ltb k (t.col + length s))
          then colored t.color (get_or s (k - t.col) 0)
          else cell t r k)

putc-Writes :
    (c : ℕ) (t : Terminal)
    → IsTerminal t
    → Printable c
    → t.col + 1 < 80
    → Writes (c ∷ []) t (terminal_putc c t)
putc-Writes c t v h lt =
    let p = terminal_putc_lem c t v h.1 in
    let inside : scrolls c t ≡ false = ground (arith, h.0) in
    let other : (c == 10) ≡ false = ground (arith, h.0) in
    let at = rw (inside, other) at p.at in
    record {
      valid = p.valid;
      color = p.color;
      row = omega (arith, p.valid.col, v.col, at);
      col = omega (arith, p.valid.col, v.col, at);
      cells = λ r k l m. ground (arith, rw (inside, other) at (p.cells r k l m));
    }

cells_join :
    (c : ℕ) (s : List ℕ) (t t1 t2 : Terminal) (r k : ℕ)
    → Writes (c ∷ []) t t1
    → Writes s t1 t2
    → r < 25
    → k < 80
    → cell t2 r k ≡ (
        if (r == t.row) && (leb t.col k && ltb k (t.col + length (c ∷ s)))
        then colored t.color (get_or (c ∷ s) (k - t.col) 0)
        else cell t r k)
cells_join c s t t1 t2 r k a b l m = elim (Bool-cases (k == t.col)) [
  | inl e ↦
      let first : k - t.col ≡ 0 = ground arith in
      rw first
        (ground (arith, rw first at (a.cells r k l m), b.cells r k l m, a.row, a.col, a.color))
  | inr e ↦ elim (Bool-cases (ltb k t.col)) [
    | inl f ↦ ground (arith, a.cells r k l m, b.cells r k l m, a.row, a.col, a.color)
    | inr f ↦
        let behind : k - t.col ≡ suc (k - t.col - 1) = ground arith in
        let same : k - t1.col ≡ k - t.col - 1 = omega (arith, a.col) in
        rw behind
          (ground (arith, a.cells r k l m, rw same at (b.cells r k l m), a.row, a.col, a.color))
  ]
]

-- A text without newlines and escapes that ends before the last column stands in the row from the place
-- on with the current color, no other cell changes, and the place is behind it.
pub terminal_write_lem :
    (s : List ℕ) (t : Terminal)
    → IsTerminal t
    → All Printable s
    → t.col + length s < 80
    → Writes s t (terminal_write s t)
unfolding terminal_write
terminal_write_lem [] t v h lt = record {
  valid = v;
  color = refl;
  row = refl;
  col = omega arith;
  cells = λ r k l m. ground arith;
}
terminal_write_lem (c ∷ s) t v h lt =
    let a = putc-Writes c t v h.0 (omega arith) in
    let b = terminal_write_lem s (terminal_putc c t) a.valid h.1 (omega (arith, a.col)) in
    record {
      valid = b.valid;
      color = b.color ∙ a.color;
      row = b.row ∙ a.row;
      col = omega (arith, a.col, b.col);
      cells = λ r k l m.
          cells_join c s t (terminal_putc c t) (terminal_write s (terminal_putc c t)) r k a b l m;
    }

-- What a backspace leaves when the place is behind the first one.
pub record Erases (t : Terminal) (to_row to_col : ℕ) (t' : Terminal) : Type 0 where
  pub row : t'.row ≡ to_row
  pub col : t'.col ≡ to_col
  pub cells :
      (r k : ℕ)
      → r < 25
      → k < 80
      → cell t' r k ≡ (if (r == to_row) && (k == to_col) then colored t.color b' ' else cell t r k)
  pub shown : cursor t' ≡ to_row * 80 + to_col

blank_here-Erases :
    (t : Terminal) (row col : ℕ)
    → IsTerminal t
    → row < 25
    → col < 80
    → Erases t row col (move_cursor col row (blank_here (record t { row = row; col = col })))
unfolding move_cursor
blank_here-Erases t row col v hr hc = record {
  row = refl;
  col = refl;
  cells = λ r k l m. cell-set t.buffer row col r k (colored t.color b' ') v.sized hr hc m;
  shown = omega arith;
}

Erases-at :
    {t t' : Terminal} {row row' col col' : ℕ}
    → row ≡ row'
    → col ≡ col'
    → Erases t row col t'
    → Erases t row' col' t'
Erases-at {t} {t'} {row} {row'} {col} {col'} e f h =
    subst (λ b. Erases t row' b t') f (subst (λ a. Erases t a col t') e h)

-- A backspace anywhere but at the first place goes one place back, also to the end of the row above, and
-- blanks the cell there.
terminal_backspace_lem :
    (t : Terminal) (row col : ℕ)
    → IsTerminal t
    → row < 25
    → col < 80
    → position t ≡ row * 80 + col + 1
    → Erases t row col (terminal_backspace t)
unfolding terminal_backspace
terminal_backspace_lem t row col v hr hc e = elim (Bool-cases (t.col == 0)) [
  | inl z ↦
      let above : t.row - 1 ≡ row = ground (arith, v.col) in
      let last : 79 ≡ col = ground (arith, v.col) in
      let below : (t.row == 0) ≡ false = ground (arith, v.col) in
      rw (z, below, above, last) (blank_here-Erases t row col v hr hc)
  | inr z ↦
      let same : t.row ≡ row = ground (arith, v.col) in
      let before : t.col - 1 ≡ col = ground (arith, v.col) in
      rw z (
        Erases-at same before
          (blank_here-Erases t t.row (t.col - 1) v (omega arith) (ground (arith, v.col))))
]

-- A character other than newline and escape that is written anywhere but at the last place of the
-- screen is taken back by a backspace: the place and the hardware cursor are where the place was, the
-- cell there is blank, and all other cells are as before.
pub terminal_backspace-terminal_putc :
    (c : ℕ) (t : Terminal)
    → IsTerminal t
    → Printable c
    → position t < 1999
    → Erases t t.row t.col (terminal_backspace (terminal_putc c t))
terminal_backspace-terminal_putc c t v h lt =
    let p = terminal_putc_lem c t v h.1 in
    let inside : scrolls c t ≡ false = ground (arith, h.0, v.col) in
    let other : (c == 10) ≡ false = ground (arith, h.0) in
    let at = rw (inside, other) at p.at in
    let e = terminal_backspace_lem (terminal_putc c t) t.row t.col p.valid v.row v.col at in
    record {
      row = e.row;
      col = e.col;
      cells = λ r k l m. ground (arith, e.cells r k l m, rw inside at (p.cells r k l m), p.color);
      shown = e.shown;
    }
