-- ===== src/Vi/Motion.antt =====
-- The keys `j` and `k` of bin/vi/vi.c: down and up again, and `k` on the first line.
use myunixlikeos.Vi.View.{less}
use myunixlikeos.Pmm.{sub_word}
use myunixlikeos.Common.{
  ℕ, List, false, ◌+◌, ◌≡◌, ◌==◌, arith, zero, suc, get_or, ◌<◌, ◌≤◌, none, some, Bool-cases, inl,
  inr, ap, length, ◌↔◌, refl, true, ◌-◌, ◌>>=◌, leb, ltb, ◌∙◌,
}
use myunixlikeos.Vi.{
  line_start_loop, line_end_loop, vi_move_up, vi_line_start, vi_column, vi_line_end, vi_move_down,
}
use myunixlikeos.Vi.Lines.{
  line_start_loop_le, newline_at_end, line_end_bounds, line_end_loop_bounds,
}

-- No newline stands before the end of the line.
inside_line :
    (n : ℕ) (buf : List ℕ) (pos k : ℕ)
    → pos ≤ k
    → k < line_end_loop n buf pos
    → (get_or buf k 0 == b'\n') ≡ false
unfolding line_end_loop
inside_line zero buf pos k h j = absurd (omega arith)
inside_line (suc n) buf pos k h j = elim (Bool-cases (get_or buf pos 0 == b'\n')) [
  | inl t ↦ absurd (ground arith)
  | inr t ↦ elim (Bool-cases (pos == k)) [
    | inl here ↦ ground arith
    | inr on ↦ inside_line n buf (pos + 1) k (ground arith) (ground arith)
  ]
]

-- Every place of a line has the same line start.
same_line :
    (buf : List ℕ) (a d : ℕ)
    → ((k : ℕ) → a ≤ k → k < a + d → (get_or buf k 0 == b'\n') ≡ false)
    → line_start_loop buf (a + d) ≡ line_start_loop buf a
unfolding line_start_loop
same_line buf a zero h = ap (line_start_loop buf) (omega arith)
same_line buf a (suc d) h =
    let one_more : a + suc d ≡ suc (a + d) = omega arith in
    let plain = h (a + d) (omega arith) (omega arith) in
    rw (one_more, plain) (same_line buf a d (λ k lo hi. h k lo (omega arith)))

behind_newline :
    (buf : List ℕ) (k : ℕ) → get_or buf k 0 ≡ b'\n' → line_start_loop buf (k + 1) ≡ k + 1
unfolding line_start_loop
behind_newline buf k h =
    let one_more : k + 1 ≡ suc k = omega arith in
    let newline_here : (get_or buf k 0 == b'\n') ≡ true = ground arith in
    rw (one_more, newline_here) refl

pub line_starts :
    (buf : List ℕ) (pos : ℕ)
    → pos ≤ length buf
    → vi_line_start buf pos ≡ some (line_start_loop buf pos)
unfolding vi_line_start
line_starts buf pos h = ground arith

-- Below the cursor the text has a line with a character in its column.
pub record LineBelow (buf : List ℕ) (len cursor : ℕ) : Type 0 where
  pub sized : length buf ≡ 8192
  pub room : len < 8192
  pub inside : cursor ≤ len
  pub more : vi_line_end buf cursor len + 1 < len
  pub long :
      vi_line_end buf cursor len + 1 + (cursor - line_start_loop buf cursor)
      ≤ vi_line_end buf (vi_line_end buf cursor len + 1) len

module _ (buf : List ℕ) (len cursor : ℕ) (v : LineBelow buf len cursor) where
  abbrev start : ℕ
  start = line_start_loop buf cursor

  abbrev end : ℕ
  end = vi_line_end buf cursor len

  -- The place in the next line.
  abbrev below : ℕ
  below = end + 1 + (cursor - start)

  newline_here : get_or buf end 0 ≡ b'\n'
  newline_here = newline_at_end buf cursor len v.inside (omega (arith, v.more))

  below_le : below ≤ len
  below_le = omega (arith, v.long, (line_end_bounds buf (end + 1) len (omega (arith, v.more))).1)

  before : start ≤ cursor
  before = line_start_loop_le buf cursor

  moved_down : vi_move_down buf len cursor ≡ some below
  unfolding vi_move_down vi_column
  moved_down =
      let ends : ltb end len ≡ true = ground (arith, v.more) in
      let newline_there : (get_or buf end 0 == b'\n') ≡ true = ground (arith, newline_here) in
      let goes : leb len (end + 1) ≡ false = ground (arith, v.more) in
      let fits : ltb (vi_line_end buf (end + 1) len) below ≡ false = ground (arith, v.long) in
      rw
        (
          line_starts buf cursor (omega (arith, v.sized, v.room, v.inside)),
          less cursor start before (omega (arith, v.inside, v.room)),
          ends,
          newline_there,
          goes,
          fits,
        )
        refl

  start-end : line_start_loop buf end ≡ start
  unfolding vi_line_end
  start-end =
      let low = (line_end_loop_bounds (len - cursor) buf cursor).0 in
      let whole : cursor + (end - cursor) ≡ end = omega arith in
      rw whole at (
        same_line buf cursor (end - cursor)
          (λ k lo hi. inside_line (len - cursor) buf cursor k lo (omega arith)))

  start-below : line_start_loop buf below ≡ end + 1
  unfolding vi_line_end
  start-below =
      same_line buf (end + 1) (cursor - start)
        (λ k lo hi. inside_line (len - (end + 1)) buf (end + 1) k lo (omega (arith, v.long)))
      ∙ behind_newline buf end newline_here

  moved_up : vi_move_up buf below ≡ some cursor
  unfolding vi_move_up vi_column
  moved_up =
      let here =
        line_starts buf below (omega (arith, v.sized, v.room, below_le)) ∙ ap some start-below in
      let above =
        line_starts buf end (omega (arith, v.sized, v.room, v.more)) ∙ ap some start-end in
      let col : sub_word below (end + 1) ≡ cursor - start = omega (arith, v.room, below_le) in
      let back : sub_word (end + 1) 1 ≡ end = omega (arith, v.room, v.more) in
      let place : start + (cursor - start) ≡ cursor = omega (arith, before) in
      let later : (below == 0) ≡ false = ground arith in
      let fits : ltb end cursor ≡ false = ground (arith, line_end_bounds buf cursor len v.inside) in
      rw (here, col, later, back, above, place, fits) refl

-- Where the next line reaches the column of the cursor, going down and up again leads back to
-- the same place.
pub vi_move_up-vi_move_down :
    (buf : List ℕ) (len cursor : ℕ)
    → LineBelow buf len cursor
    → (vi_move_down buf len cursor >>= vi_move_up buf) ≡ some cursor
vi_move_up-vi_move_down buf len cursor v =
    rw (moved_down buf len cursor v) (moved_up buf len cursor v)

-- vi_move_up reads outside the buffer exactly when the cursor is on the first line, but not at
-- its start.
pub vi_move_up-none_iff :
    (buf : List ℕ) (cursor : ℕ)
    → length buf ≡ 8192
    → cursor ≤ 8192
    → (vi_move_up buf cursor ≡ none) ↔ ((0 < cursor) × (line_start_loop buf cursor ≡ 0))
unfolding vi_move_up vi_line_start vi_column
vi_move_up-none_iff buf cursor h j = ground (arith, line_start_loop_le buf cursor)
