-- ===== src/Vi/Rows.antt =====
-- The keys `j` and `k` of bin/vi/vi.c as moves in the text.
use myunixlikeos.Common.{
  ℕ, List, ◌++◌, ◌+◌, ◌-◌, ◌≡◌, ◌≤◌, zero, suc, some, arith, refl, sym, length, take, drop, false,
  leb, min, ◌<◌, ◌>>=◌, Bool-cases, inl, inr, true, ap, if◌then◌else◌, ltb, ◌==◌, ◌∙◌,
}
use myunixlikeos.Vi.{
  Editor, behind_line, vi_line_end, line_start_loop, vi_column, vi_move_down, vi_line_start,
  vi_move_up,
}
use myunixlikeos.Vi.Keys.{at_cursor}
use myunixlikeos.Vi.Lines.{
  other_lines-slice, first_line-slice, whole_lines-slice, line_end_bounds, line_start_loop_le,
  newline_at_end,
}
use myunixlikeos.Vi.Meaning.{placed, went_down, on_first_line, went_up}
use myunixlikeos.Vi.Text.{
  slice, slice-append, length-slice, whole_lines, first_line, other_lines, drop_last-slice,
}
use myunixlikeos.Vi.Motion.{line_starts}
use myunixlikeos.Vi.View.{Shows-itself, IsEditor, Shows, view, shows, less}

take-slice : (buf : List ℕ) (s n k : ℕ) → k ≤ n → take k (slice buf s n) ≡ slice buf s k
unfolding slice
take-slice buf s n zero h = refl
take-slice buf s zero (suc k) h = absurd (omega arith)
take-slice buf s (suc n) (suc k) h = ground (arith, take-slice buf (s + 1) n k)

drop-slice : (buf : List ℕ) (s n k : ℕ) → k ≤ n → drop k (slice buf s n) ≡ slice buf (s + k) (n - k)
unfolding slice
drop-slice buf s n zero h = ground arith
drop-slice buf s zero (suc k) h = absurd (omega arith)
drop-slice buf s (suc n) (suc k) h =
    let place : s + suc k ≡ s + 1 + k = omega arith in
    let rest : suc n - suc k ≡ n - k = omega arith in
    rw (place, rest) (drop-slice buf (s + 1) n k (omega arith))

-- The nearer one of a place and the end of its line.
nearer :
    (line col end : ℕ)
    → line ≤ end
    → (if ltb end (line + col) then end else line + col) ≡ line + min col (end - line)
nearer line col end h = ground arith

smaller : (a b : ℕ) → (if ltb b a then b else a) ≡ min a b
smaller a b = ground arith

module _ (e : Editor) (v : IsEditor e) where
  open e use {buf, len, cursor, insert_mode}

  whole : slice buf 0 cursor ++ slice buf cursor (len - cursor) ≡ slice buf 0 len
  whole =
      let all : cursor + (len - cursor) ≡ len = omega (arith, v.inside) in
      let start : 0 + cursor ≡ cursor = omega arith in
      sym (rw (all, start) at (slice-append buf 0 cursor (len - cursor)))

  placed_lem : (k : ℕ) → k ≤ len → Shows (some (at_cursor e k)) (placed k (view e))
  unfolding view
  placed_lem k h =
      let start : 0 + k ≡ k = omega arith in
      rw (whole, take-slice buf 0 len k h, drop-slice buf 0 len k h)
        (shows buf len k (len - k) insert_mode _ _ _ refl v.sized v.room (omega arith) refl
          (rw start refl))

  length-lines : length (whole_lines (slice buf 0 cursor)) ≡ line_start_loop buf cursor
  length-lines =
      rw⁻¹ (whole_lines-slice buf cursor) (length-slice buf 0 (line_start_loop buf cursor))

  length-first_line :
      (c : ℕ) → length (first_line (slice buf c (len - c))) ≡ vi_line_end buf c len - c
  unfolding vi_line_end
  length-first_line c = rw⁻¹ (first_line-slice (len - c) buf c) (length-slice buf c _)

  length-other_lines :
      length (other_lines (slice buf cursor (len - cursor))) ≡ len - behind_line buf cursor len
  length-other_lines = rw⁻¹ (other_lines-slice buf cursor len v.inside) (length-slice buf _ _)

  abbrev start : ℕ
  start = line_start_loop buf cursor

  abbrev behind : ℕ
  behind = behind_line buf cursor len

  before : start ≤ cursor
  before = line_start_loop_le buf cursor

  abbrev down_place : ℕ
  down_place =
      cursor
      + (vi_line_end buf cursor len - cursor)
      + 1
      + min (cursor - start) (vi_line_end buf behind len - behind)

  down_place_le :
      behind < len → (vi_move_down buf len cursor ≡ some down_place) × (down_place ≤ len)
  unfolding vi_move_down vi_column
  down_place_le h =
      let here = line_starts buf cursor (omega (arith, v.sized, v.room, v.inside)) in
      let col = less cursor start before (omega (arith, v.inside, v.room)) in
      let bounds = line_end_bounds buf cursor len v.inside in
      let next = line_end_bounds buf behind len (omega arith) in
      let passed : behind ≡ vi_line_end buf cursor len + 1 =
        ground (arith, newline_at_end buf cursor len v.inside) in
      let goes : leb len behind ≡ false = ground arith in
      (
        rw (here, col, goes)
            (ap some (
              nearer behind (cursor - start) (vi_line_end buf behind len) next.0
              ∙ omega (arith, passed, bounds))),
        omega (arith, bounds, next, passed),
      )

  stays_down : len ≤ behind → vi_move_down buf len cursor ≡ some cursor
  unfolding vi_move_down vi_column
  stays_down h =
      let here = line_starts buf cursor (omega (arith, v.sized, v.room, v.inside)) in
      let stays : leb len behind ≡ true = ground arith in rw (here, stays) refl

  pub went_down_lem :
      Shows (vi_move_down buf len cursor >>= λ c. some (at_cursor e c)) (went_down (view e))
  unfolding view
  went_down_lem =
      rw
        (
          sym (other_lines-slice buf cursor len v.inside),
          length-slice buf behind (len - behind),
          length-slice buf 0 cursor,
          length-lines,
          length-first_line cursor,
          length-first_line behind,
        )
        (elim (Bool-cases (leb (len - behind) 0)) [
          | inl h ↦ rw (h, stays_down (ground arith)) (Shows-itself e v)
          | inr h ↦
              let moved = down_place_le (ground arith) in
              rw (h, moved.0) (placed_lem down_place moved.1)
        ])

  abbrev up_place : ℕ
  up_place = min (line_start_loop buf (start - 1) + (cursor - start)) (start - 1)

  stays_up : cursor ≤ 0 → vi_move_up buf cursor ≡ some cursor
  unfolding vi_move_up vi_column vi_line_start
  stays_up h = ground (arith, v.sized)

  up_place_lem : 0 < start → vi_move_up buf cursor ≡ some up_place
  unfolding vi_move_up vi_column
  up_place_lem h =
      let here = line_starts buf cursor (omega (arith, v.sized, v.room, v.inside)) in
      let above = line_starts buf (start - 1) (omega (arith, v.sized, v.room, v.inside, before)) in
      let col = less cursor start before (omega (arith, v.inside, v.room)) in
      let back = less start 1 (omega arith) (omega (arith, v.inside, v.room, before)) in
      let later : (cursor == 0) ≡ false = ground (arith, before) in
      rw (here, col, later, back, above)
        (ap some (smaller (line_start_loop buf (start - 1) + (cursor - start)) (start - 1)))

  pub went_up_lem :
      on_first_line (view e) ≡ false
      → Shows (vi_move_up buf cursor >>= λ c. some (at_cursor e c)) (went_up (view e))
  unfolding view
  went_up_lem h =
      let lengths = length-slice buf 0 cursor in
      elim (Bool-cases (leb cursor 0)) [
        | inl t ↦ rw (lengths, t, stays_up (ground arith)) (Shows-itself e v)
        | inr t ↦
            let lower : 0 < start = ground (arith, h, lengths, length-lines) in
            rw
              (
                lengths,
                t,
                sym (whole_lines-slice buf cursor),
                length-slice buf 0 start,
                drop_last-slice buf 0 start (start - 1) (omega arith),
                sym (whole_lines-slice buf (start - 1)),
                length-slice buf 0 (line_start_loop buf (start - 1)),
                up_place_lem lower,
              )
              (placed_lem up_place (omega (arith, before, v.inside)))
      ]
