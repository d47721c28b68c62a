-- ===== src/Vi/Lines.antt =====
-- The lines of bin/vi/vi.c: what `vi_line_start` and `vi_line_end` find, on the characters before
-- and behind a place.
use myunixlikeos.Common.{
  ◌++◌, ◌≤◌, [], ◌+◌, refl, ap, Bool-cases, inl, inr, ◌<◌, ◌==◌, ℕ, List, [], ◌∷◌, ◌++◌, ◌+◌, ◌≡◌,
  arith, refl, zero, suc, get_or, ◌≤◌, ◌-◌,
}
use myunixlikeos.Vi.{line_start_loop, line_end_loop, behind_line, vi_line_end}
use myunixlikeos.Vi.Text.{
  slice-append, slice, slice-snoc, whole_lines, whole_lines-snoc, first_line, from_newline,
  other_lines, rest_chars,
}

pub line_start_loop_le : (buf : List ℕ) (pos : ℕ) → line_start_loop buf pos ≤ pos
unfolding line_start_loop
line_start_loop_le buf zero = omega arith
line_start_loop_le buf (suc pos) = ground (arith, line_start_loop_le buf pos)

snoc_suc :
    (buf : List ℕ) (s n : ℕ) → slice buf s (suc n) ≡ slice buf s n ++ (get_or buf (s + n) 0 ∷ [])
snoc_suc buf s n = let one_more : suc n ≡ n + 1 = omega arith in rw one_more (slice-snoc buf s n)

pub whole_lines-slice :
    (buf : List ℕ) (pos : ℕ) → slice buf 0 (line_start_loop buf pos) ≡ whole_lines (slice buf 0 pos)
unfolding line_start_loop whole_lines slice
whole_lines-slice buf zero = refl
whole_lines-slice buf (suc pos) = ground (
  arith,
  whole_lines-slice buf pos,
  snoc_suc buf 0 pos,
  whole_lines-snoc (slice buf 0 pos) (get_or buf pos 0),
)

pub line_end_loop_bounds :
    (n : ℕ) (buf : List ℕ) (pos : ℕ)
    → (pos ≤ line_end_loop n buf pos) × (line_end_loop n buf pos ≤ pos + n)
unfolding line_end_loop
line_end_loop_bounds zero buf pos = (omega arith, omega arith)
line_end_loop_bounds (suc n) buf pos = ground (arith, line_end_loop_bounds n buf (pos + 1))

-- The line up to its end, and the text from there on.
pub first_line-slice :
    (n : ℕ) (buf : List ℕ) (pos : ℕ)
    → slice buf pos (line_end_loop n buf pos - pos) ≡ first_line (slice buf pos n)
unfolding line_end_loop first_line slice
first_line-slice zero buf pos = ground arith
first_line-slice (suc n) buf pos = elim (Bool-cases (get_or buf pos 0 == b'\n')) [
  | inl h ↦ let none_left : pos - pos ≡ 0 = omega arith in rw (h, none_left) refl
  | inr h ↦
      let bound = (line_end_loop_bounds n buf (pos + 1)).0 in
      let one_more : line_end_loop n buf (pos + 1) - pos
          ≡ suc (line_end_loop n buf (pos + 1) - (pos + 1)) =
        omega arith in
      rw (h, one_more) (ap (get_or buf pos 0 ∷◌) (first_line-slice n buf (pos + 1)))
]

pub from_newline-slice :
    (n : ℕ) (buf : List ℕ) (pos : ℕ)
    → slice buf (line_end_loop n buf pos) (pos + n - line_end_loop n buf pos)
      ≡ from_newline (slice buf pos n)
unfolding line_end_loop from_newline slice
from_newline-slice zero buf pos = ground arith
from_newline-slice (suc n) buf pos = elim (Bool-cases (get_or buf pos 0 == b'\n')) [
  | inl h ↦ let all_left : pos + suc n - pos ≡ suc n = omega arith in rw (h, all_left) refl
  | inr h ↦
      let same : pos + suc n ≡ pos + 1 + n = omega arith in
      rw (h, same) (from_newline-slice n buf (pos + 1))
]

-- A newline stands at the end of a line that is not the end of the text.
pub at_line_end :
    (n : ℕ) (buf : List ℕ) (pos : ℕ)
    → line_end_loop n buf pos < pos + n
    → get_or buf (line_end_loop n buf pos) 0 ≡ b'\n'
unfolding line_end_loop
at_line_end zero buf pos h = absurd (omega arith)
at_line_end (suc n) buf pos h = elim (Bool-cases (get_or buf pos 0 == b'\n')) [
  | inl t ↦ ground arith
  | inr t ↦ rw t (at_line_end n buf (pos + 1) (ground arith))
]

-- The same with `vi_line_end`, and the place behind the newline.
module _ (buf : List ℕ) (cursor len : ℕ) (h : cursor ≤ len) where
  pub behind_bounds : (cursor ≤ behind_line buf cursor len) × (behind_line buf cursor len ≤ len)
  unfolding vi_line_end
  behind_bounds = ground (arith, line_end_loop_bounds (len - cursor) buf cursor)

  pub line_end_bounds : (cursor ≤ vi_line_end buf cursor len) × (vi_line_end buf cursor len ≤ len)
  unfolding vi_line_end
  line_end_bounds = ground (arith, line_end_loop_bounds (len - cursor) buf cursor)

  pub newline_at_end :
      vi_line_end buf cursor len < len → get_or buf (vi_line_end buf cursor len) 0 ≡ b'\n'
  unfolding vi_line_end
  newline_at_end j = at_line_end (len - cursor) buf cursor (omega arith)

  pub rest-slice :
      slice buf (vi_line_end buf cursor len) (len - vi_line_end buf cursor len)
      ≡ from_newline (slice buf cursor (len - cursor))
  unfolding vi_line_end
  rest-slice =
      let whole : cursor + (len - cursor) ≡ len = omega arith in
      rw whole at (from_newline-slice (len - cursor) buf cursor)

  tail_after :
      (end : ℕ)
      → end < len
      → rest_chars (slice buf end (len - end)) ≡ slice buf (end + 1) (len - (end + 1))
  unfolding slice
  tail_after end j = let more : len - end ≡ suc (len - (end + 1)) = omega arith in rw more refl

  nothing_after : (end : ℕ) → len ≤ end → slice buf end (len - end) ≡ []
  unfolding slice
  nothing_after end j = let none_left : len - end ≡ 0 = omega arith in rw none_left refl

  pub other_lines-slice :
      slice buf (behind_line buf cursor len) (len - behind_line buf cursor len)
      ≡ other_lines (slice buf cursor (len - cursor))
  unfolding other_lines
  other_lines-slice =
      let end = vi_line_end buf cursor len in
      ground (arith, newline_at_end, rest-slice, tail_after end, nothing_after end, line_end_bounds)

  pub first_line_end :
      slice buf 0 (vi_line_end buf cursor len)
      ≡ slice buf 0 cursor ++ first_line (slice buf cursor (len - cursor))
  unfolding vi_line_end
  first_line_end =
      let low = (line_end_loop_bounds (len - cursor) buf cursor).0 in
      let end = line_end_loop (len - cursor) buf cursor in
      let whole : cursor + (end - cursor) ≡ end = omega arith in
      let start : 0 + cursor ≡ cursor = omega arith in
      rw (whole, start, first_line-slice (len - cursor) buf cursor) at
        (slice-append buf 0 cursor (end - cursor))
