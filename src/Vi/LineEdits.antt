-- ===== src/Vi/LineEdits.antt =====
-- The keys `dd` and `o` of bin/vi/vi.c, seen as changes of whole lines.
use myunixlikeos.Vi.Lines.{
  first_line_end, behind_bounds, other_lines-slice, line_start_loop_le, whole_lines-slice,
  line_end_bounds, rest-slice,
}
use myunixlikeos.Common.{
  ap, ◌++◌, subst, ◌∷◌, [], false, ◌+◌, ◌≡◌, arith, refl, ltb, ◌-◌, length, ◌∙◌, ◌≤◌, ◌<◌,
}
use myunixlikeos.Vi.{
  line_start_loop, behind_line, Editor, vi_delete_line, vi_line_start, vi_insert_char, vi_line_end,
}
use myunixlikeos.Vi.Keys.{at_cursor}
use myunixlikeos.Vi.Text.{first_line, from_newline, slice, whole_lines, other_lines, slice_eq}
use myunixlikeos.Vi.Meaning.{Shown}
use myunixlikeos.Vi.View.{IsEditor, Shows, shows, Moved, less, moves, vi_insert_char_lem}

module _ (e : Editor) (v : IsEditor e) where
  open e use {buf, len, cursor, insert_mode}

  line_deleted :
      Moved
        (line_start_loop buf cursor)
        (behind_line buf cursor len)
        (len - behind_line buf cursor len)
        buf
      → Shows (vi_delete_line e) (record {
        left = whole_lines (slice buf 0 cursor);
        right = other_lines (slice buf cursor (len - cursor));
        inserting = insert_mode;
      })
  unfolding vi_delete_line vi_line_start
  line_deleted (b, moved, sized, bytes) =
      let start = line_start_loop buf cursor in
      let behind = behind_line buf cursor len in
      let low : start ≤ cursor = line_start_loop_le buf cursor in
      let mid : cursor ≤ behind = (behind_bounds buf cursor len v.inside).0 in
      let high : behind ≤ len = (behind_bounds buf cursor len v.inside).1 in
      let inside : ltb (length buf) cursor ≡ false = ground (arith, v.sized, v.room, v.inside) in
      shows b (len - (behind - start)) start (len - behind) insert_mode (vi_delete_line e) _ _
        (rw
          (
            inside,
            less len behind high (omega (arith, v.room)),
            moved,
            less behind start (omega arith) (omega (arith, v.room)),
            less len (behind - start) (omega arith) (omega (arith, v.room)),
          )
          refl)
        sized (omega (arith, v.room)) (omega arith)
        (slice_eq b buf 0 0 start (λ k lt. ground (arith, bytes k)) ∙ whole_lines-slice buf cursor)
        (slice_eq b buf start behind (len - behind) (λ k lt. ground (arith, bytes (start + k)))
          ∙ other_lines-slice buf cursor len v.inside)

  pub vi_delete_line_lem : Shows (vi_delete_line e) (record {
    left = whole_lines (slice buf 0 cursor);
    right = other_lines (slice buf cursor (len - cursor));
    inserting = insert_mode;
  })
  vi_delete_line_lem = line_deleted (
      moves (line_start_loop buf cursor) (behind_line buf cursor len)
        (len - behind_line buf cursor len) buf
        (omega
          (arith, behind_bounds buf cursor len v.inside, line_start_loop_le buf cursor, v.room))
        (omega (arith, behind_bounds buf cursor len v.inside, v.room)) v.sized)

  -- The new line is behind the line of the cursor.
  pub newline_typed :
      len + 1 < 8192
      → Shows (vi_insert_char (at_cursor e (vi_line_end buf cursor len)) b'\n') (record {
        left = slice buf 0 cursor ++ first_line (slice buf cursor (len - cursor)) ++ (b'\n' ∷ []);
        right = from_newline (slice buf cursor (len - cursor));
        inserting = insert_mode;
      })
  newline_typed h =
      let end = vi_line_end buf cursor len in
      let v' : IsEditor (at_cursor e end) = record {
        sized = v.sized;
        room = v.room;
        inside = (line_end_bounds buf cursor len v.inside).1;
      } in
      let before : slice buf 0 end ++ (b'\n' ∷ [])
          ≡ slice buf 0 cursor ++ first_line (slice buf cursor (len - cursor)) ++ (b'\n' ∷ []) =
        ap (◌++ (b'\n' ∷ [])) (first_line_end buf cursor len v.inside) in
      subst (λ (z : Shown). Shows (vi_insert_char (at_cursor e end) b'\n') z)
        (λ i. record {
          left = before i;
          right = rest-slice buf cursor len v.inside i;
          inserting = insert_mode;
        })
        (vi_insert_char_lem (at_cursor e end) v' b'\n' h)
