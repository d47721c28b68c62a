-- ===== src/Vi/Refine.antt =====
-- Every key of bin/vi/vi.c but the colon, `j` and `k`: the operation returns, keeps the editor in
-- its bounds, and changes the text before and behind the cursor as it should.
use myunixlikeos.Vi.LineEdits.{vi_delete_line_lem, newline_typed}
use myunixlikeos.Common.{
  ◌&&◌, ◌||◌, ℕ, Bool, Option, true, false, ◌+◌, ◌≡◌, ◌==◌, if◌then◌else◌, arith, refl, suc, some,
  ltb, Bool-cases, inl, inr, ◌-◌, ◌>>=◌, leb, length, sym,
}
use myunixlikeos.Vi.{Editor, vi_insert_char, vi_buf}
use myunixlikeos.Vi.Keys.{at_cursor, step_left, step_right, command_key, insert_key, open_line}
use myunixlikeos.Vi.Text.{slice, slice-snoc_start, drop_last-slice, last_char-slice, length-slice}
use myunixlikeos.Vi.Meaning.{
  on_first_line, Shown, went_right, went_left, typed, commanded, inserted, line_opened,
}
use myunixlikeos.Vi.Rows.{went_up_lem, went_down_lem}
use myunixlikeos.Vi.View.{
  Shows-itself, IsEditor, Shows, view, shows, vi_insert_char_lem, backspace_lem, vi_delete_char_lem,
}

-- The branches of a test.
Shows-if :
    (t : Bool) (o o' : Option Editor) (z z' : Shown)
    → Shows o z
    → Shows o' z'
    → Shows (if t then o else o') (if t then z else z')
Shows-if true o o' z z' h k = h
Shows-if false o o' z z' h k = k

Shows-when :
    (t : Bool) (o o' : Option Editor) (z z' : Shown)
    → (t ≡ true → Shows o z)
    → Shows o' z'
    → Shows (if t then o else o') (if t then z else z')
Shows-when true o o' z z' h k = h refl
Shows-when false o o' z z' h k = k

-- The mode changes nothing else.
with_mode :
    (o : Option Editor) (z : Shown) (m : Bool)
    → Shows o z
    → Shows (o >>= λ e. some (record e { insert_mode = m })) (record z { inserting = m })
unfolding Shows view
with_mode o z m (e, h, v, p) = (
  record e { insert_mode = m },
  rw h refl,
  record { sized = v.sized; room = v.room; inside = v.inside },
  λ i. record { left = (p i).left; right = (p i).right; inserting = m },
)

-- The cursor is not behind the text.
clamped :
    (o : Option Editor) (z : Shown)
    → Shows o z
    → Shows (o >>= λ e. some (at_cursor e (if ltb e.len e.cursor then e.len else e.cursor))) z
unfolding Shows
clamped o z (e, h, v, p) =
    let inside : ltb e.len e.cursor ≡ false = ground (arith, v.inside) in
    (e, rw (h, inside) refl, v, p)

module _ (e : Editor) (v : IsEditor e) where
  open e use {buf, len, cursor, insert_mode}

  unchanged : (c : ℕ) → leb vi_buf (len + 1) ≡ true → Shows (vi_insert_char e c) (view e)
  unfolding vi_insert_char
  unchanged c h = rw h (Shows-itself e v)

  step_right_lem : Shows (some (step_right e)) (went_right (view e))
  unfolding view slice
  step_right_lem = elim (Bool-cases (ltb cursor len)) [
    | inl h ↦
        let more : len - cursor ≡ suc (len - (cursor + 1)) = ground (arith, v.inside) in
        rw (h, more)
          (shows buf len (cursor + 1) (len - (cursor + 1)) insert_mode _ _ _ refl v.sized v.room
            (ground arith) (slice-snoc_start buf cursor) refl)
    | inr h ↦
        let none_left : len - cursor ≡ 0 = ground (arith, v.inside) in
        rw (h, none_left)
          (shows buf len cursor 0 insert_mode _ _ _ refl v.sized v.room (ground (arith, v.inside))
            refl refl)
  ]

  step_left_lem : Shows (some (step_left e)) (went_left (view e))
  unfolding view slice
  step_left_lem = elim (Bool-cases (ltb 0 cursor)) [
    | inl h ↦
        let some_left : leb (length (slice buf 0 cursor)) 0 ≡ false =
          ground (arith, length-slice buf 0 cursor) in
        rw (h, some_left)
          (shows buf len (cursor - 1) (suc (len - cursor)) insert_mode _ _ _ refl v.sized v.room
            (ground (arith, v.inside))
            (sym (drop_last-slice buf 0 cursor (cursor - 1) (ground arith)))
            (ground (arith, last_char-slice buf 0 cursor (cursor - 1))))
    | inr h ↦
        let none_left : leb (length (slice buf 0 cursor)) 0 ≡ true =
          ground (arith, length-slice buf 0 cursor) in
        rw (h, none_left) (Shows-itself e v)
  ]

  is_full :
      leb 8191 (length (slice buf 0 cursor) + length (slice buf cursor (len - cursor)))
      ≡ leb vi_buf (len + 1)
  is_full =
      ground (arith, length-slice buf 0 cursor, length-slice buf cursor (len - cursor), v.inside)

  vi_insert_char-typed : (c : ℕ) → Shows (vi_insert_char e c) (typed c (view e))
  unfolding view
  vi_insert_char-typed c = elim (Bool-cases (leb vi_buf (len + 1))) [
    | inl h ↦ rw (is_full, h) (unchanged c h)
    | inr h ↦ rw (is_full, h) (vi_insert_char_lem e v c (ground arith))
  ]

  guarded :
      (c : ℕ)
      → Shows (if ltb (len + 1) vi_buf then vi_insert_char e c else some e) (typed c (view e))
  unfolding view
  guarded c = elim (Bool-cases (ltb (len + 1) vi_buf)) [
    | inl h ↦ rw h (vi_insert_char-typed c)
    | inr h ↦
        let all : leb vi_buf (len + 1) ≡ true = ground arith in
        rw (h, is_full, all) (Shows-itself e v)
  ]

  pub insert_key_lem : (c : ℕ) → Shows (insert_key c e) (inserted c (view e))
  unfolding insert_key view
  insert_key_lem c = Shows-if (c == 0x1B) _ _ _ _ (with_mode _ _ false (Shows-itself e v)) (
      Shows-if (c == 0x08 || c == 0x7F) _ _ _ _ (backspace_lem e v) (
        Shows-if (c == b'\r' || c == b'\n') _ _ _ _ (guarded b'\n')
          (Shows-if (leb 32 c) _ _ _ _ (vi_insert_char-typed c) (Shows-itself e v))))

  open_line_lem : Shows (open_line e) (record (line_opened (view e)) { inserting = true })
  unfolding view
  open_line_lem = elim (Bool-cases (ltb (len + 1) vi_buf)) [
    | inl h ↦
        let not_all : leb vi_buf (len + 1) ≡ false = ground arith in
        rw (h, is_full, not_all) (with_mode _ _ true (newline_typed e v (ground arith)))
    | inr h ↦
        let all : leb vi_buf (len + 1) ≡ true = ground arith in
        rw (h, is_full, all) (with_mode _ _ true (Shows-itself e v))
  ]

  pub command_key_lem :
      (c next : ℕ)
      → (c == b'k' && on_first_line (view e)) ≡ false
      → Shows (command_key c next e) (commanded c next (view e))
  unfolding command_key view
  command_key_lem c next h =
      let above = λ (t : (c == b'k') ≡ true). went_up_lem e v (ground arith) in
      Shows-if (c == b'i') _ _ _ _ (with_mode _ _ true (Shows-itself e v)) (
        Shows-if (c == b'a') _ _ _ _ (with_mode _ _ true step_right_lem) (
          Shows-if (c == b'o') _ _ _ _ open_line_lem (
            Shows-if (c == b'h') _ _ _ _ step_left_lem (
              Shows-if (c == b'l') _ _ _ _ step_right_lem (
                Shows-when (c == b'k') _ _ _ _ above (
                  Shows-if (c == b'j') _ _ _ _ (went_down_lem e v) (
                    Shows-if (c == b'x') _ _ _ _ (clamped _ _ (vi_delete_char_lem e v)) (
                      Shows-if (c == b'd') _ _ _ _
                        (Shows-if (next == b'd') _ _ _ _ (vi_delete_line_lem e v)
                          (Shows-itself e v))
                        (Shows-itself e v)))))))))
