-- ===== src/Vi/View.antt =====
-- The changes of the buffer in bin/vi/vi.c, seen as changes of the characters before and behind the
-- cursor.
use myunixlikeos.Common.{
  tests, ℕ, Bool, List, Option, [], ◌∷◌, ◌++◌, false, ◌+◌, ◌≡◌, leb, length, arith, refl, ◌<◌, ◌≤◌,
  some, set, ◌∙◌, get_or-set, length-set, ◌-◌, get_or, sym, Bool-cases, inl, inr, true,
}
use myunixlikeos.Libc.Move.{memmove_lem, memmove-length, memmove, moved_byte}
use myunixlikeos.Vi.Keys.{backspace}
use myunixlikeos.Pmm.{sub_word}
use myunixlikeos.Vi.{Editor, vi_buf, vi_insert_char, vi_delete_char}
use myunixlikeos.Vi.Text.{
  slice, drop_last, slice-put, slice-rest_chars, slice_eq, rest_chars, drop_last-slice,
}
use myunixlikeos.Vi.Meaning.{Shown}

pub record IsEditor (e : Editor) : Type 0 where
  pub sized : length e.buf ≡ 8192
  pub room : e.len < 8192
  pub inside : e.cursor ≤ e.len

unfoldable pub view : Editor → Shown
view e = record {
  left = slice e.buf 0 e.cursor;
  right = slice e.buf e.cursor (e.len - e.cursor);
  inserting = e.insert_mode;
}

-- The operation returns an editor that shows `z`.
unfoldable pub Shows : Option Editor → Shown → Type 0
Shows o z = (e : Editor) × (o ≡ some e) × IsEditor e × (view e ≡ z)

abbrev pub editor : List ℕ → (len cursor : ℕ) → Bool → Editor
editor b l c m = record { buf = b; len = l; cursor = c; insert_mode = m }

pub shows :
    (b : List ℕ) (l c n : ℕ) (m : Bool) (o : Option Editor) (ls rs : List ℕ)
    → o ≡ some (editor b l c m)
    → length b ≡ 8192
    → l < 8192
    → c + n ≡ l
    → slice b 0 c ≡ ls
    → slice b c n ≡ rs
    → Shows o (record { left = ls; right = rs; inserting = m })
unfolding Shows view
shows b l c n m o ls rs h sized room whole p q =
    let rest : l - c ≡ n = omega arith in
    let q' : slice b c (l - c) ≡ rs = rw rest q in
    (
      editor b l c m,
      h,
      record { sized = sized; room = room; inside = omega arith },
      λ i. record { left = p i; right = q' i; inserting = m },
    )

pub Shows-itself : (e : Editor) → IsEditor e → Shows (some e) (view e)
unfolding Shows
Shows-itself e v = (e, refl, v, refl)

-- `memmove` inside the buffer.
abbrev pub Moved : (d s n : ℕ) → List ℕ → Type 0
Moved d s n b =
    (b' : List ℕ) × (memmove d s n b ≡ some b')
    × (length b' ≡ 8192)
    × ((k : ℕ) → get_or b' k 0 ≡ moved_byte n d s b k)

pub moves : (d s n : ℕ) (b : List ℕ) → d + n ≤ 8192 → s + n ≤ 8192 → length b ≡ 8192 → Moved d s n b
moves d s n b h j sized =
    let (b', moved, bytes) = memmove_lem d s n b (omega arith) (omega arith) in
    (b', moved, memmove-length d s n b b' moved ∙ sized, bytes)

pub less : (a b : ℕ) → b ≤ a → a < 8193 → sub_word a b ≡ a - b
less a b h k = omega arith

module _ (e : Editor) (v : IsEditor e) where
  open e use {buf, len, cursor, insert_mode}

  abbrev with_char : ℕ → Shown
  with_char c = record {
    left = slice buf 0 cursor ++ (c ∷ []);
    right = slice buf cursor (len - cursor);
    inserting = insert_mode;
  }

  inserted-Shows :
      (c : ℕ)
      → len + 1 < 8192
      → Moved (cursor + 1) cursor (len - cursor) buf
      → Shows (vi_insert_char e c) (with_char c)
  unfolding vi_insert_char
  inserted-Shows c h (b, moved, sized, bytes) =
      let at = λ (k : ℕ). get_or-set b cursor k c 0 (omega (arith, v.inside)) in
      let free : leb vi_buf (len + 1) ≡ false = ground arith in
      shows (set b cursor c) (len + 1) (cursor + 1) (len - cursor) insert_mode (vi_insert_char e c)
        _ _ (rw (free, less len cursor v.inside (omega (arith, v.room)), moved) refl)
        (length-set b cursor c ∙ sized) h (omega (arith, v.inside))
        (slice-put (set b cursor c) buf 0 cursor c (λ k lt. ground (arith, at k, bytes k))
          (ground (arith, at cursor)))
        (slice_eq (set b cursor c) buf (cursor + 1) cursor (len - cursor)
          (λ k lt. ground (arith, at (cursor + 1 + k), bytes (cursor + 1 + k))))

  pub vi_insert_char_lem : (c : ℕ) → len + 1 < 8192 → Shows (vi_insert_char e c) (with_char c)
  vi_insert_char_lem c h = inserted-Shows c h (
      moves (cursor + 1) cursor (len - cursor) buf (omega (arith, v.inside))
        (omega (arith, v.inside)) v.sized)

  abbrev without_char : Shown
  without_char = record {
    left = slice buf 0 cursor;
    right = rest_chars (slice buf cursor (len - cursor));
    inserting = insert_mode;
  }

  deleted-Shows :
      cursor < len
      → Moved cursor (cursor + 1) (len - cursor - 1) buf
      → Shows (vi_delete_char e) without_char
  unfolding vi_delete_char
  deleted-Shows h (b, moved, sized, bytes) =
      let more : leb len cursor ≡ false = ground arith in
      let one_less : len - cursor ≡ len - 1 - cursor + 1 = omega arith in
      shows b (len - 1) cursor (len - 1 - cursor) insert_mode (vi_delete_char e) _ _
        (rw
          (
            more,
            less len cursor v.inside (omega (arith, v.room)),
            less (len - cursor) 1 (omega arith) (omega (arith, v.room)),
            moved,
          )
          refl)
        sized (omega (arith, v.room)) (omega arith)
        (slice_eq b buf 0 0 cursor (λ k lt. ground (arith, bytes k)))
        (slice-rest_chars b buf cursor (len - cursor) (len - 1 - cursor) one_less
          (λ k lt. ground (arith, bytes (cursor + k))))

  nothing_behind : leb len cursor ≡ true → Shows (vi_delete_char e) without_char
  unfolding vi_delete_char slice
  nothing_behind h =
      let none_left : len - cursor ≡ 0 = omega (tests, v.inside, h) in
      shows buf len cursor 0 insert_mode (vi_delete_char e) _ _ (rw h refl) v.sized v.room
        (omega (tests, v.inside, h)) refl (rw none_left refl)

  pub vi_delete_char_lem : Shows (vi_delete_char e) without_char
  vi_delete_char_lem = elim (Bool-cases (leb len cursor)) [
    | inl h ↦ nothing_behind h
    | inr h ↦ deleted-Shows (ground arith) (
        moves cursor (cursor + 1) (len - cursor - 1) buf (omega (arith, v.room))
          (ground (arith, v.room)) v.sized)
  ]

  backspaced-Shows :
      0 < cursor
      → Moved (cursor - 1) (cursor - 1 + 1) (len - (cursor - 1)) buf
      → Shows (backspace e) (record {
        left = drop_last (slice buf 0 cursor);
        right = slice buf cursor (len - cursor);
        inserting = insert_mode;
      })
  unfolding backspace
  backspaced-Shows h (b, moved, sized, bytes) =
      let at = λ (k : ℕ). get_or-set b (len - 1) k 0 0 (omega (arith, v.room)) in
      let more : leb cursor 0 ≡ false = ground arith in
      shows (set b (len - 1) 0) (len - 1) (cursor - 1) (len - cursor) insert_mode (backspace e) _ _
        (rw
          (
            more,
            less len 1 (omega (arith, v.inside)) (omega (arith, v.room)),
            less len (cursor - 1) (omega (arith, v.inside)) (omega (arith, v.room)),
            moved,
          )
          refl)
        (length-set b (len - 1) 0 ∙ sized) (omega (arith, v.room)) (omega (arith, v.inside))
        (slice_eq (set b (len - 1) 0) buf 0 0 (cursor - 1) (λ k lt. ground (arith, at k, bytes k))
          ∙ sym (drop_last-slice buf 0 cursor (cursor - 1) (omega arith)))
        (slice_eq (set b (len - 1) 0) buf (cursor - 1) cursor (len - cursor)
          (λ k lt. ground (arith, at (cursor - 1 + k), bytes (cursor - 1 + k))))

  nothing_before :
      leb cursor 0 ≡ true
      → Shows (backspace e) (record {
        left = drop_last (slice buf 0 cursor);
        right = slice buf cursor (len - cursor);
        inserting = insert_mode;
      })
  unfolding backspace slice
  nothing_before h =
      let at_start : cursor ≡ 0 = omega (tests, h) in
      let same : slice buf 0 cursor ≡ drop_last (slice buf 0 cursor) = rw at_start refl in
      shows buf len cursor (len - cursor) insert_mode (backspace e) _ _ (rw h refl) v.sized v.room
        (omega (arith, v.inside)) same refl

  pub backspace_lem : Shows (backspace e) (record {
    left = drop_last (slice buf 0 cursor);
    right = slice buf cursor (len - cursor);
    inserting = insert_mode;
  })
  backspace_lem = elim (Bool-cases (leb cursor 0)) [
    | inl h ↦ nothing_before h
    | inr h ↦ backspaced-Shows (ground arith) (
        moves (cursor - 1) (cursor - 1 + 1) (len - (cursor - 1)) buf
          (omega (arith, v.room, v.inside)) (ground (arith, v.room, v.inside)) v.sized)
  ]
