-- ===== src/Vi/Meaning.antt =====
-- The text of the editor of bin/vi/vi.c as the characters before and behind the cursor, and what
-- each key means on them.
use myunixlikeos.Common.{
  ℕ, Bool, List, [], ◌∷◌, ◌++◌, true, false, ◌+◌, ◌-◌, ◌==◌, ◌||◌, ◌&&◌, not, if◌then◌else◌, leb,
  length, take, drop, min,
}
use myunixlikeos.Vi.Text.{
  drop_last, last_char, rest_chars, whole_lines, first_line, from_newline, other_lines,
}

pub record Shown : Type 0 where
  pub left : List ℕ
  pub right : List ℕ
  pub inserting : Bool

-- A text of 8191 characters is full.
abbrev pub full : Shown → Bool
full z = leb 8191 (length z.left + length z.right)

abbrev pub typed : ℕ → Shown → Shown
typed c z = if full z then z else record z { left = z.left ++ (c ∷ []) }

abbrev pub went_right : Shown → Shown
went_right z = elim z.right [ [] ↦ z | c ∷ cs ↦ record z { left = z.left ++ (c ∷ []); right = cs } ]

abbrev pub went_left : Shown → Shown
went_left z =
    if leb (length z.left) 0
    then z
    else record z { left = drop_last z.left; right = last_char z.left ∷ z.right }

abbrev pub line_opened : Shown → Shown
line_opened z = if full z then z else record z {
  left = z.left ++ first_line z.right ++ (b'\n' ∷ []);
  right = from_newline z.right;
}

-- The cursor at a place of the text.
abbrev pub placed : ℕ → Shown → Shown
placed k z = record z { left = take k (z.left ++ z.right); right = drop k (z.left ++ z.right) }

abbrev pub column : Shown → ℕ
column z = length z.left - length (whole_lines z.left)

-- The same column of the next line, or the end of it; the cursor stays if no text follows its line.
abbrev pub went_down : Shown → Shown
went_down z =
    let rest = other_lines z.right in
    if leb (length rest) 0
    then z
    else placed
        (length z.left
          + length (first_line z.right)
          + 1
          + min (column z) (length (first_line rest)))
        z

-- The same column of the line before, or the end of it.
abbrev pub went_up : Shown → Shown
went_up z =
    let lines = whole_lines z.left in
    if leb (length z.left) 0
    then z
    else placed (min (length (whole_lines (drop_last lines)) + column z) (length lines - 1)) z

-- On the first line, but not at its start.
abbrev pub on_first_line : Shown → Bool
on_first_line z = not (leb (length z.left) 0) && leb (length (whole_lines z.left)) 0

-- What a key other than the colon does in command mode.
abbrev pub commanded : (c next : ℕ) → Shown → Shown
commanded c next z =
    if c == b'i'
    then record z { inserting = true }
    else if c == b'a'
    then record (went_right z) { inserting = true }
    else if c == b'o'
    then record (line_opened z) { inserting = true }
    else if c == b'h'
    then went_left z
    else if c == b'l'
    then went_right z
    else if c == b'k'
    then went_up z
    else if c == b'j'
    then went_down z
    else if c == b'x'
    then record z { right = rest_chars z.right }
    else if c == b'd'
    then (if next == b'd'
        then record z { left = whole_lines z.left; right = other_lines z.right }
        else z)
    else z

-- What a key does in insert mode.
abbrev pub inserted : ℕ → Shown → Shown
inserted c z =
    if c == 0x1B
    then record z { inserting = false }
    else if c == 0x08 || c == 0x7F
    then record z { left = drop_last z.left }
    else if c == b'\r' || c == b'\n'
    then typed b'\n' z
    else if leb 32 c
    then typed c z
    else z
