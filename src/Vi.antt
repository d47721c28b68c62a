-- ===== src/Vi.antt =====
-- The editor of bin/vi/vi.c: the moves in its buffer and the changes of it. `none` is an access
-- outside an object.
pub mod Keys
mod LineEdits
mod Lines
mod Loop
mod Meaning
mod Motion
mod Refine
mod Rows
mod Save
mod Tests
mod Text
mod View
use myunixlikeos.Common.{
  ℕ, Bool, List, Option, none, some, zero, suc, ◌+◌, ◌-◌, ◌==◌, ◌&&◌, if◌then◌else◌, ltb, leb,
  get_or, set, length, take, drop, false, true, ◌++◌, ◌>>=◌,
}
use myunixlikeos.Libc.Move.{memmove}
use myunixlikeos.Pmm.{Pmm, alloc_z, sub_word}

abbrev pub vi_buf : ℕ
vi_buf = 8192

-- The variables of `cmd_vi`: the buffer, the length of the text in it, the cursor and the mode.
pub record Editor : Type 0 where
  pub buf : List ℕ
  pub len : ℕ
  pub cursor : ℕ
  pub insert_mode : Bool

-- The loop for a `pos` that the buffer has.
unfoldable pub line_start_loop : List ℕ → ℕ → ℕ
line_start_loop buf zero = zero
line_start_loop buf (suc pos) =
    if get_or buf pos 0 == b'\n' then suc pos else line_start_loop buf pos

unfoldable pub vi_line_start : List ℕ → ℕ → Option ℕ
vi_line_start buf pos = if ltb (length buf) pos then none else some (line_start_loop buf pos)

-- The loop with `n` bytes of the text left.
unfoldable pub line_end_loop : ℕ → List ℕ → ℕ → ℕ
line_end_loop zero buf pos = pos
line_end_loop (suc n) buf pos =
    if get_or buf pos 0 == b'\n' then pos else line_end_loop n buf (pos + 1)

unfoldable pub vi_line_end : List ℕ → (pos len : ℕ) → ℕ
vi_line_end buf pos len = line_end_loop (len - pos) buf pos

unfoldable pub line_number_loop : ℕ → List ℕ → (i line : ℕ) → ℕ
line_number_loop zero buf i line = line
line_number_loop (suc n) buf i line =
    if get_or buf i 0 == 0
    then line
    else line_number_loop n buf (i + 1) (if get_or buf i 0 == b'\n' then line + 1 else line)

unfoldable pub vi_line_number : List ℕ → ℕ → ℕ
vi_line_number buf pos = line_number_loop pos buf 0 0

unfoldable pub vi_column : List ℕ → ℕ → Option ℕ
vi_column buf pos = do start ← vi_line_start buf pos; some (sub_word pos start)

-- The place in the line before the one that starts at `start`.
abbrev pub place_above : List ℕ → (start col : ℕ) → Option ℕ
place_above buf start col = do
  let prev_line_end = sub_word start 1
  prev_line_start ← vi_line_start buf prev_line_end
  let target = prev_line_start + col
  some (if ltb prev_line_end target then prev_line_end else target)

unfoldable pub vi_move_up : List ℕ → ℕ → Option ℕ
vi_move_up buf cursor = do
  col ← vi_column buf cursor
  start ← vi_line_start buf cursor
  if cursor == 0 then some 0 else place_above buf start col

-- The place behind the line, and behind its newline if the text has one there.
abbrev pub behind_line : List ℕ → (cursor len : ℕ) → ℕ
behind_line buf cursor len =
    let end = vi_line_end buf cursor len in
    if ltb end len && (get_or buf end 0 == b'\n') then end + 1 else end

unfoldable pub vi_move_down : List ℕ → (len cursor : ℕ) → Option ℕ
vi_move_down buf len cursor = do
  col ← vi_column buf cursor
  let next_line_start = behind_line buf cursor len
  let next_line_end = vi_line_end buf next_line_start len
  let target = next_line_start + col
  some (
      if leb len next_line_start
      then cursor
      else if ltb next_line_end target
      then next_line_end
      else target)

unfoldable pub vi_delete_line : Editor → Option Editor
vi_delete_line e = do
  start ← vi_line_start e.buf e.cursor
  let end = behind_line e.buf e.cursor e.len
  buf ← memmove start end (sub_word e.len end) e.buf
  some (record e { buf = buf; len = sub_word e.len (sub_word end start); cursor = start })

unfoldable pub vi_insert_char : Editor → ℕ → Option Editor
vi_insert_char e c = if leb vi_buf (e.len + 1) then some e else do
  buf ← memmove (e.cursor + 1) e.cursor (sub_word e.len e.cursor) e.buf
  some (record e { buf = set buf e.cursor c; len = e.len + 1; cursor = e.cursor + 1 })

unfoldable pub vi_delete_char : Editor → Option Editor
vi_delete_char e = if leb e.len e.cursor then some e else do
  buf ← memmove e.cursor (e.cursor + 1) (sub_word (sub_word e.len e.cursor) 1) e.buf
  some (record e { buf = buf; len = e.len - 1 })

-- The fields of a node that the editor uses.
pub record OpenFile : Type 0 where
  pub content : Option (List ℕ)
  pub size : ℕ

-- The copy of the text and its terminator.
unfoldable pub store_text : (buf : List ℕ) (len : ℕ) (content : List ℕ) → Option OpenFile
store_text buf len content =
    if ltb len (length content)
    then some (record { content = some (set (take len buf ++ drop len content) len 0); size = len })
    else none

unfoldable pub vi_save : OpenFile → List ℕ → ℕ → (ram : ℕ → ℕ) → Pmm → Option (OpenFile × Pmm)
vi_save file buf len ram pmm = elim file.content [
  | some content ↦ do file' ← store_text buf len content; some (file', pmm)
  | none ↦
      let (page, pmm') = alloc_z vi_buf ram pmm in
      elim page [
        | none ↦ some (file, pmm')
        | some (_, page_bytes) ↦ do file' ← store_text buf len page_bytes; some (file', pmm')
      ]
]

-- The loop that loads a file, with room for `n` characters.
unfoldable pub load_loop : ℕ → (content buf : List ℕ) → ℕ → List ℕ × ℕ
load_loop zero content buf len = (buf, len)
load_loop (suc n) content buf len = elim (get_or content len 0 == 0) [
  | true ↦ (buf, len)
  | false ↦ load_loop n content (set buf len (get_or content len 0)) (len + 1)
]

unfoldable pub load_content : Option (List ℕ) → List ℕ → List ℕ × ℕ
load_content none buf = (buf, 0)
load_content (some content) buf = load_loop (vi_buf - 1) content buf 0

-- The text of the file in the buffer, with the cursor behind it.
unfoldable pub load : OpenFile → Editor → Editor
load file e =
    let (buf, len) = load_content file.content e.buf in
    record e { buf = set buf len 0; len = len; cursor = len }
