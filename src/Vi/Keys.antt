-- ===== src/Vi/Keys.antt =====
-- The loop of `cmd_vi` in bin/vi/vi.c: what each key does in the two modes. An input is a character
-- with what the code reads behind it: the next character, and the buffer that `read_line` fills.
use myunixlikeos.Common.{
  ℕ, Bool, List, Option, some, [], ◌∷◌, true, false, ◌+◌, ◌-◌, ◌==◌, ◌||◌, if◌then◌else◌, ltb, leb,
  set, ◌>>=◌,
}
use myunixlikeos.Libc.Move.{memmove}
use myunixlikeos.Libc.Str.{str_eq, strncmp, is_zero}
use myunixlikeos.Pmm.{Pmm, sub_word}
use myunixlikeos.Vi.{
  Editor, OpenFile, vi_buf, vi_line_end, vi_move_up, vi_move_down, vi_delete_line, vi_insert_char,
  vi_delete_char, vi_save, load,
}

abbrev pub at_cursor : Editor → ℕ → Editor
at_cursor e cursor = record e { cursor = cursor }

-- `o`
abbrev pub open_line : Editor → Option Editor
open_line e = do
  e' ←
      if ltb (e.len + 1) vi_buf
      then vi_insert_char (at_cursor e (vi_line_end e.buf e.cursor e.len)) b'\n'
      else some e
  some (record e' { insert_mode = true })

abbrev pub step_left : Editor → Editor
step_left e = at_cursor e (if ltb 0 e.cursor then e.cursor - 1 else e.cursor)

abbrev pub step_right : Editor → Editor
step_right e = at_cursor e (if ltb e.cursor e.len then e.cursor + 1 else e.cursor)

-- `x`
abbrev pub delete_here : Editor → Option Editor
delete_here e = do
  e' ← vi_delete_char e
  some (at_cursor e' (if ltb e'.len e'.cursor then e'.len else e'.cursor))

-- A key in command mode, other than the colon.
unfoldable pub command_key : (c next : ℕ) → Editor → Option Editor
command_key c next e =
    if c == b'i'
    then some (record e { insert_mode = true })
    else if c == b'a'
    then some (record (step_right e) { insert_mode = true })
    else if c == b'o'
    then open_line e
    else if c == b'h'
    then some (step_left e)
    else if c == b'l'
    then some (step_right e)
    else if c == b'k'
    then (vi_move_up e.buf e.cursor >>= λ cursor. some (at_cursor e cursor))
    else if c == b'j'
    then (vi_move_down e.buf e.len e.cursor >>= λ cursor. some (at_cursor e cursor))
    else if c == b'x'
    then delete_here e
    else if c == b'd'
    then (if next == b'd' then vi_delete_line e else some e)
    else some e

unfoldable pub backspace : Editor → Option Editor
backspace e = if leb e.cursor 0 then some e else do
  let cursor = e.cursor - 1
  let len = sub_word e.len 1
  buf ← memmove cursor (cursor + 1) (sub_word e.len cursor) e.buf
  some (record e { buf = set buf len 0; len = len; cursor = cursor })

unfoldable pub insert_key : ℕ → Editor → Option Editor
insert_key c e =
    if c == 0x1B
    then some (record e { insert_mode = false })
    else if c == 0x08 || c == 0x7F
    then backspace e
    else if c == b'\r' || c == b'\n'
    then (if ltb (e.len + 1) vi_buf then vi_insert_char e b'\n' else some e)
    else if leb 32 c
    then vi_insert_char e c
    else some e

pub record Session : Type 0 where
  pub editor : Editor
  pub file : OpenFile
  pub ram : ℕ → ℕ
  pub pmm : Pmm

pub data Outcome : Type 0 where
  running : Session → Outcome
  quit : Session → Outcome

unfoldable pub save : Session → Option Session
save s = do
  (file, pmm) ← vi_save s.file s.editor.buf s.editor.len s.ram s.pmm
  some (record s { file = file; pmm = pmm })

abbrev pub saves_and_quits : List ℕ → Bool
saves_and_quits line = str_eq line (b'w' ∷ b'q' ∷ 0 ∷ []) || str_eq line (b'x' ∷ 0 ∷ [])

abbrev pub quits : List ℕ → Bool
quits line =
    str_eq line (b'q' ∷ 0 ∷ []) || str_eq line (b'q' ∷ b'!' ∷ 0 ∷ []) || saves_and_quits line

unfoldable pub colon_line : List ℕ → Session → Option Outcome
colon_line line s = do
  s' ← if str_eq line (b'w' ∷ 0 ∷ []) || saves_and_quits line then save s else some s
  some (
      if quits line
      then quit s'
      else if is_zero (strncmp line (b'e' ∷ b' ' ∷ 0 ∷ []) 2)
      then running (record s' { editor = load s'.file s'.editor })
      else running s')

pub record Input : Type 0 where
  pub c : ℕ
  pub next : ℕ
  pub command_line : List ℕ

abbrev pub edited : Session → Option Editor → Option Outcome
edited s e = e >>= λ editor. some (running (record s { editor = editor }))

unfoldable pub vi_key : Input → Session → Option Outcome
vi_key i s =
    if i.c == 0
    then some (running s)
    else if s.editor.insert_mode
    then edited s (insert_key i.c s.editor)
    else if i.c == b':'
    then colon_line i.command_line s
    else edited s (command_key i.c i.next s.editor)

-- `running` when the inputs are used up.
unfoldable pub vi_loop : List Input → Session → Option Outcome
vi_loop [] s = some (running s)
vi_loop (i ∷ is) s = do
  o ← vi_key i s
  elim o [ running s' ↦ vi_loop is s' | quit s' ↦ some (quit s') ]
