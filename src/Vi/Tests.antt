-- ===== src/Vi/Tests.antt =====
-- The editor of bin/vi/vi.c at concrete inputs.
use myunixlikeos.Common.{
  ℕ, List, [], ◌∷◌, ◌≡◌, ◌↔◌, refl, true, false, replicate, length-replicate, length, zero, suc,
  arith, some, none, ◌<◌, get_or, ap, ◌>>=◌,
}
use myunixlikeos.Pmm.{Pmm}
use myunixlikeos.Vi.{
  Editor, OpenFile, vi_save, load, vi_move_up, vi_move_down, vi_line_end, line_end_loop,
  line_start_loop, vi_line_number, line_number_loop,
}
use myunixlikeos.Vi.Keys.{Input, Session, vi_loop}
use myunixlikeos.Vi.Loop.{GoesOn, all_keyed, all_plain, keyed, vi_loop_lem}
use myunixlikeos.Vi.Motion.{vi_move_up-vi_move_down, vi_move_up-none_iff, LineBelow}
use myunixlikeos.Vi.Save.{load-vi_save, CanSave}
use myunixlikeos.Vi.Text.{slice, whole_lines, other_lines, from_newline, first_line}
use myunixlikeos.Vi.View.{IsEditor, view}

abbrev key : ℕ → Input
key c = record { c = c; next = b'd'; command_line = [] }

abbrev empty : Editor
empty = record { buf = replicate 8192 0; len = 0; cursor = 0; insert_mode = false }

empty-IsEditor : IsEditor empty
empty-IsEditor = record {
  sized = length-replicate {A = ℕ} 8192 0;
  room = omega arith;
  inside = omega arith;
}

abbrev memory : Pmm
memory = record { bitmap = []; bitmap_size = 0; memory_start = 0; total_pages = 0; available = 0 }

abbrev fresh : Session
fresh = record {
  editor = empty;
  file = record { content = none; size = 0 };
  ram = λ b. 0;
  pmm = memory;
}

-- i a b Enter c Backspace d Escape k j h x
abbrev keys : List Input
keys =
    key b'i'
    ∷ key b'a'
    ∷ key b'b'
    ∷ key b'\n'
    ∷ key b'c'
    ∷ key 8
    ∷ key b'd'
    ∷ key 27
    ∷ key b'k'
    ∷ key b'j'
    ∷ key b'h'
    ∷ key b'x'
    ∷ []

keys_plain : all_plain keys (view empty) ≡ true
unfolding all_plain keyed view slice whole_lines other_lines from_newline first_line
keys_plain = refl

vi_loop_lem_example : GoesOn (vi_loop keys fresh) fresh (all_keyed keys (view empty))
vi_loop_lem_example = vi_loop_lem keys fresh empty-IsEditor keys_plain

keys_text :
    all_keyed keys (view empty)
    ≡ record { left = b'a' ∷ b'b' ∷ b'\n' ∷ []; right = []; inserting = false }
unfolding all_keyed keyed view slice whole_lines other_lines from_newline first_line
keys_text = refl

abbrev two_lines : List ℕ
two_lines = b'a' ∷ b'b' ∷ b'\n' ∷ b'c' ∷ b'd' ∷ replicate 8187 0

two_lines-length : length two_lines ≡ 8192
two_lines-length = ap (λ (n : ℕ). suc (suc (suc (suc (suc n))))) (length-replicate {A = ℕ} 8187 0)

two_lines-LineBelow : LineBelow two_lines 5 1
unfolding vi_line_end line_end_loop line_start_loop
two_lines-LineBelow = record {
  sized = two_lines-length;
  room = omega arith;
  inside = omega arith;
  more = omega arith;
  long = omega arith;
}

vi_move_up-vi_move_down_example : (vi_move_down two_lines 5 1 >>= vi_move_up two_lines) ≡ some 1
vi_move_up-vi_move_down_example = vi_move_up-vi_move_down two_lines 5 1 two_lines-LineBelow

vi_move_up-none_iff_example :
    (vi_move_up two_lines 1 ≡ none) ↔ ((0 < 1) × (line_start_loop two_lines 1 ≡ 0))
vi_move_up-none_iff_example = vi_move_up-none_iff two_lines 1 two_lines-length (omega arith)

second_line : vi_line_number two_lines 4 ≡ 1
unfolding vi_line_number line_number_loop
second_line = refl

abbrev written : Editor
written = record { buf = two_lines; len = 5; cursor = 0; insert_mode = false }

two_lines_text : (k : ℕ) → k < 5 → 0 < get_or two_lines k 0
two_lines_text zero h = omega arith
two_lines_text (suc zero) h = omega arith
two_lines_text (suc (suc zero)) h = omega arith
two_lines_text (suc (suc (suc zero))) h = omega arith
two_lines_text (suc (suc (suc (suc zero)))) h = omega arith
two_lines_text (suc (suc (suc (suc (suc k))))) h = absurd (omega arith)

abbrev page : List ℕ
page = replicate 4096 0

written-CanSave : CanSave written page
written-CanSave = record {
  valid = record { sized = two_lines-length; room = omega arith; inside = omega arith };
  text = two_lines_text;
  space = omega (arith, length-replicate {A = ℕ} 4096 0);
}

load-vi_save_example :
    (file' : OpenFile) × (vi_save
        (record { content = some page; size = 0 })
        two_lines
        5
        (λ b. 0)
        memory
      ≡ some (file', memory))
    × (file'.size ≡ 5)
    × IsEditor (load file' empty)
    × (view (load file' empty)
        ≡ record { left = slice two_lines 0 5; right = []; inserting = false })
load-vi_save_example =
    load-vi_save written empty page 0 (λ b. 0) memory written-CanSave empty-IsEditor
