-- ===== src/Keyboard/Tests.antt =====
-- The keyboard at concrete inputs.
use myunixlikeos.Common.{ℕ, List, [], ◌∷◌, ◌≡◌, refl, arith, some, true, false, replicate}
use myunixlikeos.Keyboard.{qwerty, translate_scancode, handle, getchar, plain_key}
use myunixlikeos.Keyboard.Keys.{keyboard}
use myunixlikeos.Keyboard.Line.{edit, read_line, Holds, read_line-edit}

-- Shift, a, shift up, b.
shift_typed :
    getchar (0x2a ∷ 0x1e ∷ 0xaa ∷ 0x30 ∷ []) (keyboard qwerty false false false)
    ≡ (some (b'A', 0xaa ∷ 0x30 ∷ []), keyboard qwerty true false false)
unfolding getchar handle plain_key translate_scancode
shift_typed = refl

-- With alt, the key a reads as the arrow down.
alt_a :
    translate_scancode (record (keyboard qwerty false false false) { alt_down = true }) 0x1e ≡ 0xe1
unfolding translate_scancode
alt_a = refl

-- An erased character, and erasing at the start.
abbrev typed : List ℕ
typed = b'a' ∷ 8 ∷ 8 ∷ b'b' ∷ 10 ∷ []

typed_line : edit typed 16 [] ≡ some (8 ∷ b'b' ∷ [])
unfolding edit
typed_line = refl

read_line-edit_example : Holds (edit typed 16 []) (read_line typed 16 (replicate 16 0)) 16
read_line-edit_example = read_line-edit typed 16 (replicate 16 0) (omega arith) (omega arith)
