-- ===== src/Keyboard.antt =====
-- The keyboard of kernel/drivers/input/pskey.c: modifiers, layouts and scancodes. The controller is
-- the list of the scancodes that it gives; characters are unsigned bytes.
pub mod Tables
pub mod Line
pub mod Keys
mod Tests
use myunixlikeos.Common.{
  ℕ, Bool, List, Option, [], bit_and, bit_or, get_or, if◌then◌else◌, leb, none, not, some, ◌&&◌,
  ◌+◌, ◌-◌, ◌==◌, ◌||◌, ◌∷◌, true, false,
}
use myunixlikeos.Keyboard.Tables.{
  azerty_table, azerty_table_shift, qwerty_table, qwerty_table_shift,
}

pub data Layout : Type 0 where
  qwerty : Layout
  azerty : Layout

-- The static variables of the driver.
pub record Keyboard : Type 0 where
  pub table : List ℕ
  pub table_shift : List ℕ
  pub shift_down : Bool
  pub ctrl_down : Bool
  pub alt_down : Bool
  pub capslock_on : Bool
  pub extended : Bool

abbrev pub set_layout : Layout → Keyboard → Keyboard
set_layout qwerty k = record k { table = qwerty_table; table_shift = qwerty_table_shift }
set_layout azerty k = record k { table = azerty_table; table_shift = azerty_table_shift }

abbrev pub is_lower : ℕ → Bool
is_lower c = leb b'a' c && leb c b'z'

abbrev pub is_letter : ℕ → Bool
is_letter c = is_lower c || (leb b'A' c && leb c b'Z')

-- What shift and caps lock make of a key.
unfoldable pub shifted : Keyboard → ℕ → ℕ
shifted k code =
    let normal = get_or k.table code 0 in
    if k.capslock_on && is_lower normal
    then (if k.shift_down then normal else normal - b'a' + b'A')
    else if k.shift_down
    then get_or k.table_shift code 0
    else normal

abbrev pub with_ctrl : Keyboard → ℕ → ℕ
with_ctrl k c = if k.ctrl_down && is_letter c then bit_and c 0x1f else c

abbrev pub with_alt : Keyboard → ℕ → ℕ
with_alt k c = if k.alt_down && not (c == 0) then bit_or 0x80 c else c

-- The tables have a byte for every code below 0x80.
unfoldable pub translate_scancode : Keyboard → ℕ → ℕ
unfolding shifted
translate_scancode k code = with_alt k (with_ctrl k (shifted k code))

-- The second byte of an extended key.
abbrev pub arrow : ℕ → Option ℕ
arrow c =
    if c == 0x48
    then some 0xe0
    else if c == 0x50
    then some 0xe1
    else if c == 0x4b
    then some 0xe2
    else if c == 0x4d
    then some 0xe3
    else none

-- A scancode with no prefix before it.
unfoldable pub plain_key : ℕ → Keyboard → Option ℕ × Keyboard
plain_key c k =
    if c == 0x2a || c == 0x36
    then (none, record k { shift_down = true })
    else if c == 0xaa || c == 0xb6
    then (none, record k { shift_down = false })
    else if c == 0x1d
    then (none, record k { ctrl_down = true })
    else if c == 0x9d
    then (none, record k { ctrl_down = false })
    else if c == 0x38
    then (none, record k { alt_down = true })
    else if c == 0xb8
    then (none, record k { alt_down = false })
    else if c == 0x3a
    then (none, record k { capslock_on = not k.capslock_on })
    else if not (bit_and c 0x80 == 0)
    then (none, k)
    else (some (translate_scancode k c), k)

-- The body that both functions share: `none` where one goes on and the other returns 0.
unfoldable pub handle : ℕ → Keyboard → Option ℕ × Keyboard
unfolding plain_key
handle c k =
    if c == 0xe0
    then (none, record k { extended = true })
    else if k.extended
    then (arrow c, record k { extended = false })
    else plain_key c k

-- The loop of `keyboard_getchar`; `none` is that it waits for more scancodes.
unfoldable pub getchar : List ℕ → Keyboard → Option (ℕ × List ℕ) × Keyboard
getchar [] k = (none, k)
getchar (c ∷ codes) k =
    let (ch, k') = handle c k in
    let rest = getchar codes k' in elim ch [ none ↦ rest | some ch ↦ (some (ch, codes), k') ]

-- With no byte at the controller the result is 0 as well.
unfoldable pub pollchar : Option ℕ → Keyboard → ℕ × Keyboard
pollchar none k = (0, k)
pollchar (some c) k = let (ch, k') = handle c k in (elim ch [ none ↦ 0 | some ch ↦ ch ], k')
