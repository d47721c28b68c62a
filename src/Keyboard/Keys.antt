-- ===== src/Keyboard/Keys.antt =====
-- Letters, control characters and extended keys of kernel/drivers/input/pskey.c.
use myunixlikeos.Common.{
  ℕ, Bool, refl, true, false, not, ◌<◌, ◌≡◌, ◌==◌, ◌||◌, ◌-◌, get_or, if◌then◌else◌, Bool-cases, [],
  inl, inr, ==_iff,
}
use myunixlikeos.Common.Bytes.{every_less, every_less_sound}
use myunixlikeos.Keyboard.{
  Keyboard, Layout, set_layout, is_lower, translate_scancode, handle, azerty, qwerty,
}

-- A keyboard of a layout with these keys down, and neither alt nor a prefix.
abbrev pub keyboard : Layout → (shift ctrl caps : Bool) → Keyboard
keyboard l s c caps = set_layout l (record {
  table = [];
  table_shift = [];
  shift_down = s;
  ctrl_down = c;
  alt_down = false;
  capslock_on = caps;
  extended = false;
})

abbrev pub either : Bool → Bool → Bool
either true b = not b
either false b = b

-- What a key of a lower case letter should give.
abbrev pub letter : (shift ctrl caps : Bool) → ℕ → ℕ
letter s true caps n = n - 96
letter s false caps n = if either s caps then n - 32 else n

abbrev law : Layout → Bool → Bool → Bool → ℕ → Bool
law l s c caps code =
    let n = get_or (keyboard l s c caps).table code 0 in
    not (is_lower n) || translate_scancode (keyboard l s c caps) code == letter s c caps n

law_table : (l : Layout) (s c caps : Bool) → every_less 128 (law l s c caps) ≡ true
unfolding every_less translate_scancode
law_table qwerty true true true = refl
law_table qwerty true true false = refl
law_table qwerty true false true = refl
law_table qwerty true false false = refl
law_table qwerty false true true = refl
law_table qwerty false true false = refl
law_table qwerty false false true = refl
law_table qwerty false false false = refl
law_table azerty true true true = refl
law_table azerty true true false = refl
law_table azerty true false true = refl
law_table azerty true false false = refl
law_table azerty false true true = refl
law_table azerty false true false = refl
law_table azerty false false true = refl
law_table azerty false false false = refl

-- On both layouts a letter key gives the capital letter exactly when one of shift and caps lock is
-- on and not both, and with control the place of the letter in the alphabet.
pub translate_scancode-letter :
    (l : Layout) (s c caps : Bool) (code : ℕ)
    → code < 128
    → is_lower (get_or (keyboard l s c caps).table code 0) ≡ true
    → translate_scancode (keyboard l s c caps) code
      ≡ letter s c caps (get_or (keyboard l s c caps).table code 0)
translate_scancode-letter l s c caps code h low =
    let t = every_less_sound 128 (law l s c caps) code (law_table l s c caps) h in
    (==_iff _ _).0 (rw low at t)

-- The byte behind the prefix 0xe0 never changes a modifier, whatever it is, and ends the prefix
-- unless it is one again.
pub handle-handle :
    (c : ℕ) (k : Keyboard)
    → let k' = (handle c (handle 0xe0 k).1).1 in
      (k'.shift_down ≡ k.shift_down)
      × (k'.ctrl_down ≡ k.ctrl_down)
      × (k'.alt_down ≡ k.alt_down)
      × (k'.capslock_on ≡ k.capslock_on)
      × (k'.extended ≡ (c == 0xe0))
unfolding handle
handle-handle c k = elim (Bool-cases (c == 0xe0)) [
  | inl t ↦ rw (t) (refl, refl, refl, refl, refl)
  | inr t ↦ rw (t) (refl, refl, refl, refl, refl)
]
