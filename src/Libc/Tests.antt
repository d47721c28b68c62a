-- ===== src/Libc/Tests.antt =====
-- The string functions of lib/libc/string at concrete inputs.
use myunixlikeos.Common.{ℕ, List, [], arith, refl, some, ◌↔◌, ◌∷◌, ◌≡◌}
use myunixlikeos.Common.Int.{pos}
use myunixlikeos.Libc.Move.{memmove, memmove_lem, moved_byte}
use myunixlikeos.Common.{get_or}
use myunixlikeos.Libc.Str.{strcmp, strcpy}
use myunixlikeos.Libc.StrLaws.{c_str, strcmp_iff}

abbrev ab : List ℕ
ab = b'a' ∷ b'b' ∷ 0 ∷ b'x' ∷ []

abbrev ac : List ℕ
ac = b'a' ∷ b'c' ∷ 0 ∷ []

strcmp_iff_example : (strcmp ab ac ≡ pos 0) ↔ (c_str ab ≡ c_str ac)
strcmp_iff_example = strcmp_iff ab ac (omega arith) (omega arith)

strcpy_runs : strcpy (1 ∷ 2 ∷ 3 ∷ 0 ∷ []) ab ≡ some (b'a' ∷ b'b' ∷ 3 ∷ 0 ∷ [])
unfolding strcpy
strcpy_runs = refl

memmove_lem_example :
    (m' : List ℕ) × (memmove 1 0 3 ab ≡ some m') × ((k : ℕ) → get_or m' k 0 ≡ moved_byte 3 1 0 ab k)
memmove_lem_example = memmove_lem 1 0 3 ab (omega arith) (omega arith)
