-- ===== src/Keyboard/Tables.antt =====
-- The scancode tables of kernel/drivers/input/pskey.c, 128 bytes each.
use myunixlikeos.Common.{ℕ, List, replicate, ◌∷◌, ◌++◌}

-- The codes from 0x3b on, of which only 0x53 has a character.
abbrev beyond : List ℕ
beyond = replicate 24 0 ++ 0x7f ∷ replicate 44 0

abbrev pub qwerty_table : List ℕ
qwerty_table =
    0 ∷ 27 ∷ 49 ∷ 50 ∷ 51 ∷ 52 ∷ 53 ∷ 54 ∷ 55 ∷ 56 ∷ 57 ∷ 48 ∷ 45 ∷ 61 ∷ 8 ∷ 9 ∷ 113 ∷ 119 ∷ 101
    ∷ 114 ∷ 116 ∷ 121 ∷ 117 ∷ 105 ∷ 111 ∷ 112 ∷ 91 ∷ 93 ∷ 10 ∷ 0 ∷ 97 ∷ 115 ∷ 100 ∷ 102 ∷ 103 ∷ 104
    ∷ 106 ∷ 107 ∷ 108 ∷ 59 ∷ 39 ∷ 96 ∷ 0 ∷ 92 ∷ 122 ∷ 120 ∷ 99 ∷ 118 ∷ 98 ∷ 110 ∷ 109 ∷ 44 ∷ 46 ∷ 47
    ∷ 0 ∷ 42 ∷ 0 ∷ 32 ∷ 0 ∷ beyond

abbrev pub qwerty_table_shift : List ℕ
qwerty_table_shift =
    0 ∷ 27 ∷ 33 ∷ 64 ∷ 35 ∷ 36 ∷ 37 ∷ 94 ∷ 38 ∷ 42 ∷ 40 ∷ 41 ∷ 95 ∷ 43 ∷ 8 ∷ 9 ∷ 81 ∷ 87 ∷ 69 ∷ 82
    ∷ 84 ∷ 89 ∷ 85 ∷ 73 ∷ 79 ∷ 80 ∷ 123 ∷ 125 ∷ 10 ∷ 0 ∷ 65 ∷ 83 ∷ 68 ∷ 70 ∷ 71 ∷ 72 ∷ 74 ∷ 75 ∷ 76
    ∷ 58 ∷ 34 ∷ 126 ∷ 0 ∷ 124 ∷ 90 ∷ 88 ∷ 67 ∷ 86 ∷ 66 ∷ 78 ∷ 77 ∷ 60 ∷ 62 ∷ 63 ∷ 0 ∷ 42 ∷ 0 ∷ 32
    ∷ 0 ∷ beyond

abbrev pub azerty_table : List ℕ
azerty_table =
    0 ∷ 27 ∷ 49 ∷ 50 ∷ 51 ∷ 52 ∷ 53 ∷ 54 ∷ 55 ∷ 56 ∷ 57 ∷ 48 ∷ 41 ∷ 61 ∷ 8 ∷ 9 ∷ 97 ∷ 122 ∷ 101
    ∷ 114 ∷ 116 ∷ 121 ∷ 117 ∷ 105 ∷ 111 ∷ 112 ∷ 94 ∷ 36 ∷ 10 ∷ 0 ∷ 113 ∷ 115 ∷ 100 ∷ 102 ∷ 103 ∷ 104
    ∷ 106 ∷ 107 ∷ 108 ∷ 109 ∷ 37 ∷ 96 ∷ 0 ∷ 42 ∷ 119 ∷ 120 ∷ 99 ∷ 118 ∷ 98 ∷ 110 ∷ 44 ∷ 59 ∷ 58 ∷ 33
    ∷ 0 ∷ 42 ∷ 0 ∷ 32 ∷ 0 ∷ beyond

abbrev pub azerty_table_shift : List ℕ
azerty_table_shift =
    0 ∷ 27 ∷ 38 ∷ 233 ∷ 34 ∷ 39 ∷ 40 ∷ 45 ∷ 232 ∷ 95 ∷ 231 ∷ 224 ∷ 41 ∷ 61 ∷ 8 ∷ 9 ∷ 65 ∷ 90 ∷ 69
    ∷ 82 ∷ 84 ∷ 89 ∷ 85 ∷ 73 ∷ 79 ∷ 80 ∷ 168 ∷ 163 ∷ 10 ∷ 0 ∷ 81 ∷ 83 ∷ 68 ∷ 70 ∷ 71 ∷ 72 ∷ 74 ∷ 75
    ∷ 76 ∷ 77 ∷ 181 ∷ 126 ∷ 0 ∷ 42 ∷ 87 ∷ 88 ∷ 67 ∷ 86 ∷ 66 ∷ 78 ∷ 63 ∷ 46 ∷ 47 ∷ 43 ∷ 0 ∷ 42 ∷ 0
    ∷ 32 ∷ 0 ∷ beyond
