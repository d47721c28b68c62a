-- ===== src/Tools/Tests.antt =====
-- `head`, `tail` and `wc` at concrete inputs.
use myunixlikeos.Common.{ℕ, List, [], ◌∷◌, ◌≡◌, refl, true}
use myunixlikeos.Tools.{tail_text, tail_loop, count_lines, count, count_char, wc_loop, parse_number}

-- "a", "b" and an open last line "c"
abbrev text : List ℕ
text = b'a' ∷ 10 ∷ b'b' ∷ 10 ∷ b'c' ∷ 0 ∷ 7 ∷ []

-- Two lines, where one was asked for.
tail_runs : tail_text 1 text ≡ b'b' ∷ 10 ∷ b'c' ∷ []
unfolding tail_loop count_lines
tail_runs = refl

wc_runs : count text ≡ record { lines = 3; words = 3; chars = 5; in_word = true }
unfolding count wc_loop count_char
wc_runs = refl

number_runs : parse_number 0 (b'4' ∷ b'x' ∷ b'2' ∷ []) ≡ 42
unfolding parse_number
number_runs = refl
