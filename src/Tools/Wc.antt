-- ===== src/Tools/Wc.antt =====
-- What `wc` of bin/wc/wc.c counts.
use myunixlikeos.Common.{
  ℕ, List, [], if◌then◌else◌, ◌+◌, ◌==◌, ◌∷◌, ◌≡◌, arith, refl, Bool-cases, inl, inr, false,
}
use myunixlikeos.Libc.Str.{strlen}
use myunixlikeos.Tools.{Counts, count, count_char, count_lines, wc_loop, newline, is_blank}

count_char-chars : (c : ℕ) (k : Counts) → (count_char c k).chars ≡ k.chars + 1
unfolding count_char
count_char-chars c k = elim (Bool-cases (c == newline)) [
  | inl nl ↦ rw (nl)
  | inr nl ↦ elim (Bool-cases (is_blank c)) [
    | inl b ↦ rw (nl, b)
    | inr b ↦ elim (Bool-cases k.in_word) [ inl w ↦ rw (nl, b, w) | inr w ↦ rw (nl, b, w) ]
  ]
]

wc_loop-chars : (s : List ℕ) (k : Counts) → (wc_loop s k).chars ≡ k.chars + strlen s
unfolding wc_loop strlen
wc_loop-chars [] k = omega arith
wc_loop-chars (c ∷ s) k = elim (Bool-cases (c == 0)) [
  | inl z ↦ rw (z) (omega arith)
  | inr z ↦ rw (z) (omega (arith, wc_loop-chars s (count_char c k), count_char-chars c k))
]

count_char-lines :
    (c : ℕ) (k : Counts) → (count_char c k).lines ≡ (if c == newline then k.lines + 1 else k.lines)
unfolding count_char
count_char-lines c k = elim (Bool-cases (c == newline)) [
  | inl nl ↦ rw (nl)
  | inr nl ↦ elim (Bool-cases (is_blank c)) [
    | inl b ↦ rw (nl, b)
    | inr b ↦ elim (Bool-cases k.in_word) [ inl w ↦ rw (nl, b, w) | inr w ↦ rw (nl, b, w) ]
  ]
]

wc_loop-lines : (s : List ℕ) (k : Counts) → (wc_loop s k).lines ≡ count_lines k.lines s
unfolding wc_loop count_lines
wc_loop-lines [] k = refl
wc_loop-lines (c ∷ s) k = elim (Bool-cases (c == 0)) [
  | inl z ↦ rw (z)
  | inr z ↦ rw (z, ← count_char-lines c k) (wc_loop-lines s (count_char c k))
]

abbrev start : Counts
start = record { lines = 0; words = 0; chars = 0; in_word = false }

-- `wc` counts the characters before the terminator, and the newlines, with one more line when the
-- text ends in a word.
pub count_lem :
    (s : List ℕ)
    → ((count s).chars ≡ strlen s)
      × ((count s).lines ≡ count_lines 0 s + (if (count s).in_word then 1 else 0))
unfolding count
count_lem s = elim (Bool-cases (wc_loop s start).in_word) [
  | inl w ↦ rw (w) (omega (arith, wc_loop-chars s start), ground (arith, wc_loop-lines s start))
  | inr w ↦ rw (w) (omega (arith, wc_loop-chars s start), ground (arith, wc_loop-lines s start))
]
