-- ===== src/Vi/Text.antt =====
-- Parts of a buffer as lists, and the lines of a text.
use myunixlikeos.Common.{
  ℕ, Bool, List, [], ◌∷◌, ◌++◌, true, false, ◌+◌, ◌≡◌, ◌==◌, if◌then◌else◌, length, arith, refl,
  zero, suc, get_or, ◌<◌,
}

abbrev pub rest_chars : List ℕ → List ℕ
rest_chars [] = []
rest_chars (c ∷ cs) = cs

abbrev pub drop_last : List ℕ → List ℕ
drop_last [] = []
drop_last (c ∷ []) = []
drop_last (c ∷ d ∷ cs) = c ∷ drop_last (d ∷ cs)

pub drop_last-snoc : (cs : List ℕ) (c : ℕ) → drop_last (cs ++ (c ∷ [])) ≡ cs
drop_last-snoc [] c = refl
drop_last-snoc (d ∷ []) c = refl
drop_last-snoc (d ∷ e ∷ cs) c = cc (drop_last-snoc (e ∷ cs) c)

abbrev pub last_char : List ℕ → ℕ
last_char [] = 0
last_char (c ∷ []) = c
last_char (c ∷ d ∷ cs) = last_char (d ∷ cs)

pub last_char-snoc : (cs : List ℕ) (c : ℕ) → last_char (cs ++ (c ∷ [])) ≡ c
last_char-snoc [] c = refl
last_char-snoc (d ∷ []) c = refl
last_char-snoc (d ∷ e ∷ cs) c = last_char-snoc (e ∷ cs) c

-- `n` bytes of a buffer from `s` on.
unfoldable pub slice : List ℕ → (s n : ℕ) → List ℕ
slice buf s zero = []
slice buf s (suc n) = get_or buf s 0 ∷ slice buf (s + 1) n

pub length-slice : (buf : List ℕ) (s n : ℕ) → length (slice buf s n) ≡ n
unfolding slice
length-slice buf s zero = refl
length-slice buf s (suc n) = ground (arith, length-slice buf (s + 1) n)

pub slice_eq :
    (a b : List ℕ) (s t n : ℕ)
    → ((k : ℕ) → k < n → get_or a (s + k) 0 ≡ get_or b (t + k) 0)
    → slice a s n ≡ slice b t n
unfolding slice
slice_eq a b s t zero h = refl
slice_eq a b s t (suc n) h =
    let here : get_or a s 0 ≡ get_or b t 0 = ground (arith, h 0) in
    let rest = slice_eq a b (s + 1) (t + 1) n (λ k lt. ground (arith, h (k + 1))) in cc

pub slice-snoc :
    (buf : List ℕ) (s n : ℕ) → slice buf s (n + 1) ≡ slice buf s n ++ (get_or buf (s + n) 0 ∷ [])
unfolding slice
slice-snoc buf s zero = ground arith
slice-snoc buf s (suc n) = ground (arith, slice-snoc buf (s + 1) n)

pub slice-append :
    (buf : List ℕ) (s m n : ℕ) → slice buf s (m + n) ≡ slice buf s m ++ slice buf (s + m) n
unfolding slice
slice-append buf s zero n = ground arith
slice-append buf s (suc m) n =
    let one_more : suc m + n ≡ suc (m + n) = omega arith in
    rw one_more (ground (arith, slice-append buf (s + 1) m n))

pub slice-snoc_start :
    (buf : List ℕ) (n : ℕ) → slice buf 0 (n + 1) ≡ slice buf 0 n ++ (get_or buf n 0 ∷ [])
slice-snoc_start buf n = let same : 0 + n ≡ n = omega arith in rw same at (slice-snoc buf 0 n)

-- A slice that ends in a character of its own.
pub slice-put :
    (a b : List ℕ) (s n c : ℕ)
    → ((k : ℕ) → k < n → get_or a (s + k) 0 ≡ get_or b (s + k) 0)
    → get_or a (s + n) 0 ≡ c
    → slice a s (n + 1) ≡ slice b s n ++ (c ∷ [])
slice-put a b s n c h e = rw (slice-snoc a s n, slice_eq a b s s n h, e) refl

-- A slice that starts one character later.
pub slice-rest_chars :
    (a b : List ℕ) (s m n : ℕ)
    → m ≡ n + 1
    → ((k : ℕ) → k < n → get_or a (s + k) 0 ≡ get_or b (s + k + 1) 0)
    → slice a s n ≡ rest_chars (slice b s m)
unfolding slice
slice-rest_chars a b s zero n e h = absurd (omega arith)
slice-rest_chars a b s (suc m) n e h =
    let same : n ≡ m = omega arith in
    rw same (slice_eq a b s (s + 1) m (λ k lt. ground (arith, h k)))

pub drop_last-slice :
    (buf : List ℕ) (s n m : ℕ) → n ≡ m + 1 → drop_last (slice buf s n) ≡ slice buf s m
drop_last-slice buf s n m h =
    rw (h, slice-snoc buf s m) (drop_last-snoc (slice buf s m) (get_or buf (s + m) 0))

pub last_char-slice :
    (buf : List ℕ) (s n m : ℕ) → n ≡ m + 1 → last_char (slice buf s n) ≡ get_or buf (s + m) 0
last_char-slice buf s n m h =
    rw (h, slice-snoc buf s m) (last_char-snoc (slice buf s m) (get_or buf (s + m) 0))

abbrev pub has_newline : List ℕ → Bool
has_newline [] = false
has_newline (c ∷ cs) = if c == b'\n' then true else has_newline cs

-- The whole lines at the start of a text.
unfoldable pub whole_lines : List ℕ → List ℕ
whole_lines [] = []
whole_lines (c ∷ cs) = if has_newline (c ∷ cs) then c ∷ whole_lines cs else []

pub has_newline-snoc :
    (cs : List ℕ) (c : ℕ)
    → has_newline (cs ++ (c ∷ [])) ≡ (if has_newline cs then true else c == b'\n')
has_newline-snoc [] c = ground arith
has_newline-snoc (d ∷ cs) c = ground (arith, has_newline-snoc cs c)

pub whole_lines-snoc :
    (cs : List ℕ) (c : ℕ)
    → whole_lines (cs ++ (c ∷ [])) ≡ (if c == b'\n' then cs ++ (c ∷ []) else whole_lines cs)
unfolding whole_lines
whole_lines-snoc [] c = ground arith
whole_lines-snoc (d ∷ cs) c = ground (arith, whole_lines-snoc cs c, has_newline-snoc cs c)

-- The characters up to the first newline, those from it on, and those behind it.
unfoldable pub first_line : List ℕ → List ℕ
first_line [] = []
first_line (c ∷ cs) = if c == b'\n' then [] else c ∷ first_line cs

unfoldable pub from_newline : List ℕ → List ℕ
from_newline [] = []
from_newline (c ∷ cs) = if c == b'\n' then c ∷ cs else from_newline cs

unfoldable pub other_lines : List ℕ → List ℕ
other_lines cs = rest_chars (from_newline cs)
