-- ===== src/Keyboard/Line.antt =====
-- `read_line` of kernel/drivers/input/pskey.c, which edits a line in a buffer. Its characters are
-- those that the keyboard gives: the input buffer is reset first and nothing fills it.
use myunixlikeos.Common.{
  ℕ, Bool, List, Option, [], if◌then◌else◌, ltb, length, none, set, some, suc, zero, take, ◌+◌, ◌-◌,
  ◌<◌, ◌≤◌, ◌==◌, ◌&&◌, ◌||◌, ◌∷◌, ◌++◌, ◌≡◌, arith, refl, ap, Bool-cases, inl, inr, length-append,
  length-set, length-take_le, subst, sym, ◌∙◌,
}

abbrev pub is_newline : ℕ → Bool
is_newline c = c == 13 || c == 10

abbrev pub is_erase : ℕ → Bool
is_erase c = c == 8 || c == 0x7f

-- The loop, with `idx` characters in the buffer; `none` is that it waits for more characters.
unfoldable pub read_line_loop : List ℕ → (size idx : ℕ) → List ℕ → Option (List ℕ)
read_line_loop [] size idx buf = none
read_line_loop (c ∷ cs) size idx buf =
    let same = read_line_loop cs size idx buf in
    let back = read_line_loop cs size (idx - 1) buf in
    let more = read_line_loop cs size (idx + 1) (set buf idx c) in
    if c == 0
    then same
    else if is_newline c
    then some (set buf idx 0)
    else if is_erase c && ltb 0 idx
    then back
    else if ltb (idx + 1) size
    then more
    else same

unfoldable pub read_line : List ℕ → ℕ → List ℕ → Option (List ℕ)
read_line cs size buf = read_line_loop cs size 0 buf

-- The same on the line itself: erasing takes its last character off, and at an empty line it is a
-- character like any other.
unfoldable pub edit : List ℕ → ℕ → List ℕ → Option (List ℕ)
edit [] size line = none
edit (c ∷ cs) size line =
    let same = edit cs size line in
    let back = edit cs size (take (length line - 1) line) in
    let more = edit cs size (line ++ c ∷ []) in
    if c == 0
    then same
    else if is_newline c
    then some line
    else if is_erase c && ltb 0 (length line)
    then back
    else if ltb (length line + 1) size
    then more
    else same

take-set_end :
    (n : ℕ) (xs : List ℕ) (c : ℕ) → n < length xs → take (n + 1) (set xs n c) ≡ take n xs ++ c ∷ []
take-set_end n [] c h = absurd (omega arith)
take-set_end zero (x ∷ xs) c h = refl
take-set_end (suc n) (x ∷ xs) c h =
    let e : suc n + 1 ≡ suc (n + 1) = omega arith in
    rw (e) (ap (λ t. x ∷ t) (take-set_end n xs c (omega arith)))

take-take_less : (m n : ℕ) (xs : List ℕ) → m ≤ n → take m (take n xs) ≡ take m xs
take-take_less zero n xs h = refl
take-take_less (suc m) zero xs h = absurd (omega arith)
take-take_less (suc m) (suc n) [] h = refl
take-take_less (suc m) (suc n) (x ∷ xs) h = ap (λ t. x ∷ t) (take-take_less m n xs (omega arith))

-- The result of `read_line` for the line that editing gives.
abbrev pub Holds : Option (List ℕ) → Option (List ℕ) → ℕ → Type 0
Holds none none size = Unit
Holds none (some buf) size = ⊥
Holds (some line) none size = ⊥
Holds (some line) (some buf) size =
    (take (length line + 1) buf ≡ line ++ 0 ∷ []) × (length line + 1 ≤ size)

at_length :
    (cs : List ℕ) (size n : ℕ) (line buf : List ℕ) (r : Option (List ℕ))
    → length line ≡ n
    → Holds r (read_line_loop cs size (length line) buf) size
    → Holds r (read_line_loop cs size n buf) size
at_length cs size n line buf r e h = subst (λ m. Holds r (read_line_loop cs size m buf) size) e h

read_line_loop-edit :
    (cs : List ℕ) (size : ℕ) (line buf : List ℕ)
    → take (length line) buf ≡ line
    → length line + 1 ≤ size
    → size ≤ length buf
    → Holds (edit cs size line) (read_line_loop cs size (length line) buf) size
unfolding edit read_line_loop
read_line_loop-edit [] size line buf same fits room = tt
read_line_loop-edit (c ∷ cs) size line buf same fits room = elim (Bool-cases (c == 0)) [
  | inl t ↦ rw (t) (read_line_loop-edit cs size line buf same fits room)
  | inr t ↦ elim (Bool-cases (is_newline c)) [
    | inl nl ↦
        rw (t, nl)
          ((take-set_end (length line) buf 0 (omega arith) ∙ ap (λ t. t ++ 0 ∷ []) same), fits)
    | inr nl ↦ elim (Bool-cases (is_erase c && ltb 0 (length line))) [
      | inl er ↦
          let shorter = length-take_le (length line - 1) line (omega arith) in
          let kept : take (length line - 1) buf ≡ take (length line - 1) line =
            sym (take-take_less (length line - 1) (length line) buf (omega arith))
            ∙ ap (take (length line - 1)) same in
          rw (t, nl, er)
            (at_length cs size (length line - 1) (take (length line - 1) line) buf _ shorter (
              read_line_loop-edit cs size (take (length line - 1) line) buf (rw (shorter) kept)
                (omega (arith, shorter)) room))
      | inr er ↦ elim (Bool-cases (ltb (length line + 1) size)) [
        | inl more ↦
            let longer : length (line ++ c ∷ []) ≡ length line + 1 = length-append line (c ∷ []) in
            rw (t, nl, er, more)
              (at_length cs size (length line + 1) (line ++ c ∷ []) (set buf (length line) c) _
                longer
                (read_line_loop-edit cs size (line ++ c ∷ []) (set buf (length line) c)
                  (rw (longer)
                    (take-set_end (length line) buf c (omega arith) ∙ ap (λ t. t ++ c ∷ []) same))
                  (ground (arith, longer)) (omega (arith, length-set buf (length line) c))))
        | inr full ↦ rw (t, nl, er, full) (read_line_loop-edit cs size line buf same fits room)
      ]
    ]
  ]
]

-- Into a buffer of `size` bytes `read_line` reads the line that editing the characters gives, with a
-- terminator behind it, all of it inside the buffer; it waits for more exactly when editing does.
pub read_line-edit :
    (cs : List ℕ) (size : ℕ) (buf : List ℕ)
    → 0 < size
    → size ≤ length buf
    → Holds (edit cs size []) (read_line cs size buf) size
unfolding read_line
read_line-edit cs size buf some_room room =
    read_line_loop-edit cs size [] buf refl (omega arith) room
