-- ===== src/Tools/Lines.antt =====
-- What `head` and `tail` of bin/head/head.c and bin/tail/tail.c print, in lines.
use myunixlikeos.Common.{
  ℕ, List, [], if◌then◌else◌, suc, take, drop, ◌-◌, ◌==◌, ◌∷◌, ◌++◌, ◌≡◌, refl, ap, Bool-cases, inl,
  inr, ◌∙◌, arith, false, leb, sym, true, zero, ◌+◌, append_assoc, length, ◌≤◌, ◌<◌,
}
use myunixlikeos.Libc.StrLaws.{c_str}
use myunixlikeos.Tools.{head_loop, tail_loop, newline, count_lines, start_line, tail_text}

abbrev cons_first : ℕ → List (List ℕ) → List (List ℕ)
cons_first c [] = (c ∷ []) ∷ []
cons_first c (l ∷ ls) = (c ∷ l) ∷ ls

-- The lines of a text, each with its newline; what stands behind the last newline, which may be
-- nothing, is the last line.
unfoldable pub lines : List ℕ → List (List ℕ)
lines [] = [] ∷ []
lines (c ∷ cs) = let rest = lines cs in if c == newline then (c ∷ []) ∷ rest else cons_first c rest

unfoldable pub join : List (List ℕ) → List ℕ
join [] = []
join (l ∷ ls) = l ++ join ls

take_none : (n : ℕ) → take {A = List ℕ} n [] ≡ []
take_none zero = refl
take_none (suc n) = refl

drop_none : (n : ℕ) → drop {A = List ℕ} n [] ≡ []
drop_none zero = refl
drop_none (suc n) = refl

join-take_first :
    (c n : ℕ) (ls : List (List ℕ))
    → join (take (suc n) (cons_first c ls)) ≡ c ∷ join (take (suc n) ls)
unfolding join
join-take_first c n [] = rw (take_none n)
join-take_first c n (l ∷ ls) = refl

join-take_empty : (k : ℕ) → join (take k ([] ∷ [])) ≡ []
unfolding join
join-take_empty zero = refl
join-take_empty (suc k) = rw (take_none k)

join-drop_empty : (k : ℕ) → join (drop k ([] ∷ [])) ≡ []
unfolding join
join-drop_empty zero = refl
join-drop_empty (suc k) = rw (drop_none k)

join-first : (c : ℕ) (ls : List (List ℕ)) → join (cons_first c ls) ≡ c ∷ join ls
unfolding join
join-first c [] = refl
join-first c (l ∷ ls) = refl

drop-first : (c n : ℕ) (ls : List (List ℕ)) → drop (suc n) (cons_first c ls) ≡ drop (suc n) ls
drop-first c n [] = drop_none n
drop-first c n (l ∷ ls) = refl

join-lines : (s : List ℕ) → join (lines s) ≡ s
unfolding join lines
join-lines [] = refl
join-lines (c ∷ s) = elim (Bool-cases (c == newline)) [
  | inl t ↦ rw (t) (ap (λ z. c ∷ z) (join-lines s))
  | inr t ↦ rw (t) (join-first c (lines s) ∙ ap (λ z. c ∷ z) (join-lines s))
]

head_loop_step :
    (k p n c : ℕ) (s : List ℕ)
    → (c == 0) ≡ false
    → k ≡ n - p
    → ((k' p' : ℕ) → k' ≡ n - p' → head_loop p' n s ≡ join (take k' (lines (c_str s))))
    → head_loop p n (c ∷ s) ≡ join (take k (lines (c_str (c ∷ s))))
unfolding head_loop lines c_str join
head_loop_step zero p n c s z e ih = let done : leb n p ≡ true = ground arith in rw (z, done)
head_loop_step (suc k) p n c s z e ih =
    let more : leb n p ≡ false = ground arith in
    elim (Bool-cases (c == newline)) [
      | inl nl ↦ rw (z, more, nl) (ap (λ r. c ∷ r) (ih k (p + 1) (omega arith)))
      | inr nl ↦
          rw (z, more, nl)
            (ap (λ r. c ∷ r) (ih (suc k) p e) ∙ sym (join-take_first c k (lines (c_str s))))
    ]

head_loop-take :
    (k p n : ℕ) (s : List ℕ) → k ≡ n - p → head_loop p n s ≡ join (take k (lines (c_str s)))
unfolding head_loop lines c_str
head_loop-take k p n [] e = sym (join-take_empty k)
head_loop-take k p n (c ∷ s) e = elim (Bool-cases (c == 0)) [
  | inl z ↦ rw (z) (sym (join-take_empty k))
  | inr z ↦ head_loop_step k p n c s z e (λ k' p'. head_loop-take k' p' n s)
]

tail_loop_step :
    (k p n c : ℕ) (s : List ℕ)
    → (c == 0) ≡ false
    → k ≡ n - p
    → ((k' p' : ℕ) → k' ≡ n - p' → tail_loop p' n s ≡ join (drop k' (lines (c_str s))))
    → tail_loop p n (c ∷ s) ≡ join (drop k (lines (c_str (c ∷ s))))
unfolding tail_loop lines c_str join
tail_loop_step zero p n c s z e ih =
    let on : leb n p ≡ true = ground arith in
    elim (Bool-cases (c == newline)) [
      | inl nl ↦ rw (z, on, nl) (ap (λ r. c ∷ r) (ih 0 (p + 1) (omega arith)))
      | inr nl ↦ rw (z, on, nl) (ap (λ r. c ∷ r) (ih 0 p e) ∙ sym (join-first c (lines (c_str s))))
    ]
tail_loop_step (suc k) p n c s z e ih =
    let off : leb n p ≡ false = ground arith in
    elim (Bool-cases (c == newline)) [
      | inl nl ↦ rw (z, off, nl) (ih k (p + 1) (omega arith))
      | inr nl ↦ rw (z, off, nl) (ih (suc k) p e ∙ sym (ap join (drop-first c k (lines (c_str s)))))
    ]

tail_loop-drop :
    (k p n : ℕ) (s : List ℕ) → k ≡ n - p → tail_loop p n s ≡ join (drop k (lines (c_str s)))
unfolding tail_loop lines c_str
tail_loop-drop k p n [] e = sym (join-drop_empty k)
tail_loop-drop k p n (c ∷ s) e = elim (Bool-cases (c == 0)) [
  | inl z ↦ rw (z) (sym (join-drop_empty k))
  | inr z ↦ tail_loop_step k p n c s z e (λ k' p'. tail_loop-drop k' p' n s)
]

length-first : (c : ℕ) (ls : List (List ℕ)) → 1 ≤ length ls → length (cons_first c ls) ≡ length ls
length-first c [] h = absurd (omega arith)
length-first c (l ∷ ls) h = refl

lines_some : (s : List ℕ) → 1 ≤ length (lines s)
unfolding lines
lines_some [] = omega arith
lines_some (c ∷ s) = elim (Bool-cases (c == newline)) [
  | inl t ↦ rw (t) (omega arith)
  | inr t ↦ rw (t, length-first c (lines s) (lines_some s)) (lines_some s)
]

count_lines_lem : (t : ℕ) (s : List ℕ) → count_lines t s + 1 ≡ t + length (lines (c_str s))
unfolding count_lines lines c_str
count_lines_lem t [] = refl
count_lines_lem t (c ∷ s) = elim (Bool-cases (c == 0)) [
  | inl z ↦ rw (z) (refl)
  | inr z ↦ elim (Bool-cases (c == newline)) [
    | inl nl ↦ rw (z, nl) (omega (arith, count_lines_lem (t + 1) s))
    | inr nl ↦
        rw (z, nl, length-first c (lines (c_str s)) (lines_some (c_str s))) (count_lines_lem t s)
  ]
]

-- `head` prints the first `n` lines of the file.
pub head_loop_lem : (n : ℕ) (s : List ℕ) → head_loop 0 n s ≡ join (take n (lines (c_str s)))
head_loop_lem n s = head_loop-take n 0 n s (omega arith)

-- `tail` prints the text behind the last newline, which may be none, and the last `n` lines before
-- it, or all where there are not more.
pub tail_text_lem :
    (n : ℕ) (s : List ℕ)
    → tail_text n s ≡ join (drop (length (lines (c_str s)) - n - 1) (lines (c_str s)))
tail_text_lem n s =
    tail_loop-drop (length (lines (c_str s)) - n - 1) 1 (start_line (count_lines 1 s) n) s
      (ground (arith, count_lines_lem 1 s))

join-take-drop : (k : ℕ) (ls : List (List ℕ)) → join (take k ls) ++ join (drop k ls) ≡ join ls
unfolding join
join-take-drop zero ls = refl
join-take-drop (suc k) [] = refl
join-take-drop (suc k) (l ∷ ls) =
    append_assoc l (join (take k ls)) (join (drop k ls)) ∙ ap (λ r. l ++ r) (join-take-drop k ls)

-- The first `n` lines, which `head` prints, and what `tail` prints for the number of the others with
-- a newline are the whole file.
pub head_loop-tail_text :
    (n : ℕ) (s : List ℕ)
    → n < length (lines (c_str s))
    → head_loop 0 n s ++ tail_text (length (lines (c_str s)) - n - 1) s ≡ c_str s
head_loop-tail_text n s h =
    let same : length (lines (c_str s)) - (length (lines (c_str s)) - n - 1) - 1 ≡ n =
      omega arith in
    let t = rw same at (tail_text_lem (length (lines (c_str s)) - n - 1) s) in
    rw (head_loop_lem n s, t) (join-take-drop n (lines (c_str s)) ∙ join-lines (c_str s))
