-- ===== src/Shell/Split.antt =====
-- The words of a command line in bin/sh/sh.c.
use myunixlikeos.Common.{
  ℕ, List, [], suc, zero, ◌-◌, ◌==◌, ◌∷◌, ◌++◌, length, ◌≤◌, arith, Bool-cases, inl, inr, All, ap,
  append-nil, append_assoc, false, refl, ◌∙◌, ◌≡◌, ◌≢◌,
}
use myunixlikeos.Shell.{
  WordPlace, between, in_word, in_quotes, is_separator, is_quote, split, split_args, start_word,
}

-- How many words there can still be.
abbrev room : ℕ → WordPlace → ℕ
room n between = n
room n (in_word w) = suc (n - 1)
room n (in_quotes q w) = suc (n - 1)

start_word-room : (n c : ℕ) → room (suc n) (start_word c) ≤ suc n
start_word-room n c = elim (Bool-cases (is_quote c)) [
  | inl quote ↦ rw quote (omega arith)
  | inr plain ↦ rw plain (omega arith)
]

length-split : (n : ℕ) (p : WordPlace) (s : List ℕ) → length (split n p s) ≤ room n p
unfolding split
length-split n between [] = omega arith
length-split n (in_word w) [] = omega arith
length-split n (in_quotes q w) [] = omega arith
length-split zero between (c ∷ s) = omega arith
length-split (suc n) between (c ∷ s) = elim (Bool-cases (c == 0)) [
  | inl ends ↦ rw ends (omega arith)
  | inr goes ↦ elim (Bool-cases (is_separator c)) [
    | inl blank ↦ rw (goes, blank) (length-split (suc n) between s)
    | inr starts ↦
        rw (goes, starts)
          (omega (arith, length-split (suc n) (start_word c) s, start_word-room n c))
  ]
]
length-split n (in_word w) (c ∷ s) = elim (Bool-cases (c == 0)) [
  | inl ends ↦ rw ends (omega arith)
  | inr goes ↦ elim (Bool-cases (is_separator c)) [
    | inl blank ↦ rw (goes, blank) (omega (arith, length-split (n - 1) between s))
    | inr more ↦ rw (goes, more) (length-split n (in_word (w ++ c ∷ [])) s)
  ]
]
length-split n (in_quotes q w) (c ∷ s) = elim (Bool-cases (c == 0)) [
  | inl ends ↦ rw ends (omega arith)
  | inr goes ↦ elim (Bool-cases (c == q)) [
    | inl closes ↦ rw (goes, closes) (omega (arith, length-split (n - 1) between s))
    | inr more ↦ rw (goes, more) (length-split n (in_quotes q (w ++ c ∷ [])) s)
  ]
]

-- `split_args` never gives more words than argv has places.
pub length-split_args : (input : List ℕ) → length (split_args input) ≤ 16
unfolding split_args
length-split_args input = length-split 16 between input

-- A character that can stand in a word, and a word that needs no quotes.
abbrev pub Inner : ℕ → Type 0
Inner c = (c ≢ 0) × (is_separator c ≡ false)

abbrev pub IsWord : List ℕ → Type 0
IsWord [] = ⊥
IsWord (c ∷ w) = (is_quote c ≡ false) × Inner c × All Inner w

-- The words with a blank between any two, and a terminator.
unfoldable pub join : List (List ℕ) → List ℕ
join [] = 0 ∷ []
join (w ∷ []) = w ++ 0 ∷ []
join (w ∷ v ∷ ws) = w ++ b' ' ∷ join (v ∷ ws)

split-append :
    (n : ℕ) (w cs s : List ℕ)
    → All Inner cs
    → split n (in_word w) (cs ++ s) ≡ split n (in_word (w ++ cs)) s
unfolding split
split-append n w [] s h = rw (append-nil w) refl
split-append n w (c ∷ cs) s ((ne, plain), h) =
    let goes : (c == 0) ≡ false = ground arith in
    rw (goes, plain)
      (split-append n (w ++ c ∷ []) cs s h
        ∙ ap (λ x. split n (in_word x) s) (append_assoc w (c ∷ []) cs))

-- The first character of a word.
split-word :
    (n c : ℕ) (w s : List ℕ)
    → IsWord (c ∷ w)
    → split (suc n) between ((c ∷ w) ++ s) ≡ split (suc n) (in_word (c ∷ w)) s
unfolding split
split-word n c w s (unquoted, (ne, plain), h) =
    let goes : (c == 0) ≡ false = ground arith in
    rw (goes, plain, unquoted) (split-append (suc n) (c ∷ []) w s h)

split-join :
    (ws : List (List ℕ)) (n : ℕ) → All IsWord ws → length ws ≤ n → split n between (join ws) ≡ ws
unfolding split join
split-join [] zero h le = refl
split-join [] (suc n) h le = refl
split-join (w ∷ ws) zero h le = absurd (omega arith)
split-join ([] ∷ ws) (suc n) h le = absurd h.0
split-join ((c ∷ w) ∷ []) (suc n) h le = split-word n c w (0 ∷ []) h.0
split-join ((c ∷ w) ∷ v ∷ ws) (suc n) h le =
    let left : suc n - 1 ≡ n = omega arith in
    split-word n c w (b' ' ∷ join (v ∷ ws)) h.0
    ∙ ap (λ k. (c ∷ w) ∷ split k between (join (v ∷ ws))) left
    ∙ ap (λ x. (c ∷ w) ∷ x) (split-join (v ∷ ws) n h.1 (omega arith))

-- At most 16 words without blanks, without terminators and not starting with a quote, joined by
-- blanks, are the words that `split_args` finds.
pub split_args-join :
    (ws : List (List ℕ)) → All IsWord ws → length ws ≤ 16 → split_args (join ws) ≡ ws
unfolding split_args
split_args-join ws h le = split-join ws 16 h le
