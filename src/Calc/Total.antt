-- ===== src/Calc/Total.antt =====
-- The calculator ends on every expression: its fuel is enough.
use myunixlikeos.Common.{
  ℕ, suc, ◌+◌, ◌*◌, ◌≤◌, ◌<◌, ◌≡◌, ◌>>=◌, ◌==◌, ◌-◌, Bool, true, false, List, [], ◌∷◌, Option, some,
  length, arith, refl, Bool-cases, inl, inr, if◌then◌else◌, zero,
}
use myunixlikeos.Common.Int.{ℤ, pos, ◌+ℤ◌, ◌*ℤ◌}
use myunixlikeos.Calc.{
  Value, head, tail, skip_whitespace, read_digits, number, close, is_digit, parse_factor,
  parse_term, parse_expr, term_loop, expr_loop, wrap, add_op, evaluate, whole_result, is_add,
  is_mul, mul_op,
}

pub skip_whitespace-le : (s : List ℕ) → length (skip_whitespace s) ≤ length s
unfolding skip_whitespace
skip_whitespace-le [] = omega arith
skip_whitespace-le (c ∷ s) = ground (arith, skip_whitespace-le s)

tail-le : (s : List ℕ) → length (tail s) ≤ length s - 1
tail-le [] = omega arith
tail-le (c ∷ s) = omega arith

read_digits-le : (num : ℤ) (s : List ℕ) → length (read_digits num s).1 ≤ length s
unfolding read_digits
read_digits-le num [] = omega arith
read_digits-le num (c ∷ s) = elim (Bool-cases (is_digit c)) [
  | inl e ↦ rw e (omega (arith, read_digits-le (wrap (wrap (num *ℤ pos 10) +ℤ pos (c - b'0'))) s))
  | inr e ↦ rw e (omega arith)
]

number-le : (s : List ℕ) → length (number s).1 ≤ length s
number-le s = omega (arith, skip_whitespace-le (read_digits (pos 0) s).1, read_digits-le (pos 0) s)

-- A result with no more characters left than `n`.
abbrev Ends : ℕ → Option (Value × List ℕ) → Type 0
Ends n o = (r : Value × List ℕ) × (o ≡ some r) × (length r.1 ≤ n)

bind-Ends :
    (n k : ℕ) (o : Option (Value × List ℕ)) (f : Value × List ℕ → Option (Value × List ℕ))
    → Ends k o
    → ((r : Value × List ℕ) → length r.1 ≤ k → Ends n (f r))
    → Ends n (o >>= f)
bind-Ends n k o f (r, e, le) next = let (q, e', le') = next r le in (q, rw e e', le')

branch-Ends :
    (n : ℕ) (t : Bool) {a b : Option (Value × List ℕ)}
    → (t ≡ true → Ends n a)
    → (t ≡ false → Ends n b)
    → Ends n (if t then a else b)
branch-Ends n true h k = h refl
branch-Ends n false h k = k refl

close-le : (r : Value × List ℕ) → length (close r).1 ≤ length r.1
close-le (v, s) = ground (arith, skip_whitespace-le s, tail-le (skip_whitespace s))

-- With `f` rounds all five functions end.
record AllEnd (f : ℕ) : Type 0 where
  factor : (s : List ℕ) → 4 * length s + 1 ≤ f → Ends (length s) (parse_factor f s)
  term_rest :
      (result : Value) (s : List ℕ) → 4 * length s + 1 ≤ f → Ends (length s) (term_loop f result s)
  term : (s : List ℕ) → 4 * length s + 2 ≤ f → Ends (length s) (parse_term f s)
  expr_rest :
      (result : Value) (s : List ℕ) → 4 * length s + 1 ≤ f → Ends (length s) (expr_loop f result s)
  expr : (s : List ℕ) → 4 * length s + 3 ≤ f → Ends (length s) (parse_expr f s)

-- A character that was tested is there.
head_there : (s : List ℕ) → 0 < head s → 0 < length s
head_there [] h = absurd (omega arith)
head_there (c ∷ s) h = omega arith

module _ (f : ℕ) (a : AllEnd f) where
  factor-Ends : (s : List ℕ) → 4 * length s + 1 ≤ suc f → Ends (length s) (parse_factor (suc f) s)
  unfolding parse_factor
  factor-Ends s h =
      let s' = skip_whitespace s in
      let le = skip_whitespace-le s in
      branch-Ends (length s) (head s' == b'(')
        (λ e.
          let there = head_there s' (ground arith) in
          bind-Ends (length s) (length (tail s')) (parse_expr f (tail s')) (λ r. some (close r))
            (a.expr (tail s') (omega (arith, tail-le s')))
            (λ r l. (close r, refl, omega (arith, close-le r, tail-le s'))))
        (λ e. (number s', refl, omega (arith, number-le s')))

  term_rest-Ends :
      (result : Value) (s : List ℕ)
      → 4 * length s + 1 ≤ suc f
      → Ends (length s) (term_loop (suc f) result s)
  unfolding term_loop
  term_rest-Ends result s h =
      let s' = skip_whitespace s in
      let le = skip_whitespace-le s in
      branch-Ends (length s) (is_mul (head s'))
        (λ e.
          let there = head_there s' (ground arith) in
          let shorter = tail-le s' in
          bind-Ends (length s) (length (tail s')) (parse_factor f (tail s'))
            (λ r. term_loop f (mul_op (head s') result r.0) r.1) (a.factor (tail s') (omega arith))
            (λ r l.
              let (q, e', l') = a.term_rest (mul_op (head s') result r.0) r.1 (omega arith) in
              (q, e', omega arith)))
        (λ e. ((result, s'), refl, le))

  term-Ends : (s : List ℕ) → 4 * length s + 2 ≤ suc f → Ends (length s) (parse_term (suc f) s)
  unfolding parse_term
  term-Ends s h =
      bind-Ends (length s) (length s) (parse_factor f s) (λ r. term_loop f r.0 r.1)
        (a.factor s (omega arith))
        (λ r l. let (q, e, l') = a.term_rest r.0 r.1 (omega arith) in (q, e, omega arith))

  expr_rest-Ends :
      (result : Value) (s : List ℕ)
      → 4 * length s + 1 ≤ suc f
      → Ends (length s) (expr_loop (suc f) result s)
  unfolding expr_loop
  expr_rest-Ends result s h =
      let s' = skip_whitespace s in
      let le = skip_whitespace-le s in
      branch-Ends (length s) (is_add (head s'))
        (λ e.
          let there = head_there s' (ground arith) in
          let shorter = tail-le s' in
          bind-Ends (length s) (length (tail s')) (parse_term f (tail s'))
            (λ r. expr_loop f (add_op (head s') result r.0) r.1) (a.term (tail s') (omega arith))
            (λ r l.
              let (q, e', l') = a.expr_rest (add_op (head s') result r.0) r.1 (omega arith) in
              (q, e', omega arith)))
        (λ e. ((result, s'), refl, le))

  expr-Ends : (s : List ℕ) → 4 * length s + 3 ≤ suc f → Ends (length s) (parse_expr (suc f) s)
  unfolding parse_expr
  expr-Ends s h =
      bind-Ends (length s) (length s) (parse_term f s) (λ r. expr_loop f r.0 r.1)
        (a.term s (omega arith))
        (λ r l. let (q, e, l') = a.expr_rest r.0 r.1 (omega arith) in (q, e, omega arith))

all_end : (f : ℕ) → AllEnd f
all_end zero = record {
  factor = λ s h. absurd (omega arith);
  term_rest = λ result s h. absurd (omega arith);
  term = λ s h. absurd (omega arith);
  expr_rest = λ result s h. absurd (omega arith);
  expr = λ s h. absurd (omega arith);
}
all_end (suc f) = record {
  factor = factor-Ends f (all_end f);
  term_rest = term_rest-Ends f (all_end f);
  term = term-Ends f (all_end f);
  expr_rest = expr_rest-Ends f (all_end f);
  expr = expr-Ends f (all_end f);
}

-- evaluate ends on every text, however malformed or nested, with an int or with a divide error: the
-- fuel is enough.
pub evaluate_total : (s : List ℕ) → (v : Value) × (evaluate s ≡ some v)
unfolding evaluate
evaluate_total s =
    let (r, e, le) = (all_end (4 * length s + 3)).expr s (omega arith) in
    (whole_result r, rw e refl)
