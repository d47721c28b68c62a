-- ===== src/Calc.antt =====
-- The calculator of bin/calc/calc.c: a recursive descent parser that computes as it reads. The pointer
-- into the expression is the list of the characters from there on, without the terminator.
pub mod Grammar
pub mod Reads
pub mod RoundTrip
mod Tests
pub mod Total
use myunixlikeos.Common.{
  ℕ, Bool, List, Option, [], if◌then◌else◌, false, leb, length, ltb, none, some, suc, true, zero,
  ◌%◌, ◌&&◌, ◌*◌, ◌+◌, ◌-◌, ◌/◌, ◌==◌, ◌>>=◌, ◌^◌, ◌||◌, ◌∷◌,
}
use myunixlikeos.Common.Int.{ℤ, pos, negsuc, ◌+ℤ◌, ◌-ℤ◌, ◌*ℤ◌}

-- The int that a word stands for, and the int that keeps the lowest 32 bits of a result.
abbrev pub int_of : ℕ → ℤ
int_of w = if ltb w (2 ^ 31) then pos w else negsuc (2 ^ 32 - 1 - w)

unfoldable pub wrap : ℤ → ℤ
wrap (pos n) = int_of (n % 2 ^ 32)
wrap (negsuc n) = int_of (2 ^ 32 - 1 - n % 2 ^ 32)

abbrev pub negated : ℕ → ℤ
negated zero = pos 0
negated (suc n) = negsuc n

-- The value of a part of the expression; `none` is a divide error, which stops the machine, so that
-- nothing of what follows can be seen.
abbrev pub Value : Type 0
Value = Option ℤ

-- `/` on int cuts towards 0. The least int by -1 does not fit, and `idiv` raises a divide error.
unfoldable pub quotient : ℤ → ℤ → Value
quotient (pos a) (pos b) = some (pos (a / b))
quotient (pos a) (negsuc b) = some (negated (a / suc b))
quotient (negsuc a) (pos b) = some (negated (suc a / b))
quotient (negsuc a) (negsuc b) =
    if leb (2 ^ 31) (suc a / suc b) then none else some (pos (suc a / suc b))

-- `*expr_ptr` and `expr_ptr++`; the terminator is 0.
abbrev pub head : List ℕ → ℕ
head [] = 0
head (c ∷ s) = c

abbrev pub tail : List ℕ → List ℕ
tail [] = []
tail (c ∷ s) = s

abbrev pub is_space : ℕ → Bool
is_space c = (c == b' ') || (c == 9) || (c == 10)

unfoldable pub skip_whitespace : List ℕ → List ℕ
skip_whitespace [] = []
skip_whitespace (c ∷ s) = if is_space c then skip_whitespace s else c ∷ s

abbrev pub is_digit : ℕ → Bool
is_digit c = leb b'0' c && leb c b'9'

-- The loop over the digits.
unfoldable pub read_digits : ℤ → List ℕ → ℤ × List ℕ
unfolding wrap
read_digits num [] = (num, [])
read_digits num (c ∷ s) =
    if is_digit c
    then read_digits (wrap (wrap (num *ℤ pos 10) +ℤ pos (c - b'0'))) s
    else (num, c ∷ s)

abbrev pub number : List ℕ → Value × List ℕ
number s = let (num, rest) = read_digits (pos 0) s in (some num, skip_whitespace rest)

abbrev pub is_add : ℕ → Bool
is_add c = (c == b'+') || (c == b'-')

abbrev pub is_mul : ℕ → Bool
is_mul c = (c == b'*') || (c == b'/')

unfoldable pub add_op : ℕ → Value → Value → Value
unfolding wrap
add_op op result right = do
  a ← result
  b ← right
  some (if op == b'+' then wrap (a +ℤ b) else wrap (a -ℤ b))

abbrev pub is_zero_int : ℤ → Bool
is_zero_int (pos zero) = true
is_zero_int (pos (suc n)) = false
is_zero_int (negsuc n) = false

unfoldable pub mul_op : ℕ → Value → Value → Value
unfolding wrap quotient
mul_op op result right = do
  a ← result
  b ← right
  if op == b'*' then some (wrap (a *ℤ b)) else if is_zero_int b then some a else quotient a b

-- `if (*expr_ptr == ')') expr_ptr++`
abbrev pub close : Value × List ℕ → Value × List ℕ
close (result, s) = let s' = skip_whitespace s in (result, if head s' == b')' then tail s' else s')

-- The three functions and the loops of two of them call one another; `none` is that the fuel ran out.
unfoldable mutual
  pub parse_factor : ℕ → List ℕ → Option (Value × List ℕ)
  parse_factor zero s = none
  parse_factor (suc f) s =
      let s' = skip_whitespace s in
      let inner = parse_expr f (tail s') in
      if head s' == b'(' then (inner >>= λ r. some (close r)) else some (number s')

  pub term_loop : ℕ → Value → List ℕ → Option (Value × List ℕ)
  term_loop zero result s = none
  term_loop (suc f) result s =
      let s' = skip_whitespace s in
      let rest = parse_factor f (tail s') >>= λ r. term_loop f (mul_op (head s') result r.0) r.1 in
      if is_mul (head s') then rest else some (result, s')

  pub parse_term : ℕ → List ℕ → Option (Value × List ℕ)
  parse_term zero s = none
  parse_term (suc f) s = parse_factor f s >>= λ r. term_loop f r.0 r.1

  pub expr_loop : ℕ → Value → List ℕ → Option (Value × List ℕ)
  expr_loop zero result s = none
  expr_loop (suc f) result s =
      let s' = skip_whitespace s in
      let rest = parse_term f (tail s') >>= λ r. expr_loop f (add_op (head s') result r.0) r.1 in
      if is_add (head s') then rest else some (result, s')

  pub parse_expr : ℕ → List ℕ → Option (Value × List ℕ)
  parse_expr zero s = none
  parse_expr (suc f) s = parse_term f s >>= λ r. expr_loop f r.0 r.1

-- What is left of the expression must be blank.
abbrev pub whole_result : Value × List ℕ → Value
whole_result (result, s) = result >>= λ v. some (if head (skip_whitespace s) == 0 then v else pos 0)

-- Each level of parentheses takes three calls and a character, and each round of a loop a character.
unfoldable pub evaluate : List ℕ → Option Value
evaluate s = parse_expr (4 * length s + 3) s >>= λ r. some (whole_result r)
