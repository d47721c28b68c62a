-- ===== src/Calc/Grammar.antt =====
-- The expressions that the calculator of bin/calc/calc.c is for: their texts, with spaces before each
-- sign, and their values, which are ints that wrap around, or a divide error.
use myunixlikeos.Common.{
  some, ℕ, zero, suc, ◌+◌, ◌-◌, ◌*◌, ◌≤◌, List, [], ◌∷◌, ◌++◌, All, if◌then◌else◌, ◌>>=◌,
}
use myunixlikeos.Common.Int.{pos, ◌+ℤ◌, ◌-ℤ◌, ◌*ℤ◌}
use myunixlikeos.Calc.{Value, wrap, quotient, is_zero_int}

abbrev pub IsDigit : ℕ → Type 0
IsDigit c = (b'0' ≤ c) × (c ≤ b'9')

pub data AddOp : Type 0 where
  plus : AddOp
  minus : AddOp

pub data MulOp : Type 0 where
  times : MulOp
  over : MulOp

-- A product is a factor and those behind it, and a sum a product and those behind it. The number is
-- that of the spaces before.
mutual
  pub data Factor : Type 0 where
    numeral : ℕ → (d : ℕ) (ds : List ℕ) → All IsDigit (d ∷ ds) → Factor
    parenthesis : ℕ → Sum → Factor

  pub data Product : Type 0 where
    product : Factor → Factors → Product

  pub data Factors : Type 0 where
    no_factor : Factors
    and_factor : ℕ → MulOp → Factor → Factors → Factors

  pub data Sum : Type 0 where
    total : Product → Products → Sum

  pub data Products : Type 0 where
    no_product : Products
    and_product : ℕ → AddOp → Product → Products → Products

abbrev pub spaces : ℕ → List ℕ → List ℕ
spaces zero s = s
spaces (suc n) s = b' ' ∷ spaces n s

abbrev pub add_char : AddOp → ℕ
add_char plus = b'+'
add_char minus = b'-'

abbrev pub mul_char : MulOp → ℕ
mul_char times = b'*'
mul_char over = b'/'

-- The text of an expression, before the text `s`.
unfoldable mutual
  pub print_factor : Factor → List ℕ → List ℕ
  print_factor (numeral n d ds h) s = spaces n (d ∷ ds ++ s)
  print_factor (parenthesis n e) s = spaces n (b'(' ∷ print_sum e (b')' ∷ s))

  pub print_product : Product → List ℕ → List ℕ
  print_product (product a bs) s = print_factor a (print_factors bs s)

  pub print_factors : Factors → List ℕ → List ℕ
  print_factors no_factor s = s
  print_factors (and_factor n op a bs) s =
      spaces n (mul_char op ∷ print_factor a (print_factors bs s))

  pub print_sum : Sum → List ℕ → List ℕ
  print_sum (total p ps) s = print_product p (print_products ps s)

  pub print_products : Products → List ℕ → List ℕ
  print_products no_product s = s
  print_products (and_product n op p ps) s =
      spaces n (add_char op ∷ print_product p (print_products ps s))

abbrev pub decimal : ℕ → List ℕ → ℕ
decimal n [] = n
decimal n (c ∷ cs) = decimal (n * 10 + (c - b'0')) cs

abbrev pub add : AddOp → Value → Value → Value
add plus v w = do a ← v; b ← w; some (wrap (a +ℤ b))
add minus v w = do a ← v; b ← w; some (wrap (a -ℤ b))

-- Dividing by 0 changes nothing.
abbrev pub multiply : MulOp → Value → Value → Value
multiply times v w = do a ← v; b ← w; some (wrap (a *ℤ b))
multiply over v w = do a ← v; b ← w; if is_zero_int b then some a else quotient a b

-- From left to right, products before sums.
unfoldable mutual
  pub value_factor : Factor → Value
  value_factor (numeral n d ds h) = some (wrap (pos (decimal 0 (d ∷ ds))))
  value_factor (parenthesis n e) = value_sum e

  pub value_product : Product → Value
  value_product (product a bs) = value_factors (value_factor a) bs

  pub value_factors : Value → Factors → Value
  value_factors v no_factor = v
  value_factors v (and_factor n op a bs) = value_factors (multiply op v (value_factor a)) bs

  pub value_sum : Sum → Value
  value_sum (total p ps) = value_products (value_product p) ps

  pub value_products : Value → Products → Value
  value_products v no_product = v
  value_products v (and_product n op p ps) = value_products (add op v (value_product p)) ps
