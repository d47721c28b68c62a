-- ===== src/Calc/Reads.antt =====
-- The parts of the calculator's functions on the text of an expression: a number, what is in
-- parentheses, and a round of each loop.
use myunixlikeos.Common.{
  ℕ, zero, suc, ◌+◌, ◌*◌, ◌≤◌, ◌≡◌, ◌-◌, true, false, List, [], ◌∷◌, ◌++◌, All, length, arith, refl,
  Option, length-append, some, ◌==◌, ◌∙◌, Bool-cases, inl, inr,
}
use myunixlikeos.Common.Int.{pos, ◌+ℤ◌, ◌*ℤ◌}
use myunixlikeos.Calc.{
  Value, head, skip_whitespace, read_digits, is_space, is_digit, is_add, is_mul, add_op, mul_op,
  wrap, parse_factor, expr_loop, parse_expr, parse_term, term_loop,
}
use myunixlikeos.Calc.Grammar.{
  add, IsDigit, AddOp, MulOp, plus, minus, times, over, spaces, add_char, mul_char, decimal,
  multiply, Factor, Factors, Product, Products, Sum, and_factor, and_product, no_factor, no_product,
  numeral, parenthesis, print_factor, print_factors, print_product, print_products, print_sum,
  product, total,
}

skip-spaces : (n : ℕ) (s : List ℕ) → skip_whitespace (spaces n s) ≡ skip_whitespace s
unfolding skip_whitespace
skip-spaces zero s = refl
skip-spaces (suc n) s = skip-spaces n s

pub length-spaces : (n : ℕ) (s : List ℕ) → length s ≤ length (spaces n s)
length-spaces zero s = omega arith
length-spaces (suc n) s = omega (arith, length-spaces n s)

skip_cons : (c : ℕ) (s : List ℕ) → is_space c ≡ false → skip_whitespace (c ∷ s) ≡ c ∷ s
unfolding skip_whitespace
skip_cons c s e = rw e refl

-- A digit more of a number that wraps around.
wrap_digit : (n d : ℕ) → wrap (wrap (wrap (pos n) *ℤ pos 10) +ℤ pos d) ≡ wrap (pos (n * 10 + d))
unfolding wrap ◌+ℤ◌ ◌*ℤ◌
wrap_digit n d = ground arith

read_digits-append :
    (n : ℕ) (ds s : List ℕ)
    → All IsDigit ds
    → is_digit (head s) ≡ false
    → read_digits (wrap (pos n)) (ds ++ s) ≡ (wrap (pos (decimal n ds)), s)
unfolding read_digits
read_digits-append n [] [] h e = refl
read_digits-append n [] (c ∷ s) h e = rw e refl
read_digits-append n (d ∷ ds) s h e =
    let digit : is_digit d ≡ true = ground (arith, h.0) in
    rw (digit, wrap_digit n (d - b'0')) (read_digits-append (n * 10 + (d - b'0')) ds s h.1 e)

mul_op_lem : (op : MulOp) (a b : Value) → mul_op (mul_char op) a b ≡ multiply op a b
unfolding mul_op
mul_op_lem times a b = refl
mul_op_lem over a b = refl

add_op_lem : (op : AddOp) (a b : Value) → add_op (add_char op) a b ≡ add op a b
unfolding add_op
add_op_lem plus a b = refl
add_op_lem minus a b = refl

mul_char_lem :
    (op : MulOp)
    → (is_space (mul_char op) ≡ false)
      × (is_mul (mul_char op) ≡ true)
      × (is_digit (mul_char op) ≡ false)
mul_char_lem times = (refl, refl, refl)
mul_char_lem over = (refl, refl, refl)

add_char_lem :
    (op : AddOp)
    → (is_space (add_char op) ≡ false)
      × (is_add (add_char op) ≡ true)
      × (is_digit (add_char op) ≡ false)
      × (is_mul (add_char op) ≡ false)
add_char_lem plus = (refl, refl, refl, refl)
add_char_lem minus = (refl, refl, refl, refl)

spaces_digit :
    (n c : ℕ) (s : List ℕ) → is_digit c ≡ false → is_digit (head (spaces n (c ∷ s))) ≡ false
spaces_digit zero c s e = e
spaces_digit (suc n) c s e = refl

mutual
  unfolding print_factor print_product print_factors print_sum print_products

  pub factor-ge : (a : Factor) (s : List ℕ) → length s ≤ length (print_factor a s)
  factor-ge (numeral n d ds h) s =
      omega (arith, length-spaces n (d ∷ (ds ++ s)), length-append ds s)
  factor-ge (parenthesis n e) s =
      omega (arith, length-spaces n (b'(' ∷ print_sum e (b')' ∷ s)), sum-ge e (b')' ∷ s))

  pub product-ge : (p : Product) (s : List ℕ) → length s ≤ length (print_product p s)
  product-ge (product a bs) s = omega (arith, factor-ge a (print_factors bs s), factors-ge bs s)

  factors-ge : (bs : Factors) (s : List ℕ) → length s ≤ length (print_factors bs s)
  factors-ge no_factor s = omega arith
  factors-ge (and_factor n op a bs) s = omega (
    arith,
    length-spaces n (mul_char op ∷ print_factor a (print_factors bs s)),
    factor-ge a (print_factors bs s),
    factors-ge bs s,
  )

  sum-ge : (e : Sum) (s : List ℕ) → length s ≤ length (print_sum e s)
  sum-ge (total p ps) s = omega (arith, product-ge p (print_products ps s), products-ge ps s)

  products-ge : (ps : Products) (s : List ℕ) → length s ≤ length (print_products ps s)
  products-ge no_product s = omega arith
  products-ge (and_product n op p ps) s = omega (
    arith,
    length-spaces n (add_char op ∷ print_product p (print_products ps s)),
    product-ge p (print_products ps s),
    products-ge ps s,
  )

pub factors_digit :
    (bs : Factors) (s : List ℕ)
    → is_digit (head s) ≡ false
    → is_digit (head (print_factors bs s)) ≡ false
unfolding print_factors
factors_digit no_factor s e = e
factors_digit (and_factor n op a bs) s e =
    spaces_digit n (mul_char op) (print_factor a (print_factors bs s)) (mul_char_lem op).2

-- What may stand behind a sum: no digit, and no sign that goes on with it.
pub record Follow (s : List ℕ) : Type 0 where
  pub digit : is_digit (head s) ≡ false
  pub mul_sign : is_mul (head (skip_whitespace s)) ≡ false
  pub plus_sign : is_add (head (skip_whitespace s)) ≡ false

pub products_digit :
    (ps : Products) (s : List ℕ) → Follow s → is_digit (head (print_products ps s)) ≡ false
unfolding print_products
products_digit no_product s f = f.digit
products_digit (and_product n op p ps) s f =
    spaces_digit n (add_char op) (print_product p (print_products ps s)) (add_char_lem op).2

pub products_mul :
    (ps : Products) (s : List ℕ)
    → Follow s
    → is_mul (head (skip_whitespace (print_products ps s))) ≡ false
unfolding print_products
products_mul no_product s f = f.mul_sign
products_mul (and_product n op p ps) s f =
    let rest = print_product p (print_products ps s) in
    rw (skip-spaces n (add_char op ∷ rest), skip_cons (add_char op) rest (add_char_lem op).0)
      (add_char_lem op).3

pub closed_Follow : (s : List ℕ) → Follow (b')' ∷ s)
unfolding skip_whitespace
closed_Follow s = record { digit = refl; mul_sign = refl; plus_sign = refl }

pub end_Follow : Follow []
unfolding skip_whitespace
end_Follow = record { digit = refl; mul_sign = refl; plus_sign = refl }

-- The character behind the spaces, and what follows it.
skip_sign :
    (n c : ℕ) (rest : List ℕ)
    → is_space c ≡ false
    → skip_whitespace (spaces n (c ∷ rest)) ≡ c ∷ rest
skip_sign n c rest e = skip-spaces n (c ∷ rest) ∙ skip_cons c rest e

-- `o` is the value `v` and a rest that is `s` but for blanks.
abbrev pub Reads : Option (Value × List ℕ) → Value → List ℕ → Type 0
Reads o v s = (r : List ℕ) × (o ≡ some (v, r)) × (skip_whitespace r ≡ skip_whitespace s)

pub skip_twice : (s : List ℕ) → skip_whitespace (skip_whitespace s) ≡ skip_whitespace s
unfolding skip_whitespace
skip_twice [] = refl
skip_twice (c ∷ s) = elim (Bool-cases (is_space c)) [
  | inl e ↦ rw e (skip_twice s)
  | inr e ↦ rw e (skip_cons c s e)
]

pub Reads-numeral :
    (f n d : ℕ) (ds s : List ℕ)
    → All IsDigit (d ∷ ds)
    → is_digit (head s) ≡ false
    → Reads
        (parse_factor (suc f) (spaces n (d ∷ (ds ++ s))))
        (some (wrap (pos (decimal 0 (d ∷ ds)))))
        s
unfolding parse_factor wrap
Reads-numeral f n d ds s h e =
    let blank : is_space d ≡ false = ground (arith, h.0) in
    let closed : (d == b'(') ≡ false = ground (arith, h.0) in
    let read = read_digits-append 0 (d ∷ ds) s h e in
    (skip_whitespace s, rw (skip_sign n d (ds ++ s) blank, closed, read) refl, skip_twice s)

-- What a result of the functions for products and sums is.
abbrev pub Gives : Option (Value × List ℕ) → Value → List ℕ → Type 0
Gives o v s = o ≡ some (v, skip_whitespace s)

pub Reads-parenthesis :
    (f n : ℕ) (v : Value) (inner s : List ℕ)
    → Gives (parse_expr f inner) v (b')' ∷ s)
    → Reads (parse_factor (suc f) (spaces n (b'(' ∷ inner))) v s
unfolding parse_factor skip_whitespace
Reads-parenthesis f n v inner s e = (s, rw (skip_sign n b'(' inner refl, e) refl, refl)

-- One round of the loop of parse_term, and its end.
pub term_round :
    (f n : ℕ) (op : MulOp) (v w : Value) (r rest next s : List ℕ) (u : Value)
    → skip_whitespace r ≡ skip_whitespace (spaces n (mul_char op ∷ rest))
    → Reads (parse_factor f rest) w next
    → ((q : List ℕ)
        → skip_whitespace q ≡ skip_whitespace next
        → Gives (term_loop f (multiply op v w) q) u s)
    → Gives (term_loop (suc f) v r) u s
unfolding term_loop
term_round f n op v w r rest next s u e (q, read, same) go =
    let (blank, sign, _) = mul_char_lem op in
    rw (e ∙ skip_sign n (mul_char op) rest blank, sign, read, mul_op_lem op v w) (go q same)

pub term_end :
    (f : ℕ) (v : Value) (r s : List ℕ)
    → skip_whitespace r ≡ skip_whitespace s
    → is_mul (head (skip_whitespace s)) ≡ false
    → Gives (term_loop (suc f) v r) v s
unfolding term_loop
term_end f v r s e none_left = rw (e, none_left) refl

pub expr_round :
    (f n : ℕ) (op : AddOp) (v w : Value) (r rest next s : List ℕ) (u : Value)
    → skip_whitespace r ≡ skip_whitespace (spaces n (add_char op ∷ rest))
    → Gives (parse_term f rest) w next
    → ((q : List ℕ)
        → skip_whitespace q ≡ skip_whitespace next
        → Gives (expr_loop f (add op v w) q) u s)
    → Gives (expr_loop (suc f) v r) u s
unfolding expr_loop
expr_round f n op v w r rest next s u e read go =
    let (blank, sign, _, _) = add_char_lem op in
    rw (e ∙ skip_sign n (add_char op) rest blank, sign, read, add_op_lem op v w)
      (go (skip_whitespace next) (skip_twice next))

pub expr_end :
    (f : ℕ) (v : Value) (r s : List ℕ)
    → skip_whitespace r ≡ skip_whitespace s
    → is_add (head (skip_whitespace s)) ≡ false
    → Gives (expr_loop (suc f) v r) v s
unfolding expr_loop
expr_end f v r s e none_left = rw (e, none_left) refl
