-- ===== src/Calc/RoundTrip.antt =====
-- The calculator computes the value of an expression from its text.
use myunixlikeos.Common.{
  ap, none, some, refl, ℕ, zero, suc, ◌+◌, ◌*◌, ◌≤◌, ◌≡◌, false, List, [], ◌∷◌, length, arith, refl,
  some,
}
use myunixlikeos.Calc.{
  whole_result, Value, head, skip_whitespace, is_digit, is_mul, parse_factor, expr_loop, parse_expr,
  parse_term, term_loop, evaluate,
}
use myunixlikeos.Calc.Grammar.{
  add, add_char, mul_char, multiply, Factor, Factors, Product, Products, Sum, and_factor,
  and_product, no_factor, no_product, numeral, parenthesis, print_factor, print_factors,
  print_product, print_products, print_sum, product, total, value_factor, value_factors,
  value_product, value_products, value_sum,
}
use myunixlikeos.Calc.Reads.{
  Follow, Gives, Reads, closed_Follow, end_Follow, expr_end, expr_round, factor-ge, factors_digit,
  length-spaces, product-ge, products_digit, products_mul, Reads-numeral, Reads-parenthesis,
  skip_twice, term_end, term_round,
}

-- The functions and loops on the text of an expression, with fuel for its characters.
mutual
  unfolding parse_term parse_expr print_factor print_product print_factors print_sum print_products
      value_factor value_product value_factors value_sum value_products

  Reads-factor :
      (a : Factor) (f : ℕ) (s : List ℕ)
      → is_digit (head s) ≡ false
      → 4 * length (print_factor a s) + 1 ≤ f
      → Reads (parse_factor f (print_factor a s)) (value_factor a) s
  Reads-factor (numeral n d ds h) zero s e k = absurd (omega arith)
  Reads-factor (numeral n d ds h) (suc f) s e k = Reads-numeral f n d ds s h e
  Reads-factor (parenthesis n x) zero s e k = absurd (omega arith)
  Reads-factor (parenthesis n x) (suc f) s e k =
      let inner = print_sum x (b')' ∷ s) in
      Reads-parenthesis f n (value_sum x) inner s
        (reads_sum x f (b')' ∷ s) (closed_Follow s) (omega (arith, length-spaces n (b'(' ∷ inner))))

  reads_factors :
      (bs : Factors) (f : ℕ) (v : Value) (r s : List ℕ)
      → skip_whitespace r ≡ skip_whitespace (print_factors bs s)
      → is_digit (head s) ≡ false
      → is_mul (head (skip_whitespace s)) ≡ false
      → 4 * length (print_factors bs s) + 1 ≤ f
      → Gives (term_loop f v r) (value_factors v bs) s
  reads_factors no_factor zero v r s e d m k = absurd (omega arith)
  reads_factors no_factor (suc f) v r s e d m k = term_end f v r s e m
  reads_factors (and_factor n op a bs) zero v r s e d m k = absurd (omega arith)
  reads_factors (and_factor n op a bs) (suc f) v r s e d m k =
      let next = print_factors bs s in
      let rest = print_factor a next in
      let all = length-spaces n (mul_char op ∷ rest) in
      let ge = factor-ge a next in
      term_round f n op v (value_factor a) r rest next s
        (value_factors (multiply op v (value_factor a)) bs) e
        (Reads-factor a f next (factors_digit bs s d) (omega arith))
        (λ q same. reads_factors bs f (multiply op v (value_factor a)) q s same d m (omega arith))

  reads_product :
      (p : Product) (f : ℕ) (s : List ℕ)
      → is_digit (head s) ≡ false
      → is_mul (head (skip_whitespace s)) ≡ false
      → 4 * length (print_product p s) + 2 ≤ f
      → Gives (parse_term f (print_product p s)) (value_product p) s
  reads_product (product a bs) zero s d m k = absurd (omega arith)
  reads_product (product a bs) (suc f) s d m k =
      let next = print_factors bs s in
      let ge = factor-ge a next in
      let (q, read, same) = Reads-factor a f next (factors_digit bs s d) (omega arith) in
      rw read (reads_factors bs f (value_factor a) q s same d m (omega arith))

  reads_products :
      (ps : Products) (f : ℕ) (v : Value) (r s : List ℕ)
      → skip_whitespace r ≡ skip_whitespace (print_products ps s)
      → Follow s
      → 4 * length (print_products ps s) + 1 ≤ f
      → Gives (expr_loop f v r) (value_products v ps) s
  reads_products no_product zero v r s e w k = absurd (omega arith)
  reads_products no_product (suc f) v r s e w k = expr_end f v r s e w.plus_sign
  reads_products (and_product n op p ps) zero v r s e w k = absurd (omega arith)
  reads_products (and_product n op p ps) (suc f) v r s e w k =
      let next = print_products ps s in
      let rest = print_product p next in
      let all = length-spaces n (add_char op ∷ rest) in
      let ge = product-ge p next in
      expr_round f n op v (value_product p) r rest next s
        (value_products (add op v (value_product p)) ps) e
        (reads_product p f next (products_digit ps s w) (products_mul ps s w) (omega arith))
        (λ q same. reads_products ps f (add op v (value_product p)) q s same w (omega arith))

  reads_sum :
      (x : Sum) (f : ℕ) (s : List ℕ)
      → Follow s
      → 4 * length (print_sum x s) + 3 ≤ f
      → Gives (parse_expr f (print_sum x s)) (value_sum x) s
  reads_sum (total p ps) zero s w k = absurd (omega arith)
  reads_sum (total p ps) (suc f) s w k =
      let next = print_products ps s in
      let ge = product-ge p next in
      rw (reads_product p f next (products_digit ps s w) (products_mul ps s w) (omega arith)) (
        reads_products ps f (value_product p) (skip_whitespace next) s (skip_twice next) w
          (omega arith))

-- At the end of the text the result is the value.
whole_result-end : (v : Value) → whole_result (v, []) ≡ v
unfolding skip_whitespace
whole_result-end none = refl
whole_result-end (some n) = refl

-- The calculator gives the value of every expression from its text, with any spaces before the numbers
-- and signs: products before sums, each from left to right, as ints that wrap around, where a division
-- by 0 changes nothing and the least int by -1 is a divide error, which is then the whole result.
pub evaluate-print_sum : (x : Sum) → evaluate (print_sum x []) ≡ some (value_sum x)
unfolding evaluate skip_whitespace
evaluate-print_sum x =
    rw (reads_sum x (4 * length (print_sum x []) + 3) [] end_Follow (omega arith))
      (ap some (whole_result-end (value_sum x)))
