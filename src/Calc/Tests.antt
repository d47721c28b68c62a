-- ===== src/Calc/Tests.antt =====
-- The calculator of bin/calc/calc.c at concrete inputs.
use myunixlikeos.Common.{ℕ, ◌≡◌, List, [], ◌∷◌, refl, some, none, arith, ◌≤◌}
use myunixlikeos.Common.Int.{pos, negsuc, ◌+ℤ◌, ◌-ℤ◌, ◌*ℤ◌}
use myunixlikeos.Calc.{
  Value, evaluate, parse_expr, skip_whitespace, read_digits, wrap, quotient, add_op, mul_op,
}
use myunixlikeos.Calc.Grammar.{
  Sum, Factor, total, product, numeral, parenthesis, no_factor, and_factor, no_product, and_product,
  minus, times, over, print_sum, value_sum,
}
use myunixlikeos.Calc.RoundTrip.{evaluate-print_sum}
use myunixlikeos.Calc.Total.{evaluate_total}

-- "2 - (7 / 2)*10"
abbrev sample : List ℕ
sample = 50 ∷ 32 ∷ 45 ∷ 32 ∷ 40 ∷ 55 ∷ 32 ∷ 47 ∷ 32 ∷ 50 ∷ 41 ∷ 42 ∷ 49 ∷ 48 ∷ []

sample_value : evaluate sample ≡ some (some (negsuc 27))
unfolding evaluate parse_expr skip_whitespace read_digits wrap quotient add_op mul_op ◌+ℤ◌ ◌-ℤ◌ ◌*ℤ◌
sample_value = refl

-- "2 3" does not take the whole text
two_numbers : evaluate (50 ∷ 32 ∷ 51 ∷ []) ≡ some (some (pos 0))
unfolding evaluate parse_expr skip_whitespace read_digits wrap ◌+ℤ◌ ◌*ℤ◌
two_numbers = refl

-- "-5" is read as 0 - 5
negative : evaluate (45 ∷ 53 ∷ []) ≡ some (some (negsuc 4))
unfolding evaluate parse_expr skip_whitespace read_digits wrap quotient add_op mul_op ◌+ℤ◌ ◌-ℤ◌ ◌*ℤ◌
negative = refl

-- the text of -2147483648/-1, with the signs as differences
least_by_minus_one : quotient (negsuc 2147483647) (negsuc 0) ≡ none
unfolding quotient
least_by_minus_one = refl

evaluate_total_example : (v : Value) × (evaluate (40 ∷ 40 ∷ 43 ∷ 41 ∷ []) ≡ some v)
evaluate_total_example = evaluate_total (40 ∷ 40 ∷ 43 ∷ 41 ∷ [])

abbrev digit : (d : ℕ) → 48 ≤ d → d ≤ 57 → Factor
digit d h k = numeral 1 d [] ((h, k), tt)

abbrev halves : Sum
halves =
    total
      (product (digit 55 (omega arith) (omega arith))
        (and_factor 0 over (digit 50 (omega arith) (omega arith)) no_factor))
      no_product

abbrev nested : Sum
nested = total (product (digit 50 (omega arith) (omega arith)) no_factor) (
    and_product 2 minus
      (product (parenthesis 0 halves)
        (and_factor 0 times (digit 57 (omega arith) (omega arith)) no_factor))
      no_product)

evaluate-print_sum_example : evaluate (print_sum nested []) ≡ some (value_sum nested)
evaluate-print_sum_example = evaluate-print_sum nested

nested_value : value_sum nested ≡ some (negsuc 24)
unfolding value_sum wrap quotient ◌+ℤ◌ ◌-ℤ◌ ◌*ℤ◌
nested_value = refl
