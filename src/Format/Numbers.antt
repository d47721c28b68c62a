-- ===== src/Format/Numbers.antt =====
-- The digits of the numbers that vsprintf and vfprintf print.
use myunixlikeos.Format.{digits, hex, calls, print_u, print_i, sprintf_x}
use myunixlikeos.Tools.{parse_number}
use myunixlikeos.Common.{
  ℕ, [], arith, refl, ◌/◌, ◌%◌, ◌<◌, ◌∷◌, ◌≡◌, ◌≤◌, List, ◌^◌, ◌++◌, All, Bool-cases, inl, inr, ltb,
  suc, zero, length, true, ◌*◌, ◌+◌, ◌-◌, if◌then◌else◌, length-append, ◌==◌, ◌≢◌, ap, some, ◌↔◌,
  ◌∙◌, false, none,
}
use myunixlikeos.Common.Int.{ℤ, pos, ◌-ℤ◌}
use native.Mathlib.Nat.{pow-suc, div-mul-le_self, mul-le-mul_left}

abbrev IsDigit : ℕ → Type 0
IsDigit c = (b'0' ≤ c) × (c ≤ b'9')

parse_number-append :
    (m : ℕ) (xs ys : List ℕ)
    → All IsDigit xs
    → parse_number m (xs ++ ys) ≡ parse_number (parse_number m xs) ys
unfolding parse_number
parse_number-append m [] ys h = refl
parse_number-append m (x ∷ xs) ys h =
    ground (arith, parse_number-append (m * 10 + (x - b'0')) xs ys h.1)

All-snoc : (xs : List ℕ) (c : ℕ) → All IsDigit xs → IsDigit c → All IsDigit (xs ++ (c ∷ []))
All-snoc [] c h k = (k, tt)
All-snoc (x ∷ xs) c h k = (h.0, All-snoc xs c h.1 k)

digits-IsDigit : (n u : ℕ) → All IsDigit (digits 10 n u)
unfolding digits
digits-IsDigit zero u = tt
digits-IsDigit (suc n) u = elim (Bool-cases (ltb u 10)) [
  | inl one ↦ rw one (ground arith)
  | inr more ↦
      rw more
        (All-snoc (digits 10 n (u / 10)) (hex (u % 10)) (digits-IsDigit n (u / 10)) (ground arith))
]

parse_digit : (m d : ℕ) → d < 10 → parse_number m (hex d ∷ []) ≡ m * 10 + d
unfolding parse_number
parse_digit m d h = ground arith

parse_number-digits : (n u : ℕ) → u < 10 ^ suc n → parse_number 0 (digits 10 (suc n) u) ≡ u
unfolding digits
parse_number-digits zero u h =
    let one : ltb u 10 ≡ true = ground arith in
    rw one (omega (arith, parse_digit 0 (u % 10) (omega arith)))
parse_number-digits (suc n) u h = elim (Bool-cases (ltb u 10)) [
  | inl one ↦ rw one (ground (arith, parse_digit 0 (u % 10) (omega arith)))
  | inr more ↦
      let front = digits-IsDigit (suc n) (u / 10) in
      let ih = parse_number-digits n (u / 10) (omega (arith, pow-suc 10 (suc n))) in
      rw (more, parse_number-append 0 (digits 10 (suc n) (u / 10)) (hex (u % 10) ∷ []) front, ih)
        (omega (arith, parse_digit (u / 10) (u % 10) (omega arith)))
]

-- What `%u` and `%llu` print of a number of at most 64 bits, the argument parser of head and tail
-- reads back.
pub parse_number-print_u : (u : ℕ) → u < 2 ^ 64 → parse_number 0 (print_u u) ≡ u
parse_number-print_u u h = parse_number-digits 63 u (omega arith)

halved : (b u : ℕ) → 2 ≤ b → u / b * 2 ≤ u
halved b u two = omega (arith, div-mul-le_self u b, mul-le-mul_left (u / b) two)

-- A number of `n` bits needs no more than `n` calls, in any base from 2 on.
digits_enough :
    (b n m k u : ℕ) → 2 ≤ b → u < 2 ^ suc n → suc n ≤ m → suc n ≤ k → digits b m u ≡ digits b k u
unfolding digits
digits_enough b n zero k u two h hm hk = absurd (omega arith)
digits_enough b n (suc m) zero u two h hm hk = absurd (omega arith)
digits_enough b zero (suc m) (suc k) u two h hm hk =
    let one : ltb u b ≡ true = ground arith in rw one refl
digits_enough b (suc n) (suc m) (suc k) u two h hm hk = elim (Bool-cases (ltb u b)) [
  | inl one ↦ rw one refl
  | inr more ↦
      let small : u / b < 2 ^ suc n = omega (arith, halved b u two, pow-suc 2 (suc n)) in
      rw (more, digits_enough b n m k (u / b) two small (omega arith) (omega arith)) refl
]

-- The 64 calls are enough: with more, the digits of a 64-bit number are the same.
pub digits-calls :
    (b u more : ℕ) → 2 ≤ b → u < 2 ^ 64 → digits b (calls + more) u ≡ digits b calls u
digits-calls b u more two h =
    digits_enough b 63 (calls + more) calls u two h (omega arith) (omega arith)

length-digits : (n m u : ℕ) → u < 10 ^ suc n → n < m → length (digits 10 m u) ≤ suc n
unfolding digits
length-digits n zero u h k = absurd (omega arith)
length-digits zero (suc m) u h k = let one : ltb u 10 ≡ true = ground arith in rw one (omega arith)
length-digits (suc n) (suc m) u h k = elim (Bool-cases (ltb u 10)) [
  | inl one ↦ rw one (omega arith)
  | inr more ↦
      let ih = length-digits n m (u / 10) (omega (arith, pow-suc 10 (suc n))) (omega arith) in
      rw more (omega (arith, ih, length-append (digits 10 m (u / 10)) (hex (u % 10) ∷ [])))
]

-- An `int` takes at most 11 characters and a `long long` at most 20, with the sign.
pub length-print_i :
    ((i : ℕ) → i < 2 ^ 32 → length (print_i 32 i) ≤ 11)
    × ((i : ℕ) → i < 2 ^ 64 → length (print_i 64 i) ≤ 20)
length-print_i = (
  λ i h. ground (arith, length-digits 9 calls i, length-digits 9 calls (2 ^ 32 - i)),
  λ i h. ground (arith, length-digits 18 calls i, length-digits 18 calls (2 ^ 64 - i)),
)

-- A number with a sign, read back.
unfoldable pub value_i : List ℕ → ℤ
value_i [] = pos 0
value_i (c ∷ cs) =
    if c == b'-' then pos 0 -ℤ pos (parse_number 0 cs) else pos (parse_number 0 (c ∷ cs))

-- The value of a word of `w` bits.
abbrev pub signed : ℕ → ℕ → ℤ
signed w i = if ltb i (2 ^ (w - 1)) then pos i else pos 0 -ℤ pos (2 ^ w - i)

value_i_digits : (xs : List ℕ) → All IsDigit xs → value_i xs ≡ pos (parse_number 0 xs)
unfolding value_i parse_number
value_i_digits [] h = refl
value_i_digits (x ∷ xs) h = ground arith

value_i-print_u : (u : ℕ) → u < 2 ^ 64 → value_i (print_u u) ≡ pos u
value_i-print_u u h =
    value_i_digits (print_u u) (digits-IsDigit calls u) ∙ ap pos (parse_number-print_u u h)

value_i_minus : (xs : List ℕ) → value_i (b'-' ∷ xs) ≡ pos 0 -ℤ pos (parse_number 0 xs)
unfolding value_i
value_i_minus xs = refl

-- What `%d` prints, read back as a number with a sign, is the value of the argument, for every `int`
-- but the least one.
pub value_i-print_i : (i : ℕ) → i < 2 ^ 32 → i ≢ 2 ^ 31 → value_i (print_i 32 i) ≡ signed 32 i
value_i-print_i i h ne = elim (Bool-cases (ltb i (2 ^ 31))) [
  | inl up ↦ rw up (value_i-print_u i (omega arith))
  | inr down ↦
      let j : ltb (2 ^ 32 - i) (2 ^ 31) ≡ true = ground arith in
      rw (down, j)
        (value_i_minus (print_u (2 ^ 32 - i))
          ∙ ap (λ k. pos 0 -ℤ pos k) (parse_number-print_u (2 ^ 32 - i) (omega arith)))
]

some_digit : (n u : ℕ) → 1 ≤ length (digits 16 (suc n) u)
unfolding digits
some_digit n u = elim (Bool-cases (ltb u 16)) [
  | inl one ↦ rw one (omega arith)
  | inr more ↦ rw more (omega (arith, length-append (digits 16 n (u / 16)) (hex (u % 16) ∷ [])))
]

two_digits : (n u : ℕ) → 16 ≤ u → 2 ≤ length (digits 16 (suc (suc n)) u)
unfolding digits
two_digits n u h =
    let more : ltb u 16 ≡ false = ground arith in
    rw more (
      omega (
        arith,
        length-append (digits 16 (suc n) (u / 16)) (hex (u % 16) ∷ []),
        some_digit n (u / 16),
      ))

not_one_digit : (x c : ℕ) → 16 ≤ x → some (c ∷ []) ≢ some (digits 16 calls x)
not_one_digit x c h e =
    let same : 1 ≡ length (digits 16 calls x) =
      ap (λ o. elim o [ none ↦ 0 | some t ↦ length t ]) e in
    omega (arith, same, two_digits 62 x h)

-- The two versions of `%x` print the same exactly for the arguments below 2^31: from there on the
-- version of vsprintf reads outside its table or prints a single 0.
pub sprintf_x_iff : (x : ℕ) → x < 2 ^ 32 → (sprintf_x x ≡ some (digits 16 calls x)) ↔ (x < 2 ^ 31)
sprintf_x_iff x h = ground (arith, not_one_digit x b'0')
