-- ===== src/Format.antt =====
-- Formatted output: vsprintf of lib/libc/stdio/sprintf.c and vfprintf of lib/libc/stdio/printf.c.
-- Arguments are the 32-bit words on the stack, and `string_at` is what the memory holds from an
-- address on. `none` is a fault: a read behind the end of the format or of the arguments, or an
-- index outside a table.
pub mod Buffer
pub mod Numbers
pub mod Text
mod Tests
use myunixlikeos.Common.{
  ℕ, Bool, List, Option, [], if◌then◌else◌, ltb, none, some, suc, zero, ◌%◌, ◌||◌, ◌-◌, ◌+◌, ◌*◌,
  ◌/◌, ◌^◌, ◌==◌, ◌∷◌, ◌++◌, ◌>>=◌,
}

-- `"0123456789abcdef"[d]`
abbrev pub hex : ℕ → ℕ
hex d = if ltb d 10 then b'0' + d else b'a' + (d - 10)

-- The digits of a number in base `b`, as all the recursive functions print them; the first number is
-- the calls left.
unfoldable pub digits : ℕ → ℕ → ℕ → List ℕ
digits b zero u = []
digits b (suc n) u =
    let front = digits b n (u / b) in (if ltb u b then [] else front) ++ (hex (u % b) ∷ [])

-- A number of at most 64 bits has no more digits than that in any base.
abbrev pub calls : ℕ
calls = 64

-- `_sprintf_u`, `_sprintf_lu`, `_sprintf_llu` and `_print_u` and so on.
abbrev pub print_u : ℕ → List ℕ
print_u u = digits 10 calls u

-- `_sprintf_i`, `_sprintf_li`, `_sprintf_lli` and `_print_i` and so on, for a signed number of `w` bits. The negative
-- number that is its own negation is below 10, and its last digit is below the character '0'.
abbrev pub print_i : ℕ → ℕ → List ℕ
print_i w i =
    if ltb i (2 ^ (w - 1))
    then print_u i
    else b'-'
      ∷ (let j = 2 ^ w - i in if ltb j (2 ^ (w - 1)) then print_u j else (b'0' - j % 10) ∷ [])

-- `_sprintf_x` on a signed number: a negative one is below 16, and so is its negative remainder.
abbrev pub sprintf_x : ℕ → Option (List ℕ)
sprintf_x x =
    if ltb x (2 ^ 31)
    then some (digits 16 calls x)
    else if (2 ^ 32 - x) % 16 == 0
    then some (b'0' ∷ [])
    else none

-- A narrow argument, which goes through `int`.
abbrev pub extend : ℕ → ℕ → ℕ
extend w i = let low = i % 2 ^ w in if ltb low (2 ^ (w - 1)) then low else 2 ^ 32 - 2 ^ w + low

-- The flags of which at most one is set.
pub data Width : Type 0 where
  no_flag : Width
  flag_l : Width
  flag_ll : Width
  flag_h : Width
  flag_hh : Width
  flag_long_double : Width
  flag_z : Width

abbrev pub Printed : Type 0
Printed = Option (List ℕ × List ℕ)

-- `va_arg` of one word and of two, the low one first.
abbrev pub word_arg : (ℕ → List ℕ) → List ℕ → Printed
word_arg f [] = none
word_arg f (a ∷ args) = some (f a, args)

abbrev pub long_arg : (ℕ → List ℕ) → List ℕ → Printed
long_arg f [] = none
long_arg f (a ∷ []) = none
long_arg f (a ∷ b ∷ args) = some (f (b * 2 ^ 32 + a), args)

abbrev pub checked_arg : (ℕ → Option (List ℕ)) → List ℕ → Printed
checked_arg f [] = none
checked_arg f (a ∷ args) = f a >>= λ t. some (t, args)

abbrev pub signed_arg : Width → List ℕ → Printed
signed_arg flag_ll args = long_arg (print_i 64) args
signed_arg flag_hh args = word_arg (λ a. print_i 32 (extend 8 a)) args
signed_arg flag_h args = word_arg (λ a. print_i 32 (extend 16 a)) args
signed_arg _ args = word_arg (print_i 32) args

abbrev pub unsigned_arg : Width → List ℕ → Printed
unsigned_arg flag_ll args = long_arg print_u args
unsigned_arg _ args = word_arg print_u args

abbrev pub char_arg : ℕ → List ℕ
char_arg a = a % 256 ∷ []

-- `_sprintf_s`, `_print_s`
unfoldable pub print_s : List ℕ → List ℕ
print_s [] = []
print_s (c ∷ s) = if c == 0 then [] else c ∷ print_s s

abbrev pub is_one_of : ℕ → ℕ → ℕ → Bool
is_one_of c a b = c == a || c == b

-- The switch of vsprintf on the character `c` behind the flags.
unfoldable pub sprintf_conversion : (ℕ → List ℕ) → Width → ℕ → List ℕ → Printed
unfolding print_s
sprintf_conversion string_at w c args =
    if is_one_of c b'i' b'd'
    then signed_arg w args
    else if c == b'u'
    then unsigned_arg w args
    else if c == b's'
    then word_arg (λ a. print_s (string_at a)) args
    else if c == b'c'
    then word_arg char_arg args
    else if is_one_of c b'x' b'X'
    then checked_arg sprintf_x args
    else if c == b'p'
    then checked_arg (λ a. sprintf_x a >>= λ t. some (b'0' ∷ b'x' ∷ t)) args
    else some (if c == b'%' then b'%' ∷ [] else [], args)

-- The switch of vfprintf, where `%x` prints an unsigned number. `float_arg` prints the numbers with
-- a point, and takes their words.
unfoldable pub print_conversion :
    (Width → ℕ → List ℕ → Printed) → (ℕ → List ℕ) → Width → ℕ → List ℕ → Printed
unfolding print_s
print_conversion float_arg string_at w c args =
    if is_one_of c b'i' b'd'
    then signed_arg w args
    else if c == b'u'
    then unsigned_arg w args
    else if is_one_of c b'f' b'F' || is_one_of c b'e' b'E' || is_one_of c b'g' b'G'
    then float_arg w c args
    else if c == b's'
    then word_arg (λ a. print_s (string_at a)) args
    else if c == b'c'
    then word_arg char_arg args
    else if is_one_of c b'x' b'X'
    then word_arg (digits 16 calls) args
    else if c == b'o'
    then word_arg (digits 8 calls) args
    else if c == b'p'
    then word_arg (λ a. b'0' ∷ b'x' ∷ digits 16 calls a) args
    else some (if c == b'%' then b'%' ∷ [] else [], args)

-- Where the pointer into the format stands: at the loop's test, behind `%`, behind a first `l` or
-- `h`, or behind the flags.
pub data Place : Type 0 where
  in_text : Place
  percent : Place
  after_l : Place
  after_h : Place
  behind : Width → Place

-- One character of the format: the end, or the text that it prints, where the pointer stands then,
-- and the arguments left.
pub data Step : Type 0 where
  stop : Step
  fault : Step
  print : List ℕ → Place → List ℕ → Step

abbrev pub printed_step : Printed → Step
printed_step none = fault
printed_step (some (t, args)) = print t in_text args

module _ (conversion : Width → ℕ → List ℕ → Printed) where
  abbrev pub step : Place → ℕ → List ℕ → Step
  step in_text c args =
      if c == 0
      then stop
      else if c == b'%'
      then print [] percent args
      else print (c ∷ []) in_text args
  step percent c args =
      if c == b'l'
      then print [] after_l args
      else if c == b'h'
      then print [] after_h args
      else if c == b'L'
      then print [] (behind flag_long_double) args
      else if c == b'z'
      then print [] (behind flag_z) args
      else printed_step (conversion no_flag c args)
  step after_l c args =
      if c == b'l' then print [] (behind flag_ll) args else printed_step (conversion flag_l c args)
  step after_h c args =
      if c == b'h' then print [] (behind flag_hh) args else printed_step (conversion flag_h c args)
  step (behind w) c args = printed_step (conversion w c args)

  -- The text of the whole format. At its end stands a terminator, and nothing may be read behind it.
  unfoldable pub text_from : Place → List ℕ → List ℕ → Option (List ℕ)
  text_from in_text [] args = some []
  text_from _ [] args = none
  text_from p (c ∷ s) args = elim (step p c args) [
    | stop ↦ some []
    | fault ↦ none
    | print t p' args' ↦ text_from p' s args' >>= λ u. some (t ++ u)
  ]
