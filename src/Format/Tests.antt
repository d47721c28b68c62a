-- ===== src/Format/Tests.antt =====
-- Formatted output of lib/libc/stdio at concrete inputs.
use myunixlikeos.Common.{ℕ, true, List, [], arith, refl, some, none, ◌∷◌, ◌≡◌, ◌^◌, length}
use myunixlikeos.Common.Int.{negsuc, ◌-ℤ◌}
use myunixlikeos.Format.{
  Width, Printed, digits, print_i, print_u, sprintf_conversion, print_conversion, text_from,
  in_text,
}
use myunixlikeos.Format.Buffer.{Stream, vfprintf, vfprintf_lem, written}
use myunixlikeos.Format.Numbers.{parse_number-print_u, value_i, value_i-print_i}
use myunixlikeos.Tools.{parse_number}

abbrev no_strings : ℕ → List ℕ
no_strings a = []

-- "n=%d\n"
abbrev format : List ℕ
format = b'n' ∷ b'=' ∷ b'%' ∷ b'd' ∷ 10 ∷ 0 ∷ []

abbrev minus_five : List ℕ
minus_five = b'n' ∷ b'=' ∷ b'-' ∷ b'5' ∷ 10 ∷ []

abbrev arguments : List ℕ
arguments = 0xfffffffb ∷ []

-- The least `int` prints as "-(".
print_i_least : print_i 32 (2 ^ 31) ≡ b'-' ∷ b'(' ∷ []
print_i_least = refl

text_of_format :
    text_from (sprintf_conversion no_strings) in_text format arguments ≡ some minus_five
unfolding text_from sprintf_conversion digits
text_of_format = refl

abbrev no_floats : Width → ℕ → List ℕ → Printed
no_floats w c args = none

text_of_stream :
    text_from (print_conversion no_floats no_strings) in_text format arguments ≡ some minus_five
unfolding text_from print_conversion digits
text_of_stream = refl

abbrev stdout : Stream
stdout = record { pending = b'>' ∷ []; size = 2048; line_buffered = true; writes = [] }

vfprintf_lem_example :
    (g : Stream) × (vfprintf no_floats no_strings format arguments stdout ≡ some (0, g))
    × (length g.pending ≡ 0)
    × (written g.writes ≡ b'>' ∷ minus_five)
unfolding written
vfprintf_lem_example =
    vfprintf_lem no_floats no_strings format arguments minus_five stdout text_of_stream
      (omega arith)

parse_number-print_u_example : parse_number 0 (print_u 4294967295) ≡ 4294967295
parse_number-print_u_example = parse_number-print_u 4294967295 (omega arith)

value_i-print_i_example : value_i (print_i 32 0xfffffffb) ≡ negsuc 4
unfolding ◌-ℤ◌
value_i-print_i_example = value_i-print_i 0xfffffffb (omega arith) (omega arith)
