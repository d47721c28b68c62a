-- ===== src/Shell/Tests.antt =====
-- The shell of bin/sh/sh.c at concrete inputs.
use myunixlikeos.Common.{
  All, AllBelow, AllBelow-replicate, length-replicate, zero, ℕ, List, [], arith, some, ◌∷◌, ◌≡◌,
  replicate, suc, refl,
}
use myunixlikeos.Common.Int.{negsuc}
use myunixlikeos.Libc.Str.{strlen}
use myunixlikeos.Shell.{Entries, Entry, History, set_env_var, split_args}
use myunixlikeos.Shell.Names.{IsEnvironment, IsEntry, Sets, get_env_var-set_env_var}
use myunixlikeos.Shell.Recall.{IsHistory, IsLine}
use myunixlikeos.Shell.Split.{IsWord, join, split_args-join}

abbrev blank_variable : Entry
blank_variable = record { name = replicate 64 0; value = replicate 256 0 }

abbrev empty_env : Entries
empty_env = record { slots = replicate 64 blank_variable; count = 0 }

zeros : (n : ℕ) → AllBelow 256 (replicate n 0)
zeros n = AllBelow-replicate 256 n 0 (omega arith)

All-replicate : (n : ℕ) → All IsEntry (replicate n blank_variable)
All-replicate zero = tt
All-replicate (suc n) = (
  record {
    name_size = length-replicate {A = ℕ} 64 0;
    value_size = length-replicate {A = ℕ} 256 0;
    name_bytes = zeros 64;
    value_bytes = zeros 256;
  },
  All-replicate n,
)

empty_env-IsEnvironment : IsEnvironment empty_env
empty_env-IsEnvironment = record {
  sized = length-replicate 64 blank_variable;
  fits = omega arith;
  entries = All-replicate 64;
}

-- "A" and "b"
abbrev a_name : List ℕ
a_name = 65 ∷ 0 ∷ []

abbrev b_value : List ℕ
b_value = 98 ∷ 0 ∷ []

get_env_var-set_env_var_example :
    (t : Entries) × (set_env_var a_name b_value empty_env ≡ some t)
    × Sets a_name b_value empty_env t
unfolding strlen
get_env_var-set_env_var_example =
    get_env_var-set_env_var empty_env-IsEnvironment a_name b_value (omega arith) (omega arith)
      (omega arith) (omega arith)

abbrev empty_history : History
empty_history = record {
  lines = replicate 100 (replicate 256 0);
  count = 0;
  history_pos = negsuc 0;
}

All-lines : (n : ℕ) → All IsLine (replicate n (replicate 256 0))
All-lines zero = tt
All-lines (suc n) = (length-replicate {A = ℕ} 256 0, All-lines n)

empty_history-IsHistory : IsHistory empty_history
empty_history-IsHistory = record {
  full = length-replicate {A = List ℕ} 100 (replicate 256 0);
  fits = omega arith;
  sized = All-lines 100;
}

-- "ls" and "-l"
abbrev two_words : List (List ℕ)
two_words = (108 ∷ 115 ∷ []) ∷ (45 ∷ 108 ∷ []) ∷ []

two_words-IsWord : All IsWord two_words
two_words-IsWord = (
  (refl, (omega arith, refl), ((omega arith, refl), tt)),
  ((refl, (omega arith, refl), ((omega arith, refl), tt)), tt),
)

split_args-join_example : split_args (join two_words) ≡ two_words
split_args-join_example = split_args-join two_words two_words-IsWord (omega arith)
