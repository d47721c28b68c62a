-- ===== src/Shell.antt =====
-- The shell of bin/sh/sh.c: its variables, its aliases, its history and the words of a command line.
-- A string is the list of its bytes up to the end of its buffer; `none` is a fault.
mod Copy
pub mod Expand
pub mod Names
pub mod Recall
mod Search
pub mod Split
mod Tests
use myunixlikeos.Common.{
  ℕ, List, Option, [], if◌then◌else◌, ltb, none, some, suc, zero, ◌-◌, ◌>>=◌, ◌∷◌, set, get_elem?,
  take, ◌++◌, leb, ◌&&◌, ◌+◌, ◌==◌, ◌||◌, Bool, ◌++◌, false, length, not, true,
}
use myunixlikeos.Common.Int.{pos, negsuc, ℤ, negsuc}
use myunixlikeos.Libc.Str.{strncpy, str_eq, strcpy, strlen}

-- A variable of the environment or an alias.
pub record Entry : Type 0 where
  pub name : List ℕ
  pub value : List ℕ

-- An array of such entries, with the number of those in use.
pub record Entries : Type 0 where
  pub slots : List Entry
  pub count : ℕ

-- Both tables, with the sizes of their arrays.
pub record Sizes : Type 0 where
  pub slots : ℕ
  pub name : ℕ
  pub value : ℕ

-- MAX_ENV_VARS, MAX_ENV_NAME and MAX_ENV_VALUE
abbrev pub env_sizes : Sizes
env_sizes = record { slots = 64; name = 64; value = 256 }

-- MAX_ALIASES, MAX_ALIAS_NAME and MAX_ALIAS_VALUE
abbrev pub alias_sizes : Sizes
alias_sizes = record { slots = 32; name = 32; value = 128 }

-- `strncpy(dst, src, size - 1); dst[size - 1] = '\0'`
unfoldable pub copy_string : (size : ℕ) → (src dst : List ℕ) → Option (List ℕ)
copy_string size src dst = strncpy dst src (size - 1) >>= λ d. some (set d (size - 1) 0)

-- An entry found behind one more.
abbrev pub one_further : Option (ℕ × Entry) → Option (ℕ × Entry)
one_further none = none
one_further (some (i, e)) = some (suc i, e)

-- The first of `n` entries with the name: its index, and the entry.
unfoldable pub find_entry : ℕ → List Entry → List ℕ → Option (ℕ × Entry)
find_entry zero es name = none
find_entry (suc n) [] name = none
find_entry (suc n) (e ∷ es) name =
    let rest = find_entry n es name in if str_eq e.name name then some (0, e) else one_further rest

unfoldable pub find_name : Entries → List ℕ → Option (ℕ × Entry)
unfolding find_entry
find_name t name = find_entry t.count t.slots name

-- A new value for the entry at `i`.
unfoldable pub put_value : Sizes → ℕ → Entry → List ℕ → Entries → Option Entries
unfolding copy_string
put_value z i e value t = copy_string z.value value e.value >>= λ v.
    some (record t { slots = set t.slots i (record e { value = v }) })

-- The entry behind the last one in use.
unfoldable pub put_new : Sizes → (name value : List ℕ) → Entries → Option Entries
unfolding copy_string
put_new z name value t = get_elem? t.slots t.count >>= λ e. copy_string z.name name e.name >>= λ n.
    copy_string z.value value e.value >>= λ v.
    some
      (record { slots = set t.slots t.count (record { name = n; value = v }); count = suc t.count })

-- What `set_env_var` does with what it finds: with a full table a new name is left out.
unfoldable pub set_found : Option (ℕ × Entry) → (name value : List ℕ) → Entries → Option Entries
unfolding put_value put_new
set_found (some (i, e)) name value t = put_value env_sizes i e value t
set_found none name value t =
    if ltb t.count env_sizes.slots then put_new env_sizes name value t else some t

-- Of two strings that are there.
unfoldable pub set_env_var : (name value : List ℕ) → Entries → Option Entries
unfolding find_name set_found
set_env_var name value t = set_found (find_name t name) name value t

abbrev pub value_of : Option (ℕ × Entry) → Option (List ℕ)
value_of none = none
value_of (some (i, e)) = some e.value

-- `none` is NULL.
unfoldable pub get_env_var : List ℕ → Entries → Option (List ℕ)
unfolding find_name
get_env_var name t = value_of (find_name t name)

abbrev pub set_all : List (List ℕ × List ℕ) → Entries → Option Entries
set_all [] t = some t
set_all ((name, value) ∷ rest) t = set_env_var name value t >>= λ t'. set_all rest t'

-- PATH, HOME, USER, SHELL and PWD, as strings with their terminators.
abbrev pub default_env : List (List ℕ × List ℕ)
default_env =
    (
      80 ∷ 65 ∷ 84 ∷ 72 ∷ 0 ∷ [],
      47 ∷ 98 ∷ 105 ∷ 110 ∷ 58 ∷ 47 ∷ 117 ∷ 115 ∷ 114 ∷ 47 ∷ 98 ∷ 105 ∷ 110 ∷ 0 ∷ [],
    )
    ∷ (72 ∷ 79 ∷ 77 ∷ 69 ∷ 0 ∷ [], 47 ∷ 0 ∷ [])
    ∷ (85 ∷ 83 ∷ 69 ∷ 82 ∷ 0 ∷ [], 114 ∷ 111 ∷ 111 ∷ 116 ∷ 0 ∷ [])
    ∷ (83 ∷ 72 ∷ 69 ∷ 76 ∷ 76 ∷ 0 ∷ [], 47 ∷ 98 ∷ 105 ∷ 110 ∷ 47 ∷ 115 ∷ 104 ∷ 0 ∷ [])
    ∷ (80 ∷ 87 ∷ 68 ∷ 0 ∷ [], 47 ∷ 0 ∷ [])
    ∷ []

unfoldable pub init_default_env : Entries → Option Entries
unfolding set_env_var
init_default_env t = set_all default_env t

abbrev pub add_found : Option (ℕ × Entry) → (name value : List ℕ) → Entries → Option Entries
unfolding put_value put_new
add_found (some (i, e)) name value t = put_value alias_sizes i e value t
add_found none name value t = put_new alias_sizes name value t

-- A full table refuses also a new value for an alias that is there.
unfoldable pub add_alias : (name value : List ℕ) → Entries → Option Entries
unfolding find_name
add_alias name value t =
    if leb alias_sizes.slots t.count
      || leb alias_sizes.name (strlen name)
      || leb alias_sizes.value (strlen value)
    then some t
    else add_found (find_name t name) name value t

-- The copy of one entry over the one before it.
abbrev pub copy_entry : Entry → Entry → Option Entry
unfolding copy_string
copy_entry src dst = copy_string alias_sizes.name src.name dst.name >>= λ n.
    copy_string alias_sizes.value src.value dst.value >>= λ v. some (record { name = n; value = v })

-- The loop from index `i` on, with `n` rounds left.
unfoldable pub shift_entries : (n i : ℕ) → List Entry → Option (List Entry)
shift_entries zero i es = some es
shift_entries (suc n) i es = get_elem? es (i + 1) >>= λ src.
    get_elem? es i >>= λ dst. copy_entry src dst >>= λ e. shift_entries n (i + 1) (set es i e)

unfoldable pub remove_found : Option (ℕ × Entry) → Entries → Option Entries
unfolding shift_entries
remove_found none t = some t
remove_found (some (i, e)) t = shift_entries (t.count - 1 - i) i t.slots >>= λ es.
    some (record { slots = es; count = t.count - 1 })

unfoldable pub remove_alias : List ℕ → Entries → Option Entries
unfolding find_name remove_found
remove_alias name t = remove_found (find_name t name) t

-- The lines, how many of them are in use, and the line that the arrow keys have reached.
pub record History : Type 0 where
  pub lines : List (List ℕ)
  pub count : ℕ
  pub history_pos : ℤ

abbrev pub max_history : ℕ
max_history = 100

-- `strcpy` of every line over the one before it.
unfoldable pub shift_lines : List (List ℕ) → Option (List (List ℕ))
shift_lines [] = some []
shift_lines (a ∷ []) = some (a ∷ [])
shift_lines (a ∷ b ∷ rest) = strcpy a b >>= λ a'. shift_lines (b ∷ rest) >>= λ r. some (a' ∷ r)

abbrev pub copy_line : ℕ → List ℕ → List (List ℕ) → Option (List (List ℕ))
copy_line i cmd lines =
    get_elem? lines i >>= λ old. strcpy old cmd >>= λ new. some (set lines i new)

unfoldable pub add_to_history : List ℕ → History → Option History
unfolding shift_lines
add_to_history cmd h =
    if ltb h.count max_history
    then (copy_line h.count cmd h.lines >>= λ ls.
        some (record { lines = ls; count = h.count + 1; history_pos = pos (h.count + 1) }))
    else (shift_lines h.lines >>= λ shifted. copy_line (max_history - 1) cmd shifted >>= λ ls.
        some (record { lines = ls; count = h.count; history_pos = pos h.count }))

-- The line that the returned pointer leads to, or `none` for NULL, and the history afterwards.
unfoldable pub get_history_prev : History → Option (List ℕ) × History
get_history_prev h = elim h.history_pos [
  | pos n ↦
      if n == 0
      then (none, h)
      else (get_elem? h.lines (n - 1), record h { history_pos = pos (n - 1) })
  | negsuc n ↦ (none, h)
]

unfoldable pub get_history_next : History → Option (List ℕ) × History
get_history_next h = elim h.history_pos [
  | pos n ↦
      if ltb (n + 1) h.count
      then (get_elem? h.lines (n + 1), record h { history_pos = pos (n + 1) })
      else (none, h)
  | negsuc n ↦
      if n == 0 && ltb 0 h.count
      then (get_elem? h.lines 0, record h { history_pos = pos 0 })
      else (none, h)
]

-- Where `split_args` stands: between two words, in a word, or in one behind a quote.
pub data WordPlace : Type 0 where
  between : WordPlace
  in_word : List ℕ → WordPlace
  in_quotes : ℕ → List ℕ → WordPlace

abbrev pub is_separator : ℕ → Bool
is_separator c = c == b' ' || c == 9

abbrev pub is_quote : ℕ → Bool
is_quote c = c == b'"' || c == 39

-- The place behind a character that starts a word.
abbrev pub start_word : ℕ → WordPlace
start_word c = if is_quote c then in_quotes c [] else in_word (c ∷ [])

-- The words in a command line, with room for `n` more: what argv leads to.
unfoldable pub split : ℕ → WordPlace → List ℕ → List (List ℕ)
split n between [] = []
split n (in_word w) [] = w ∷ []
split n (in_quotes q w) [] = w ∷ []
split zero between (c ∷ s) = []
split (suc n) between (c ∷ s) =
    let rest = split (suc n) (if is_separator c then between else start_word c) s in
    if c == 0 then [] else rest
split n (in_word w) (c ∷ s) =
    let ends = c == 0 || is_separator c in
    let rest =
      split (if ends then n - 1 else n) (if ends then between else in_word (w ++ c ∷ [])) s in
    if c == 0 then w ∷ [] else if is_separator c then w ∷ rest else rest
split n (in_quotes q w) (c ∷ s) =
    let rest =
      split (if c == q then n - 1 else n) (if c == q then between else in_quotes q (w ++ c ∷ []))
        s in
    if c == 0 then w ∷ [] else if c == q then w ∷ rest else rest

unfoldable pub split_args : List ℕ → List (List ℕ)
unfolding split
split_args input = split 16 between input

-- The characters of a variable's name.
abbrev pub is_name_char : ℕ → Bool
is_name_char c =
    leb b'a' c && leb c b'z' || leb b'A' c && leb c b'Z' || leb b'0' c && leb c b'9' || c == b'_'

-- Characters behind those that `output` holds; `none` is a write behind its 256 bytes.
abbrev pub extend_output : (out more : List ℕ) → Option (List ℕ)
extend_output out more = if ltb 256 (length out + length more) then none else some (out ++ more)

-- The value of the variable that was named, cut to what `size` leaves.
unfoldable pub put_variable : (size : ℕ) → Entries → (name out : List ℕ) → Option (List ℕ)
unfolding get_env_var
put_variable size t name out = elim (get_env_var (take 63 name) t) [
  | none ↦ some out
  | some value ↦
      let whole = strlen value in
      let len = if leb (size - 1) (length out + whole) then size - 1 - length out else whole in
      extend_output out (take len value)
]

-- Where `expand_env_vars` stands: outside the variables, or in the name of one.
pub data Expanding : Type 0 where
  plain_text : Expanding
  in_name : List ℕ → Expanding

-- The output before the character `c` is looked at outside the variables.
abbrev pub end_name : (size : ℕ) → Entries → Expanding → (c : ℕ) → List ℕ → Option (List ℕ)
unfolding put_variable
end_name size t plain_text c out = some out
end_name size t (in_name name) c out =
    if not (c == 0) && is_name_char c then some out else put_variable size t name out

-- Where the loop stands behind `c`, and whether `c` itself goes to the output.
abbrev pub next_place : Expanding → ℕ → Expanding × Bool
next_place (in_name name) c =
    if is_name_char c
    then (in_name (name ++ c ∷ []), false)
    else (if c == b'$' then (in_name [], false) else (plain_text, true))
next_place plain_text c = if c == b'$' then (in_name [], false) else (plain_text, true)

-- In the name of a variable the bound on the output is not tested.
abbrev pub tests_bound : Expanding → ℕ → Bool
tests_bound plain_text c = true
tests_bound (in_name name) c = not (is_name_char c)

-- The output for a line.
unfoldable pub expand : (size : ℕ) → Entries → Expanding → (input out : List ℕ) → Option (List ℕ)
unfolding end_name
expand size t p [] out = end_name size t p 0 out
expand size t p (c ∷ s) out = end_name size t p c out >>= λ out'.
    (let (p', copies) = next_place p c in
      extend_output out' (if copies then c ∷ [] else []) >>= λ more.
      (let full = tests_bound p c && leb (size - 1) (length out') in
        let rest = expand size t p' s more in if c == 0 || full then some out' else rest))

-- The command line afterwards: ARG_MAX is its size, and the output ends in a terminator.
unfoldable pub expand_env_vars : Entries → List ℕ → Option (List ℕ)
unfolding expand
expand_env_vars t input = expand 4096 t plain_text input [] >>= λ out.
    if ltb 255 (length out) then none else strcpy input out
