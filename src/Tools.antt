-- ===== src/Tools.antt =====
-- The commands that print parts of a file or count in it: bin/head/head.c, bin/tail/tail.c and
-- bin/wc/wc.c. A command takes its arguments behind its own name and gives what it prints; counts
-- and numbers fit their C types.
pub mod Lines
pub mod Wc
mod Tests
use myunixlikeos.Common.{
  ℕ, Bool, List, Option, [], if◌then◌else◌, leb, ltb, none, some, ◌&&◌, ◌*◌, ◌+◌, ◌-◌, ◌==◌, ◌||◌,
  ◌∷◌, ◌>>=◌, true, false, ◌++◌, drop,
}
use myunixlikeos.Libc.Str.{deref, strchr}
use myunixlikeos.Vfs.{Fs, Text, is_file, node, vfs_lookup}

-- How a command ends: `misused` and `cannot_open` are the exits with 1 and a message.
pub data Ending : Type 0 where
  misused : Ending
  cannot_open : Ending
  printed : List ℕ → Ending

abbrev pub newline : ℕ
newline = 10

-- The digits of an argument; anything else in it is skipped.
unfoldable pub parse_number : ℕ → List ℕ → ℕ
parse_number n [] = n
parse_number n (c ∷ cs) =
    if c == 0
    then n
    else parse_number (if leb b'0' c && leb c b'9' then n * 10 + (c - b'0') else n) cs

-- The number of lines and the file that the arguments name, where both are there.
unfoldable pub parse_args : List (List ℕ) → Option (ℕ × List ℕ)
unfolding parse_number
parse_args [] = none
parse_args (a ∷ others) =
    if deref a == b'-' && deref (drop 1 a) == b'n'
    then elim others [ n ∷ file ∷ _ ↦ some (parse_number 0 n, file) | n ∷ [] ↦ none | [] ↦ none ]
    else some (10, a)

-- The content of the file that a path leads to: `none` inside is a path that cannot be opened.
unfoldable pub file_text : Fs → List ℕ → Option (Option Text)
file_text fs path = vfs_lookup fs (some path) >>= λ l. elim l [
  | none ↦ some none
  | some i ↦ node fs i >>= λ n. some (if is_file n then some n.content else none)
]

-- What a command prints of the content, which a file without a buffer has not.
abbrev pub run_on : Fs → List ℕ → (List ℕ → List ℕ) → Option Ending
run_on fs path f = file_text fs path >>= λ t. some (elim t [
  | none ↦ cannot_open
  | some text ↦ elim text [ none ↦ printed [] | some content ↦ printed (f content) ]
])

-- The loop of `head`, with the lines that it has printed so far.
unfoldable pub head_loop : (printed num : ℕ) → List ℕ → List ℕ
head_loop p n [] = []
head_loop p n (c ∷ cs) =
    let rest = head_loop (if c == newline then p + 1 else p) n cs in
    if c == 0 || leb n p then [] else c ∷ rest

unfoldable pub cmd_head : Fs → List (List ℕ) → Option Ending
cmd_head fs args = elim (parse_args args) [
  | none ↦ some misused
  | some (n, file) ↦ run_on fs file (head_loop 0 n)
]

unfoldable pub count_lines : ℕ → List ℕ → ℕ
count_lines total [] = total
count_lines total (c ∷ cs) =
    if c == 0 then total else count_lines (if c == newline then total + 1 else total) cs

-- `total - num` in an `int`, and 1 where that is less.
abbrev pub start_line : ℕ → ℕ → ℕ
start_line total num = if ltb (total - num) 1 then 1 else total - num

-- The second loop of `tail`.
unfoldable pub tail_loop : (current start : ℕ) → List ℕ → List ℕ
tail_loop cur start [] = []
tail_loop cur start (c ∷ cs) =
    let rest = tail_loop (if c == newline then cur + 1 else cur) start cs in
    if c == 0 then [] else if leb start cur then c ∷ rest else rest

abbrev pub tail_text : ℕ → List ℕ → List ℕ
tail_text n content = tail_loop 1 (start_line (count_lines 1 content) n) content

unfoldable pub cmd_tail : Fs → List (List ℕ) → Option Ending
cmd_tail fs args = elim (parse_args args) [
  | none ↦ some misused
  | some (n, file) ↦ run_on fs file (tail_text n)
]

-- The counters of `wc`, and whether a word goes on.
pub record Counts : Type 0 where
  pub lines : ℕ
  pub words : ℕ
  pub chars : ℕ
  pub in_word : Bool

abbrev pub is_blank : ℕ → Bool
is_blank c = c == b' ' || c == 9 || c == 13

unfoldable pub count_char : ℕ → Counts → Counts
count_char c k =
    if c == newline
    then record k { chars = k.chars + 1; lines = k.lines + 1; in_word = false }
    else if is_blank c
    then record k { chars = k.chars + 1; in_word = false }
    else if k.in_word
    then record k { chars = k.chars + 1 }
    else record k { chars = k.chars + 1; words = k.words + 1; in_word = true }

unfoldable pub wc_loop : List ℕ → Counts → Counts
unfolding count_char
wc_loop [] k = k
wc_loop (c ∷ cs) k = let rest = wc_loop cs (count_char c k) in if c == 0 then k else rest

-- A last line with no newline behind it counts when it ends in a word.
unfoldable pub count : List ℕ → Counts
unfolding wc_loop
count content =
    let k = wc_loop content (record { lines = 0; words = 0; chars = 0; in_word = false }) in
    if k.in_word then record k { lines = k.lines + 1 } else k

abbrev pub has_flag : List ℕ → ℕ → Bool
has_flag a c = elim (strchr a c) [ none ↦ false | some _ ↦ true ]

abbrev pub if_flag : Bool → ℕ → List ℕ
if_flag b n = if b then n ∷ [] else []

-- The numbers that `wc` prints, which for a file with no buffer are three zeros.
abbrev pub numbers : (l w c : Bool) → Text → List ℕ
numbers l w c none = 0 ∷ 0 ∷ 0 ∷ []
numbers l w c (some content) =
    let k = count content in if_flag l k.lines ++ if_flag w k.words ++ if_flag c k.chars

unfoldable pub wc_file : Fs → List ℕ → (l w c : Bool) → Option Ending
wc_file fs path l w c = file_text fs path >>= λ t.
    some (elim t [ none ↦ cannot_open | some text ↦ printed (numbers l w c text) ])

unfoldable pub cmd_wc : Fs → List (List ℕ) → Option Ending
unfolding wc_file
cmd_wc fs [] = some misused
cmd_wc fs (a ∷ others) =
    if deref a == b'-'
    then elim others [
      | [] ↦ some misused
      | file ∷ _ ↦ wc_file fs file (has_flag a b'l') (has_flag a b'w') (has_flag a b'c')
    ]
    else wc_file fs a true true true
