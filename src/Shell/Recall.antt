-- ===== src/Shell/Recall.antt =====
-- The history of bin/sh/sh.c.
use myunixlikeos.Common.{
  ℕ, List, [], if◌then◌else◌, ltb, some, suc, zero, ◌-◌, ◌∷◌, ◌++◌, set, get_elem?, length, drop,
  ◌≡◌, ◌<◌, ◌≤◌, arith, refl, All, get_elem?-set_self, All-get_elem?, Bool-cases, get_elem?_total,
  inl, inr, ◌+◌, false, ◌==◌, ◌∙◌,
}
use myunixlikeos.Common.Int.{pos}
use myunixlikeos.Libc.Str.{strlen}
use myunixlikeos.Libc.StrLaws.{c_str, strcpy_lem, strlen-c_str, length-c_str, c_str-c_str_append}
use myunixlikeos.Shell.{
  History, copy_line, max_history, shift_lines, add_to_history, get_history_prev,
}

-- Lines of 256 bytes.
abbrev pub IsLine : List ℕ → Type 0
IsLine l = length l ≡ 256

pub record IsHistory (h : History) : Type 0 where
  pub full : length h.lines ≡ max_history
  pub fits : h.count ≤ max_history
  pub sized : All IsLine h.lines

strlen-le : (s : List ℕ) → strlen s ≤ length s
strlen-le s = omega (arith, strlen-c_str s, length-c_str s)

-- The shift keeps the last line.
shift_lines_last :
    (ls : List (List ℕ)) (n : ℕ)
    → All IsLine ls
    → length ls ≡ suc n
    → (r : List (List ℕ)) × (shift_lines ls ≡ some r)
      × (length r ≡ suc n)
      × (get_elem? r n ≡ get_elem? ls n)
unfolding shift_lines
shift_lines_last [] n h e = absurd (omega arith)
shift_lines_last (a ∷ []) zero h e = (a ∷ [], refl, refl, refl)
shift_lines_last (a ∷ []) (suc n) h e = absurd (omega arith)
shift_lines_last (a ∷ b ∷ rest) zero h e = absurd (omega arith)
shift_lines_last (a ∷ b ∷ rest) (suc n) (ha, hs) e =
    let copies = (strcpy_lem a b).0 (omega (arith, strlen-le b, ha, hs.0)) in
    let (r, run, len, last) = shift_lines_last (b ∷ rest) n hs (omega (arith, e)) in
    ((c_str b ++ drop (strlen b) a) ∷ r, rw (copies, run) refl, omega (arith, len), last)

-- The line that the newest command goes to: the first free one, or the last one of a full history.
abbrev pub newest : History → ℕ
newest h = if ltb h.count max_history then h.count else max_history - 1

-- A line with a command over the start of it.
copied :
    (cmd : List ℕ) (lines : List (List ℕ)) (i : ℕ) (old : List ℕ)
    → get_elem? lines i ≡ some old
    → i < length lines
    → IsLine old
    → strlen cmd ≤ 256
    → (new : List ℕ) × (copy_line i cmd lines ≡ some (set lines i new))
      × (get_elem? (set lines i new) i ≡ some new)
      × (c_str new ≡ c_str cmd ++ c_str (drop (strlen cmd) old))
copied cmd lines i old at within size short =
    let copies = (strcpy_lem old cmd).0 (omega (arith, size)) in
    let new = c_str cmd ++ drop (strlen cmd) old in
    (new, rw (at, copies) refl, get_elem?-set_self lines i new within, c_str-c_str_append cmd _)

previous :
    (lines : List (List ℕ)) (c n : ℕ) (line : List ℕ)
    → c ≡ n + 1
    → get_elem? lines n ≡ some line
    → (get_history_prev (record { lines = lines; count = c; history_pos = pos c })).0 ≡ some line
unfolding get_history_prev
previous lines c n line e at =
    let some_left : (c == 0) ≡ false = ground arith in
    let before : c - 1 ≡ n = omega arith in rw (some_left, before) at

-- After a command of at most 256 characters has gone into the history, the arrow up gives it, but
-- followed by the end of what stood in its line before; and the history is one longer, unless it was
-- full.
pub get_history_prev-add_to_history :
    (cmd : List ℕ) {h : History}
    → IsHistory h
    → strlen cmd ≤ 256
    → (h' : History) × (old : List ℕ) × (line : List ℕ) × (add_to_history cmd h ≡ some h')
      × (get_elem? h.lines (newest h) ≡ some old)
      × ((get_history_prev h').0 ≡ some line)
      × (c_str line ≡ c_str cmd ++ c_str (drop (strlen cmd) old))
      × (h'.count ≡ newest h + 1)
unfolding add_to_history get_history_prev
get_history_prev-add_to_history cmd {h} g short = elim (Bool-cases (ltb h.count max_history)) [
  | inl room ↦
      let (old, at) = get_elem?_total h.lines h.count (ground (arith, g.full)) in
      let size = All-get_elem? IsLine h.lines h.count old g.sized at in
      let (new, run, got, text) =
        copied cmd h.lines h.count old at (ground (arith, g.full)) size short in
      let h' : History = record {
        lines = set h.lines h.count new;
        count = h.count + 1;
        history_pos = pos (h.count + 1);
      } in
      rw room (
        h',
        old,
        new,
        rw run refl,
        at,
        previous h'.lines (h.count + 1) h.count new refl got,
        text,
        refl,
      )
  | inr full ↦
      let (shifted, moved, len, last) = shift_lines_last h.lines 99 g.sized g.full in
      let (old, at) = get_elem?_total h.lines 99 (omega (arith, g.full)) in
      let size = All-get_elem? IsLine h.lines 99 old g.sized at in
      let (new, run, got, text) =
        copied cmd shifted 99 old (last ∙ at) (omega (arith, len)) size short in
      let all : h.count ≡ 100 = ground (arith, g.fits) in
      let h' : History = record {
        lines = set shifted 99 new;
        count = h.count;
        history_pos = pos h.count;
      } in
      rw full (
        h',
        old,
        new,
        rw (moved, run) refl,
        at,
        previous h'.lines h.count 99 new all got,
        text,
        all,
      )
]
