-- ===== src/FileCache/Stale.antt =====
-- `file_cache_put` into a slot of kernel/file_cache.c that keeps the end of a longer name.
use myunixlikeos.FileCache.Lookup.{put-eq}
use native.Mathlib.Numerals.{towards_suc}
use myunixlikeos.Common.{
  ℕ, AllBelow, AllBelow-append, AllBelow-drop, Bool-cases, List, [], ap, arith, drop, get_elem?,
  inl, inr, none, some, suc, zero, ◌++◌, ◌+◌, ◌∙◌, ◌∷◌, ◌≡◌, subst, All-get_elem?, false, length,
  length-append, ltb, refl, ◌<◌, ◌≤◌, set, sym, ◌≢◌,
}
use myunixlikeos.FileCache.{
  Cache, Entry, find, position, entry_size, get, max_entries, put, least_used,
}
use myunixlikeos.FileCache.Laws.{IsValid, written, after, EntryIsValid, slot}
use myunixlikeos.Libc.StrLaws.{c_str, AllBelow-c_str, c_str-c_str_append, str_eq_iff}
use myunixlikeos.Libc.Str.{str_eq, strlen}

-- A slot whose old name is longer shows through behind the new one.
unmatched :
    (n i k : ℕ) (es : List Entry) (name : List ℕ) (e : Entry)
    → find n i es name ≡ none
    → str_eq e.filename name ≡ false
    → find n i (set es k e) name ≡ none
unfolding find
unmatched zero i k es name e f m = refl
unmatched (suc n) i k [] name e f m = refl
unmatched (suc n) i zero (x ∷ es) name e f m = ground arith
unmatched (suc n) i (suc k) (x ∷ es) name e f m = ground (arith, unmatched n (i + 1) k es name e)

unmatched_last :
    (k i : ℕ) (es : List Entry) (name : List ℕ) (e : Entry)
    → find k i es name ≡ none
    → str_eq e.filename name ≡ false
    → find (k + 1) i (set es k e) name ≡ none
unfolding find
unmatched_last k i [] name e f m = simp towards_suc
unmatched_last zero i (x ∷ es) name e f m = rw m
unmatched_last (suc k) i (x ∷ es) name e f m =
    simp towards_suc (ground (arith, unmatched_last k (i + 1) es name e))

nil_of_append : (xs ys : List ℕ) → xs ++ ys ≡ xs → ys ≡ []
nil_of_append xs [] e = refl
nil_of_append xs (y ∷ ys) e = absurd (omega (arith, ap length e, length-append xs (y ∷ ys)))

written_differs :
    (name src : List ℕ) (size : ℕ) (e : Entry)
    → AllBelow 256 name
    → EntryIsValid e
    → c_str (drop (strlen name) e.filename) ≢ []
    → str_eq (written none name src size e).filename name ≡ false
written_differs name src size e bytes ok left =
    let rest = drop (strlen name) e.filename in
    elim (Bool-cases (str_eq (c_str name ++ rest) name)) [
      | inl same ↦ absurd (
          left (
            nil_of_append (c_str name) (c_str rest) (
              sym (c_str-c_str_append name rest)
              ∙ (str_eq_iff (c_str name ++ rest) name
                    (AllBelow-append 256 (c_str name) rest (AllBelow-c_str name bytes)
                      (AllBelow-drop 256 (strlen name) e.filename ok.3))
                    bytes).0
                  same)))
      | inr other ↦ other
    ]

position-after_stale :
    (name src : List ℕ) (size : ℕ) (c : Cache) (e : Entry)
    → position c name ≡ none
    → str_eq (written none name src size e).filename name ≡ false
    → position (after none name src size c e) name ≡ none
position-after_stale name src size c e p m = elim (Bool-cases (ltb c.used max_entries)) [
  | inl room ↦ rw room (unmatched_last c.used 0 c.entries name (written none name src size e) p m)
  | inr full ↦ rw full (
      unmatched c.used 0 (least_used 0 c.entries 0xFFFF_FFFF 0) c.entries name
        (written none name src size e) p m)
]

get-none : (c : Cache) (name : List ℕ) → position c name ≡ none → (get name c).0 ≡ none
unfolding get
get-none c name p = rw (p, get)

-- A file that is not cached and goes into a slot whose old name is longer than the new one does not
-- become cached: `file_cache_put` succeeds, and a search for the name fails right after it.
pub get-put_stale :
    {c : Cache} (name src : List ℕ) (size : ℕ) (e : Entry)
    → IsValid c
    → AllBelow 256 name
    → strlen name < 64
    → size ≤ entry_size
    → size ≤ length src
    → get_elem? c.entries (slot name c) ≡ some e
    → position c name ≡ none
    → c_str (drop (strlen name) e.filename) ≢ []
    → (c' : Cache) × (put name src size c ≡ some c') × ((get name c').0 ≡ none)
get-put_stale {c} name src size e v bytes short small source held miss left =
    let ok = All-get_elem? EntryIsValid c.entries (slot name c) e v.each held in
    let done = put-eq name src size e v bytes short small source held in
    let c' = after none name src size c e in
    (
      c',
      subst (λ o. put name src size c ≡ some (after o name src size c e)) miss done,
      get-none c' name (
          position-after_stale name src size c e miss
            (written_differs name src size e bytes ok left)),
    )
