-- ===== src/FileCache/Laws.antt =====
-- What is cached, in kernel/file_cache.c, after a file was put.
use myunixlikeos.Libc.StrLaws.{c_str, memcpy_lem, strcpy_lem}
use myunixlikeos.Libc.Str.{str_eq, strlen}
use myunixlikeos.Common.{
  ℕ, List, [], arith, length, none, refl, set, some, suc, true, zero, ◌+◌, ◌<◌, ◌∷◌, ◌≡◌, ◌≤◌, All,
  AllBelow, Bool-cases, Option, if◌then◌else◌, inl, inr, ltb, drop, get_elem?, take, ◌++◌,
}
use myunixlikeos.FileCache.{
  Entry, find, Cache, entry_size, least_used, max_entries, position, put_at, plus_word, fill_entry,
}

-- What the first `i` entries not being `name` gives, whatever follows them.
pub find_shorter :
    (m n i : ℕ) (es : List Entry) (name : List ℕ)
    → m ≤ n
    → find n i es name ≡ none
    → find m i es name ≡ none
unfolding find
find_shorter zero n i es name h e = refl
find_shorter (suc m) zero i es name h e = absurd (omega arith)
find_shorter (suc m) (suc n) i [] name h e = refl
find_shorter (suc m) (suc n) i (x ∷ es) name h e = ground (arith, find_shorter m n (i + 1) es name)

pub find_first :
    (n i j : ℕ) (es : List Entry) (name : List ℕ)
    → find n i es name ≡ some j
    → (k : ℕ) × (j ≡ i + k) × (k < n) × (k < length es) × (find k i es name ≡ none)
unfolding find
find_first zero i j es name e = cc
find_first (suc n) i j [] name e = cc
find_first (suc n) i j (x ∷ es) name e = elim (Bool-cases (str_eq x.filename name)) [
  | inl m ↦ (0, ground arith, omega arith, omega arith, refl)
  | inr m ↦
      let (k, a, b, l, f) = find_first n (i + 1) j es name (rw m at e) in
      (suc k, omega arith, omega arith, omega arith, rw m f)
]

pub find-set :
    (k n i : ℕ) (es : List Entry) (name : List ℕ) (e : Entry)
    → k < n
    → k < length es
    → find k i es name ≡ none
    → str_eq e.filename name ≡ true
    → find n i (set es k e) name ≡ some (i + k)
unfolding find
find-set k zero i es name e h l f m = absurd (omega arith)
find-set k (suc n) i [] name e h l f m = absurd (omega arith)
find-set zero (suc n) i (x ∷ es) name e h l f m = ground arith
find-set (suc k) (suc n) i (x ∷ es) name e h l f m = ground (arith, find-set k n (i + 1) es name e)

-- The slot that `file_cache_put` writes to, from the result of its search.
abbrev pub target : Option ℕ → Cache → ℕ
target (some i) c = i
target none c = if ltb c.used max_entries then c.used else least_used 0 c.entries 0xFFFF_FFFF 0

abbrev pub slot : List ℕ → Cache → ℕ
slot name c = target (position c name) c

abbrev pub EntryIsValid : Entry → Type 0
EntryIsValid e =
    (length e.filename ≡ 64)
    × (length e.bytes ≡ entry_size)
    × (e.size ≤ entry_size)
    × AllBelow 256 e.filename

-- Sixteen entries whose buffers have their sizes.
pub record IsValid (c : Cache) : Type 0 where
  pub sixteen : length c.entries ≡ max_entries
  pub few : c.used ≤ max_entries
  pub each : All EntryIsValid c.entries

pub least_used-lt :
    (i : ℕ) (es : List Entry) (m k n : ℕ) → k < n → i + length es ≤ n → least_used i es m k < n
unfolding least_used
least_used-lt i [] m k n h l = h
least_used-lt i (e ∷ es) m k n h l = least_used-lt (i + 1) es _ _ n (ground arith) (omega arith)

pub target-lt :
    {c : Cache} (name : List ℕ) (o : Option ℕ)
    → IsValid c
    → position c name ≡ o
    → target o c < max_entries
target-lt {c} name none v e =
    ground (arith, v.sixteen, v.few, least_used-lt 0 c.entries 0xFFFF_FFFF 0 16)
target-lt {c} name (some i) v e =
    let (k, a, b, l, f) = find_first c.used 0 i c.entries name e in omega (arith, v.sixteen, a, l)

-- What `file_cache_put` makes of the entry in its slot.
abbrev pub written : Option ℕ → List ℕ → List ℕ → ℕ → Entry → Entry
written (some i) name src size e = record e {
  bytes = take size src ++ drop size e.bytes;
  size = size;
  timestamp = 0;
}
written none name src size e = record {
  filename = c_str name ++ drop (strlen name) e.filename;
  size = size;
  bytes = take size src ++ drop size e.bytes;
  hits = 0;
  timestamp = 0;
}

abbrev pub used_after : Option ℕ → Cache → ℕ
used_after (some i) c = c.used
used_after none c = if ltb c.used max_entries then c.used + 1 else c.used

abbrev pub after : Option ℕ → List ℕ → List ℕ → ℕ → Cache → Entry → Cache
after o name src size c e = record c {
  entries = set c.entries (target o c) (written o name src size e);
  used = used_after o c;
}

module _ {c : Cache} (name src : List ℕ) (size : ℕ) (v : IsValid c) (small : size ≤ entry_size)
    (source : size ≤ length src) (short : strlen name < 64) where
  fill_entry-written :
      (e : Entry)
      → EntryIsValid e
      → fill_entry name src size e ≡ some (written none name src size e)
  unfolding fill_entry
  fill_entry-written e ok = rw (
    (strcpy_lem e.filename name).0 (omega arith),
    memcpy_lem e.bytes src size (omega arith) (omega arith),
  )

  pub put_at-after :
      (o : Option ℕ) (e : Entry)
      → EntryIsValid e
      → get_elem? c.entries (target o c) ≡ some e
      → put_at o name src size c ≡ some (after o name src size c e)
  unfolding put_at
  put_at-after (some i) e ok at_slot =
      rw (at_slot, memcpy_lem e.bytes src size (omega arith) (omega arith))
  put_at-after none e ok at_slot = elim (Bool-cases (ltb c.used max_entries)) [
    | inl room ↦
        let g = rw room at at_slot in
        let n : plus_word c.used 1 ≡ c.used + 1 = ground arith in
        rw (room, g, fill_entry-written e ok, n)
    | inr full ↦ let g = rw full at at_slot in rw (full, g, fill_entry-written e ok)
  ]
