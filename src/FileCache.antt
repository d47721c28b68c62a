-- ===== src/FileCache.antt =====
-- kernel/file_cache.c: a cache of sixteen files, with the least used one replaced.
pub mod Laws
pub mod Live
pub mod Lookup
pub mod Stale
mod Tests
use myunixlikeos.Common.{
  ℕ, List, Option, [], get_elem?, if◌then◌else◌, ltb, map, none, set, some, suc, zero, ◌%◌, ◌*◌,
  ◌+◌, ◌-◌, ◌/◌, ◌>>=◌, ◌^◌, ◌∷◌,
}
use myunixlikeos.Libc.Str.{memcpy, str_eq, strcpy}

abbrev pub max_entries : ℕ
max_entries = 16

abbrev pub entry_size : ℕ
entry_size = 4096

-- `uint32_t` addition
abbrev pub plus_word : ℕ → ℕ → ℕ
plus_word n m = (n + m) % 2 ^ 32

-- `file_cache_entry_t`
pub record Entry : Type 0 where
  pub filename : List ℕ
  pub size : ℕ
  pub bytes : List ℕ
  pub hits : ℕ
  pub timestamp : ℕ

-- The static variables of the file.
pub record Cache : Type 0 where
  pub entries : List Entry
  pub used : ℕ
  pub hits : ℕ
  pub misses : ℕ

unfoldable pub init_entry : Entry → Entry
init_entry e = record e { filename = set e.filename 0 0; size = 0; hits = 0; timestamp = 0 }

unfoldable pub init : Cache → Cache
init c = record { entries = map init_entry c.entries; used = 0; hits = 0; misses = 0 }

-- The loop that `get`, `put` and `invalidate` share: the index of the first of the next `n` entries
-- whose name is `name`.
unfoldable pub find : ℕ → ℕ → List Entry → List ℕ → Option ℕ
find zero i es name = none
find (suc n) i [] name = none
find (suc n) i (e ∷ es) name =
    let rest = find n (i + 1) es name in if str_eq e.filename name then some i else rest

abbrev pub position : Cache → List ℕ → Option ℕ
position c name = find c.used 0 c.entries name

abbrev pub look : Cache → List ℕ → Option (ℕ × Entry)
look c name = do i ← position c name; e ← get_elem? c.entries i; some (i, e)

-- The size and the bytes that the returned pointer leads to.
unfoldable pub get : List ℕ → Cache → Option (ℕ × List ℕ) × Cache
get name c = elim (look c name) [
  | none ↦ (none, record c { misses = plus_word c.misses 1 })
  | some (i, e) ↦ (
    some (e.size, e.bytes),
    record c {
      entries = set c.entries i (record e { hits = plus_word e.hits 1 });
      hits = plus_word c.hits 1;
    },
  )
]

-- A known file: the bytes and the size are written over.
unfoldable pub update_entry : List ℕ → ℕ → Entry → Option Entry
update_entry src size e =
    memcpy e.bytes src size >>= λ d. some (record e { bytes = d; size = size; timestamp = 0 })

-- A new file in a slot, whatever the slot held.
unfoldable pub fill_entry : List ℕ → List ℕ → ℕ → Entry → Option Entry
fill_entry name src size e = strcpy e.filename name >>= λ f. memcpy e.bytes src size >>= λ d.
    some (record { filename = f; size = size; bytes = d; hits = 0; timestamp = 0 })

-- The scan for the least used entry: `min_hits` and `min_idx` so far.
unfoldable pub least_used : ℕ → List Entry → ℕ → ℕ → ℕ
least_used i [] min_hits min_idx = min_idx
least_used i (e ∷ es) min_hits min_idx =
    least_used (i + 1) es (if ltb e.hits min_hits then e.hits else min_hits)
      (if ltb e.hits min_hits then i else min_idx)

-- A step on the entry at an index; `none` for an index past the array.
abbrev pub modify : ℕ → (Entry → Option Entry) → Cache → Option Cache
modify i f c =
    get_elem? c.entries i >>= λ e. f e >>= λ e'. some (record c { entries = set c.entries i e' })

-- `file_cache_put` behind the search for the name.
unfoldable pub put_at : Option ℕ → List ℕ → List ℕ → ℕ → Cache → Option Cache
unfolding update_entry fill_entry
put_at (some i) name src size c = modify i (update_entry src size) c
put_at none name src size c =
    if ltb c.used max_entries
    then (do
      d ← modify c.used (fill_entry name src size) c
      some (record d { used = plus_word d.used 1 }))
    else modify (least_used 0 c.entries 0xFFFF_FFFF 0) (fill_entry name src size) c

-- `none` is a read or a write outside an array.
unfoldable pub put : List ℕ → List ℕ → ℕ → Cache → Option Cache
put name src size c =
    if ltb entry_size size then some c else put_at (position c name) name src size c

-- `cache[j] = cache[j + 1]` for `n` values of j
unfoldable pub shift : ℕ → ℕ → List Entry → List Entry
shift zero j es = es
shift (suc n) j es =
    shift n (suc j) (elim (get_elem? es (suc j)) [ none ↦ es | some e ↦ set es j e ])

unfoldable pub invalidate : List ℕ → Cache → Cache
invalidate name c = elim (position c name) [
  | none ↦ c
  | some i ↦ record c { entries = shift (c.used - 1 - i) i c.entries; used = c.used - 1 }
]

unfoldable pub flush : Cache → Cache
unfolding init init_entry
flush c = init c

-- The hit rate that `file_cache_stats` prints, in per cent.
unfoldable pub hit_rate : Cache → Option ℕ
hit_rate c =
    let total = plus_word c.hits c.misses in
    if ltb 0 total then some (c.hits * 100 % 2 ^ 32 / total) else none
