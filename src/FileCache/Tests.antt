-- ===== src/FileCache/Tests.antt =====
-- The file cache of kernel/file_cache.c at concrete inputs.
use myunixlikeos.Libc.Str.{str_eq, strlen}
use myunixlikeos.Common.{
  ℕ, All, AllBelow-replicate, List, [], arith, length-replicate, refl, replicate, some, suc, zero,
  ◌<◌, ◌∷◌, ◌≡◌,
}
use myunixlikeos.FileCache.{Cache, Entry, get, put, find}
use myunixlikeos.FileCache.Laws.{IsValid, EntryIsValid}
use myunixlikeos.FileCache.Lookup.{get-put}
use myunixlikeos.Libc.StrLaws.{c_str}

-- "ab" and "cd", padded
abbrev name_buffer : ℕ → ℕ → List ℕ
name_buffer a b = a ∷ b ∷ replicate 62 0

abbrev entry : ℕ → ℕ → Entry
entry a b = record {
  filename = name_buffer a b;
  size = 2;
  bytes = replicate 4096 7;
  hits = 0;
  timestamp = 0;
}

-- "ab" is cached; the fifteen slots behind it once held "cd".
abbrev cache : Cache
cache = record {
  entries = entry b'a' b'b' ∷ replicate 15 (entry b'c' b'd');
  used = 1;
  hits = 0;
  misses = 0;
}

entry-EntryIsValid : (a b : ℕ) → a < 256 → b < 256 → EntryIsValid (entry a b)
entry-EntryIsValid a b ha hb = (
  refl,
  length-replicate {A = ℕ} 4096 7,
  omega arith,
  (ha, (hb, AllBelow-replicate 256 62 0 (omega arith))),
)

spare-All : (n : ℕ) → All EntryIsValid (replicate n (entry b'c' b'd'))
spare-All zero = tt
spare-All (suc n) = (entry-EntryIsValid b'c' b'd' (omega arith) (omega arith), spare-All n)

cache-IsValid : IsValid cache
cache-IsValid = record {
  sixteen = refl;
  few = omega arith;
  each = (entry-EntryIsValid b'a' b'b' (omega arith) (omega arith), spare-All 15);
}

abbrev ef : List ℕ
ef = b'e' ∷ b'f' ∷ []

abbrev e_name : List ℕ
e_name = b'e' ∷ []

get-put_example :
    (c' : Cache) × (put ef (1 ∷ 2 ∷ 3 ∷ []) 3 cache ≡ some c')
    × IsValid c'
    × ((get ef c').0 ≡ some (3, 1 ∷ 2 ∷ 3 ∷ replicate 4093 7))
unfolding find str_eq c_str strlen
get-put_example =
    get-put ef (1 ∷ 2 ∷ 3 ∷ []) 3 (entry b'c' b'd') cache-IsValid (omega arith) (omega arith)
      (omega arith) (omega arith) refl refl
