-- ===== src/FileCache/Lookup.antt =====
-- `file_cache_get` after `file_cache_put`, in kernel/file_cache.c.
use myunixlikeos.Common.{
  ℕ, AllBelow, AllBelow-append, AllBelow-drop, Bool-cases, List, Option, [], ap, arith, drop,
  get_elem?, inl, inr, none, some, suc, true, zero, ◌++◌, ◌+◌, ◌∙◌, ◌∷◌, ◌≡◌, append-nil, subst,
  All-get_elem?, All-set, false, get_elem?-set_self, length, length-append, length-drop, length-set,
  length_copy, ltb, refl, take, ◌<◌, ◌≤◌, ap₂,
}
use myunixlikeos.FileCache.{Cache, Entry, find, position, entry_size, get, max_entries, put}
use myunixlikeos.FileCache.Laws.{
  IsValid, target, written, after, EntryIsValid, find-set, find_first, find_shorter, target-lt,
  used_after, put_at-after, slot,
}
use myunixlikeos.Libc.StrLaws.{c_str, AllBelow-c_str, c_str-c_str_append, str_eq_iff, strlen-c_str}
use myunixlikeos.Libc.Str.{str_eq, strlen}

-- The slot's old name does not show behind the new one: the file is cached already, or the byte
-- behind the copied name is 0.
abbrev pub Clean : Option ℕ → List ℕ → Entry → Type 0
Clean (some i) name e = Unit {0}
Clean none name e = c_str (drop (strlen name) e.filename) ≡ []

find_matches :
    (n i k : ℕ) (es : List Entry) (name : List ℕ) (e : Entry)
    → find n i es name ≡ some (i + k)
    → get_elem? es k ≡ some e
    → str_eq e.filename name ≡ true
unfolding find
find_matches zero i k es name e f g = cc
find_matches (suc n) i k [] name e f g = cc
find_matches (suc n) i zero (x ∷ es) name e f g = elim (Bool-cases (str_eq x.filename name)) [
  | inl m ↦ ground arith
  | inr m ↦
      let (k, a, b, l, r) = find_first n (i + 1) (i + 0) es name (rw m at f) in absurd (omega arith)
]
find_matches (suc n) i (suc k) (x ∷ es) name e f g = elim (Bool-cases (str_eq x.filename name)) [
  | inl m ↦ ground arith
  | inr m ↦ find_matches n (i + 1) k es name e ((rw m at f) ∙ ap some (omega arith)) g
]

module _ {c : Cache} (name src : List ℕ) (size : ℕ) (v : IsValid c)
    (bytes : AllBelow 256 name) where
  written_matches :
      (o : Option ℕ) (e : Entry)
      → position c name ≡ o
      → EntryIsValid e
      → get_elem? c.entries (target o c) ≡ some e
      → Clean o name e
      → str_eq (written o name src size e).filename name ≡ true
  written_matches (some i) e p ok g clean =
      find_matches c.used 0 i c.entries name e (p ∙ ap some (omega arith)) g
  written_matches none e p ok g clean =
      (str_eq_iff (c_str name ++ drop (strlen name) e.filename) name
          (AllBelow-append 256 (c_str name) (drop (strlen name) e.filename)
            (AllBelow-c_str name bytes) (AllBelow-drop 256 (strlen name) e.filename ok.3))
          bytes).1
        (c_str-c_str_append name (drop (strlen name) e.filename) ∙ rw (clean, append-nil))

  position-after :
      (o : Option ℕ) (e : Entry)
      → position c name ≡ o
      → EntryIsValid e
      → get_elem? c.entries (target o c) ≡ some e
      → Clean o name e
      → position (after o name src size c e) name ≡ some (target o c)
  position-after (some i) e p ok g clean =
      let (k, a, b, l, f) = find_first c.used 0 i c.entries name p in
      let i' : k ≡ i = omega arith in
      find-set i c.used 0 c.entries name (written (some i) name src size e) (omega arith)
        (omega arith) (subst (λ x. find x 0 c.entries name ≡ none) i' f)
        (written_matches (some i) e p ok g clean)
      ∙ ap some (omega arith)
  position-after none e p ok g clean =
      find-set (target none c) (used_after none c) 0 c.entries name (written none name src size e)
        (ground (arith, target-lt name none v p))
        (omega (arith, v.sixteen, target-lt name none v p))
        (find_shorter (target none c) c.used 0 c.entries name
          (ground (arith, v.few, target-lt name none v p)) p)
        (written_matches none e p ok g clean)
      ∙ ap some (omega arith)

get-eq :
    (c : Cache) (name : List ℕ) (i : ℕ) (e : Entry)
    → position c name ≡ some i
    → get_elem? c.entries i ≡ some e
    → (get name c).0 ≡ some (e.size, e.bytes)
unfolding get
get-eq c name i e p g = rw (p, get, g)

written_shape :
    (o : Option ℕ) (name src : List ℕ) (size : ℕ) (e : Entry)
    → ((written o name src size e).size ≡ size)
      × ((written o name src size e).bytes ≡ take size src ++ drop size e.bytes)
written_shape (some i) name src size e = (refl, refl)
written_shape none name src size e = (refl, refl)

written-EntryIsValid :
    (o : Option ℕ) (name src : List ℕ) (size : ℕ) (e : Entry)
    → EntryIsValid e
    → size ≤ entry_size
    → size ≤ length src
    → strlen name < 64
    → AllBelow 256 name
    → EntryIsValid (written o name src size e)
written-EntryIsValid (some i) name src size e ok small source short bytes =
    (ok.0, length_copy size src e.bytes source (omega arith) ∙ ok.1, small, ok.3)
written-EntryIsValid none name src size e ok small source short bytes = (
  omega (
    arith,
    length-append (c_str name) (drop (strlen name) e.filename),
    strlen-c_str name,
    length-drop (strlen name) e.filename,
  ),
  length_copy size src e.bytes source (omega arith) ∙ ok.1,
  small,
  AllBelow-append 256 (c_str name) (drop (strlen name) e.filename) (AllBelow-c_str name bytes)
      (AllBelow-drop 256 (strlen name) e.filename ok.3),
)

module _ {c : Cache} (name src : List ℕ) (size : ℕ) (e : Entry) (v : IsValid c)
    (bytes : AllBelow 256 name) (short : strlen name < 64) (small : size ≤ entry_size)
    (source : size ≤ length src) (held : get_elem? c.entries (slot name c) ≡ some e) where
  abbrev o : Option ℕ
  o = position c name

  valid_entry : EntryIsValid e
  valid_entry = All-get_elem? EntryIsValid c.entries (slot name c) e v.each held

  pub put-eq : put name src size c ≡ some (after o name src size c e)
  unfolding put
  put-eq =
      let fits : (ltb entry_size size) ≡ false = ground arith in
      rw fits (put_at-after name src size v small source short o e valid_entry held)

  after-IsValid : IsValid (after o name src size c e)
  after-IsValid = record {
    sixteen = length-set c.entries (target o c) (written o name src size e) ∙ v.sixteen;
    few = used_after-le o;
    each =
        All-set EntryIsValid c.entries (target o c) (written o name src size e) v.each
          (written-EntryIsValid o name src size e valid_entry small source short bytes);
  }
    where
      used_after-le : (p : Option ℕ) → used_after p c ≤ max_entries
      used_after-le (some i) = v.few
      used_after-le none = ground (arith, v.few)

  -- For a name of less than 64 characters that is cached already, or where the byte behind the copied
  -- name in the slot is 0, putting a file of at most 4096 bytes into a valid cache does not fault and
  -- keeps the cache valid, and a search for the name then gives the size and the bytes that were put.
  pub get-put :
      Clean (position c name) name e
      → (c' : Cache) × (put name src size c ≡ some c')
        × IsValid c'
        × ((get name c').0 ≡ some (size, take size src ++ drop size e.bytes))
  get-put clean =
      let c' = after o name src size c e in
      let w = written o name src size e in
      let t = target-lt name o v refl in
      let (s, d) = written_shape o name src size e in
      (
        c',
        put-eq,
        after-IsValid,
        get-eq c' name (target o c) w
              (position-after name src size v bytes o e refl valid_entry held clean)
              (get_elem?-set_self c.entries (target o c) w (omega (arith, v.sixteen, t)))
            ∙ ap some (ap₂ (λ a b. (a, b)) s d),
      )
