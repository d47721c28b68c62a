-- ===== src/FileCache/Live.antt =====
-- `file_cache_invalidate` and `file_cache_flush` of kernel/file_cache.c on the files in use.
use myunixlikeos.FileCache.Laws.{find_first, IsValid}
use myunixlikeos.Common.{
  ℕ, List, [], length, refl, suc, take, zero, ◌+◌, ◌∷◌, ◌≡◌, ◌≤◌, Option, Option-cases, ap, arith,
  get_elem?, inl, inr, none, set, some, ◌-◌, ◌<◌, ◌∙◌,
}
use myunixlikeos.FileCache.{Cache, Entry, shift, find, flush, get, invalidate, position}

-- The entries in use, in order.
abbrev pub live : Cache → List Entry
live c = take c.used c.entries

-- The list without its element at an index.
unfoldable pub erase_at : ℕ → List Entry → List Entry
erase_at i [] = []
erase_at zero (x ∷ xs) = xs
erase_at (suc i) (x ∷ xs) = x ∷ erase_at i xs

shift-cons : (n j : ℕ) (x : Entry) (es : List Entry) → shift n (suc j) (x ∷ es) ≡ x ∷ shift n j es
unfolding shift
shift-cons zero j x es = refl
shift-cons (suc n) j x es = elim (Option-cases (get_elem? es (suc j))) [
  | inl e ↦ rw e (shift-cons n (suc j) x es)
  | inr (a, e) ↦ rw e (shift-cons n (suc j) x (set es j a))
]

shift_first :
    (n : ℕ) (x : Entry) (es : List Entry) → n ≤ length es → take n (shift n 0 (x ∷ es)) ≡ take n es
unfolding shift
shift_first zero x es h = refl
shift_first (suc n) x [] h = absurd (omega arith)
shift_first (suc n) x (y ∷ es) h = rw (shift-cons n 0 y (y ∷ es), shift_first n y es (omega arith))

take-shift :
    (i n m : ℕ) (es : List Entry)
    → i + n ≡ m
    → m < length es
    → take m (shift n i es) ≡ erase_at i (take (suc m) es)
unfolding erase_at
take-shift i n m [] e h = absurd (omega arith)
take-shift zero n m (x ∷ es) e h =
    let e' : n ≡ m = omega arith in rw (e', shift_first m x es (omega arith))
take-shift (suc i) n zero (x ∷ es) e h = absurd (omega arith)
take-shift (suc i) n (suc m) (x ∷ es) e h =
    rw (shift-cons n i x es, take-shift i n m es (omega arith) (omega arith))

-- What `file_cache_invalidate` leaves of the files in use.
abbrev pub without : Option ℕ → Cache → List Entry
without none c = live c
without (some i) c = erase_at i (live c)

-- `file_cache_invalidate` removes the entry that a search for the name finds, keeps the other files
-- in use in their order and the counters as they were, and does nothing when the name is not cached.
pub live-invalidate :
    {c : Cache} (name : List ℕ)
    → IsValid c
    → (live (invalidate name c) ≡ without (position c name) c)
      × ((invalidate name c).hits ≡ c.hits)
      × ((invalidate name c).misses ≡ c.misses)
unfolding invalidate
live-invalidate {c} name v = go (position c name) refl
  where
    go :
        (o : Option ℕ)
        → position c name ≡ o
        → (live (invalidate name c) ≡ without (position c name) c)
          × ((invalidate name c).hits ≡ c.hits)
          × ((invalidate name c).misses ≡ c.misses)
    go none p = rw (p, invalidate) (refl, refl, refl)
    go (some i) p =
        let (k, a, b, l, f) = find_first c.used 0 i c.entries name p in
        let u : suc (c.used - 1) ≡ c.used = omega arith in
        rw (p, invalidate)
          (
            take-shift i (c.used - 1 - i) (c.used - 1) c.entries (omega arith)
                  (omega (arith, v.sixteen, v.few))
                ∙ ap (λ (m : ℕ). erase_at i (take m c.entries)) u,
            refl,
            refl,
          )

-- After `file_cache_flush` nothing is cached: every search misses, and the counters restart.
pub get-flush :
    (c : Cache) (name : List ℕ)
    → ((get name (flush c)).0 ≡ none)
      × ((get name (flush c)).1.misses ≡ 1)
      × ((get name (flush c)).1.hits ≡ 0)
unfolding get flush find
get-flush c name = (refl, refl, refl)
