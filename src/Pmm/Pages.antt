-- ===== src/Pmm/Pages.antt =====
-- `pmm_alloc_page` and `pmm_free_page` of kernel/kernel.c.
use myunixlikeos.Pmm.Marks.{Freed, release-Freed, release_free, take-Took, Took}
use native.Mathlib.Decide.{dec_lt}
use myunixlikeos.Pmm.{
  Pmm, bitmap_test, alloc_page, alloc_page_loop, page_addr, page_size, release, free_page,
  page_index,
}
use myunixlikeos.Pmm.Count.{IsValid, free_count-zero}
use myunixlikeos.Common.{
  ℕ, arith, ◌+◌, ◌<◌, ◌≡◌, refl, suc, zero, ◌∙◌, Bool-cases, Option, inl, inr, none, some, ◌*◌,
  ◌==◌, ◌≢◌, ◌≤◌, ◌⊎◌, subst,
}

-- The scan from page `i` over `n` pages.
abbrev Scanned : Pmm → ℕ → ℕ → Option ℕ × Pmm → Type 0
Scanned p i n (none, q) = (q ≡ p) × ((j : ℕ) → i ≤ j → j < i + n → bitmap_test p j ≢ 0)
Scanned p i n (some a, q) =
    (k : ℕ) × (i ≤ k)
    × (a ≡ page_addr p k)
    × Took p k q
    × ((j : ℕ) → i ≤ j → j < k → bitmap_test p j ≢ 0)

-- What the scan from the next page found, seen from the taken page before it.
Scanned-later :
    (p : Pmm) (i n : ℕ) (r : Option ℕ × Pmm)
    → bitmap_test p i ≢ 0
    → Scanned p (i + 1) n r
    → Scanned p i (suc n) r
Scanned-later p i n (none, q) ne (same, used) = (
  same,
  λ j h l. elim (dec_lt i j) [
    | yes m ↦ used j (omega arith) (omega arith)
    | no m ↦ let e : j ≡ i = omega arith in rw e ne
  ],
)
Scanned-later p i n (some a, q) ne (k, le, e, t, used) = (
  k,
  omega arith,
  e,
  t,
  λ j h l. elim (dec_lt i j) [
    | yes m ↦ used j (omega arith) l
    | no m ↦ let e : j ≡ i = omega arith in rw e ne
  ],
)

alloc_page_loop-Scanned :
    {p : Pmm} (v : IsValid p) (n i : ℕ)
    → i + n ≡ p.total_pages
    → Scanned p i n (alloc_page_loop n i p)
unfolding alloc_page_loop
alloc_page_loop-Scanned v zero i e = (refl, λ j h l. absurd (omega arith))
alloc_page_loop-Scanned {p} v (suc n) i e = elim (Bool-cases (bitmap_test p i == 0)) [
  | inl free ↦ rw free (
    i,
    omega arith,
    refl,
    take-Took v i (omega arith) (ground arith),
    λ j h l. absurd (omega arith),
  )
  | inr used ↦ rw used (
      Scanned-later p i n (alloc_page_loop n (i + 1) p) (ground arith)
        (alloc_page_loop-Scanned v n (i + 1) (omega arith)))
]

-- NULL leaves everything as it was and means that no page is free; an address is that of the first
-- free page, which is then taken.
abbrev pub AllocatesPage : Pmm → Option ℕ × Pmm → Type 0
AllocatesPage p (none, q) = (q ≡ p) × (p.available ≡ 0)
AllocatesPage p (some a, q) =
    (i : ℕ) × (a ≡ p.memory_start + i * page_size)
    × Took p i q
    × ((j : ℕ) → j < i → bitmap_test p j ≢ 0)

AllocatesPage-of_Scanned :
    {p : Pmm} → IsValid p → (r : Option ℕ × Pmm) → Scanned p 0 p.total_pages r → AllocatesPage p r
AllocatesPage-of_Scanned {p} v (none, q) (same, used) =
    (same, v.counted ∙ free_count-zero p p.total_pages (λ i h. used i (omega arith) (omega arith)))
AllocatesPage-of_Scanned {p} v (some a, q) (k, le, e, t, used) =
    (k, omega (arith, e, v.fits, t.in_range), t, λ j h. used j (omega arith) h)

-- On a valid allocator `pmm_alloc_page` takes the first free page: the address is that of a page
-- that was free, is marked as taken while every other mark stays, the counter falls by one and the
-- invariant holds; it returns NULL only when no page is free, and then changes nothing.
pub alloc_page_lem : {p : Pmm} → IsValid p → AllocatesPage p (alloc_page p)
unfolding alloc_page
alloc_page_lem {p} v =
    AllocatesPage-of_Scanned v (alloc_page p)
      (alloc_page_loop-Scanned v p.total_pages 0 (omega arith))

module _ {p : Pmm} (v : IsValid p) where
  free_page_inside :
      (i off : ℕ)
      → i < p.total_pages
      → off < page_size
      → free_page p (p.memory_start + i * page_size + off) ≡ release p i
  unfolding free_page
  free_page_inside i off h o =
      let addr = p.memory_start + i * page_size + off in
      let k : page_index p addr ≡ i = omega arith in
      let below : i * page_size + page_size ≤ p.total_pages * page_size = omega arith in
      ground (arith, k, v.fits, v.not_null)

  free_page_beyond :
      (addr : ℕ)
      → (addr < p.memory_start) ⊎ (p.memory_start + p.total_pages * page_size ≤ addr)
      → free_page p addr ≡ p
  unfolding free_page
  free_page_beyond addr out = ground (arith, v.fits)

-- What `pmm_free_page` does for each pointer: it gives a taken page back, wherever in the page the
-- pointer stands, and ignores a page that is free and a pointer outside the managed memory.
pub free_page_lem :
    {p : Pmm}
    → IsValid p
    → ((i off : ℕ)
        → i < p.total_pages
        → off < page_size
        → bitmap_test p i ≢ 0
        → Freed p i (free_page p (p.memory_start + i * page_size + off)))
      × ((i off : ℕ)
          → i < p.total_pages
          → off < page_size
          → bitmap_test p i ≡ 0
          → free_page p (p.memory_start + i * page_size + off) ≡ p)
      × ((addr : ℕ)
          → (addr < p.memory_start) ⊎ (p.memory_start + p.total_pages * page_size ≤ addr)
          → free_page p addr ≡ p)
free_page_lem {p} v = (
  λ i off h o ne. rw (free_page_inside v i off h o) (release-Freed v i h ne),
  λ i off h o f. free_page_inside v i off h o ∙ release_free p i f,
  free_page_beyond v,
)

Restored : Pmm → Pmm → Type 0
Restored p r =
    ((j : ℕ) → bitmap_test r j ≡ bitmap_test p j) × (r.available ≡ p.available) × IsValid r

Restored-of_Freed : {p q r : Pmm} {i : ℕ} → Took p i q → Freed q i r → Restored p r
unfolding Restored
Restored-of_Freed {i} t f = (
  λ j. ground (arith, f.marks j, t.marks j, t.was_free),
  omega (arith, t.one_less, f.one_more),
  f.valid,
)

-- Freeing the page that was just allocated gives back the allocator as it was: every page's mark and
-- the counter.
pub free_page-alloc_page :
    {p : Pmm} {a : ℕ} {q : Pmm}
    → IsValid p
    → alloc_page p ≡ (some a, q)
    → ((j : ℕ) → bitmap_test (free_page q a) j ≡ bitmap_test p j)
      × ((free_page q a).available ≡ p.available)
      × IsValid (free_page q a)
unfolding Restored
free_page-alloc_page {p} {a} {q} v e =
    let (i, at, t, _) = subst (AllocatesPage p) e (alloc_page_lem v) in
    let taken : bitmap_test q i ≢ 0 = ground (arith, t.marks i) in
    let f = (free_page_lem t.valid).0 i 0 (omega arith) (omega arith) taken in
    let here : q.memory_start + i * page_size + 0 ≡ a = omega (arith, at, t.same_start) in
    Restored-of_Freed t (subst (λ x. Freed q i (free_page q x)) here f)
