-- ===== src/Paging/Boot.antt =====
-- `paging_init` of kernel/kernel.c: the identity mapping of the low memory and the tables of the
-- kernel heap.
use myunixlikeos.Paging.View.{get_physical_address-entry_at, get_or-replicate}
use myunixlikeos.Paging.{
  Paging, cleared_table, enter_low, identity_entries, is_present, alloc_page_table, enter_heap,
  get_physical_address, map_heap, map_low, paging_init, with_directory,
}
use myunixlikeos.Paging.Tables.{IsPaging, Blank, entry_at, slot, base_flags, present_flags}
use myunixlikeos.Paging.Grow.{
  Took-Blank, add_table, add_table-IsPaging, slot_old, add_table-entry_at, add_table_of_zeros,
}
use myunixlikeos.Pmm.{Pmm, alloc_page}
use myunixlikeos.Pmm.Count.{IsValid}
use myunixlikeos.Pmm.Pages.{AllocatesPage, alloc_page_lem}
use myunixlikeos.Common.{
  ℕ, ◌*◌, ◌+◌, ◌<◌, ◌≡◌, ◌^◌, get_or, length, true, arith, refl, false, Option, none, some, ap,
  bit_or, ◌≤◌, suc, zero, List, fun_ext, if◌then◌else◌, length-replicate, replicate, ◌%◌, ◌/◌, ◌==◌,
  ◌∙◌,
}
use myunixlikeos.Common.Words.{with_flags, low_twelve}

length-identity_entries : (table n i : ℕ) → length (identity_entries table n i) ≡ n
unfolding identity_entries
length-identity_entries table zero i = refl
length-identity_entries table (suc n) i = ap suc (length-identity_entries table n (i + 1))

get_or-identity_entries :
    (table n i k : ℕ)
    → k < n
    → table * 1024 + i + n ≤ 2 ^ 20
    → get_or (identity_entries table n i) k 0 ≡ (table * 1024 + i + k) * 4096 + 3
unfolding identity_entries
get_or-identity_entries table zero i k h fits = absurd (omega arith)
get_or-identity_entries table (suc n) i zero h fits =
    let e = with_flags ((table * 1024 + i) * 4096) 3 (omega arith) (omega arith) (omega arith) in
    omega (arith, e)
get_or-identity_entries table (suc n) i (suc k) h fits =
    omega (arith, get_or-identity_entries table n (i + 1) k (omega arith) (omega arith))

-- The first `i` tables are the identity, and the slots in use are below `b`.
record LowMapped (p : Paging) (i b : ℕ) : Type 0 where
  good : IsPaging p
  identity : (n : ℕ) → n < i * 1024 → entry_at p n ≡ n * 4096 + 3
  rest : (j : ℕ) → b ≤ j → is_present (slot p j) ≡ false

low_entry :
    (p q : Paging) (i n : ℕ)
    → i < 1024
    → (n < i * 1024 → entry_at p n ≡ n * 4096 + 3)
    → n < (i + 1) * 1024
    → entry_at q n
      ≡ (if n / 1024 == i then get_or (identity_entries i 1024 0) (n % 1024) 0 else entry_at p n)
    → entry_at q n ≡ n * 4096 + 3
low_entry p q i n small old h e =
    ground (arith, get_or-identity_entries i 1024 0 (n % 1024) (omega arith) (omega arith))

-- One round of the first loop.
low_round :
    {p : Paging} (i : ℕ) (r : Option ℕ × Pmm)
    → LowMapped p i i
    → i < 1024
    → 0 < p.pmm.available
    → AllocatesPage p.pmm r
    → (q : Paging) × (enter_low i (cleared_table p r) ≡ (true, q))
      × LowMapped q (i + 1) (i + 1)
      × (q.pmm.available + 1 ≡ p.pmm.available)
low_round i (none, pmm') m small free (same, full) = absurd (omega arith)
low_round {p} i (some a, pmm') m small free (k, at, t, first) =
    let table = identity_entries i 1024 0 in
    let len = length-identity_entries i 1024 0 in
    let none_yet = m.rest i (omega arith) in
    let e : bit_or a 3 ≡ p.pmm.memory_start + k * 4096 + 3 = omega (
      arith,
      at,
      with_flags a 3 (omega (arith, at, t.in_range, m.good.valid.fits)) (omega arith)
          (omega (arith, at, m.good.aligned)),
    ) in
    let q = add_table m.good t i none_yet small table len 3 refl (omega arith) in
    rw (e, at)
      (
        q,
        ap (λ f. (true, record q { table_at = f })) (fun_ext (λ b. ground arith)),
        record {
          good = add_table-IsPaging m.good t i none_yet small table len 3 refl (omega arith);
          identity = λ n h.
              low_entry p q i n small (m.identity n) h
                (add_table-entry_at m.good t i none_yet small table len 3 refl (omega arith) n);
          rest = λ j h.
              ap is_present
                (slot_old m.good t i none_yet small table len 3 refl (omega arith) j (omega arith))
              ∙ m.rest j (omega arith);
        },
        t.one_less,
      )

module _ {p : Paging} (i b : ℕ) (m : LowMapped p i b) (below : i ≤ b) (small : b < 1024) where
  -- One round of the second loop.
  heap_round :
      (r : Option ℕ × Pmm)
      → AllocatesPage p.pmm r
      → LowMapped (enter_heap b (cleared_table p r)) i (b + 1)
  heap_round (none, pmm') (same, full) =
      let e : record p { pmm = pmm' } ≡ p = ap (λ x. record p { pmm = x }) same in
      rw e (record { good = m.good; identity = m.identity; rest = λ j h. m.rest j (omega arith) })
  heap_round (some a, pmm') (k, at, t, first) =
      let table : List ℕ = replicate 1024 0 in
      let len = length-replicate {A = ℕ} 1024 0 in
      let none_yet = m.rest b (omega arith) in
      let e : bit_or a 3 ≡ p.pmm.memory_start + k * 4096 + 3 = omega (
        arith,
        at,
        with_flags a 3 (omega (arith, at, t.in_range, m.good.valid.fits)) (omega arith)
            (omega (arith, at, m.good.aligned)),
      ) in
      rw (e, at, m.good.blank k t.in_range t.was_free)
        (record {
          good = add_table-IsPaging m.good t b none_yet small table len 3 refl (omega arith);
          identity = λ n h.
              add_table_of_zeros m.good t b none_yet small table len 3 refl (omega arith)
                (get_or-replicate 1024) n
              ∙ m.identity n h;
          rest = λ j h.
              ap is_present
                (slot_old m.good t b none_yet small table len 3 refl (omega arith) j (omega arith))
              ∙ m.rest j (omega arith);
        })

map_heap-LowMapped :
    (n i b : ℕ) {p : Paging}
    → LowMapped p i b
    → i ≤ b
    → b + n ≤ 1024
    → LowMapped (map_heap n b p) i (b + n)
unfolding map_heap alloc_page_table
map_heap-LowMapped zero i b m h k = let e : b + 0 ≡ b = omega arith in rw e m
map_heap-LowMapped (suc n) i b {p} m h k =
    let e : b + suc n ≡ b + 1 + n = omega arith in
    rw e (
      map_heap-LowMapped n i (b + 1)
        (heap_round i b m h (omega arith) (alloc_page p.pmm) (alloc_page_lem m.good.valid))
        (omega arith) (omega arith))

map_low-LowMapped :
    (n i : ℕ) {p : Paging}
    → LowMapped p i i
    → i + n ≤ 1024
    → n ≤ p.pmm.available
    → (q : Paging) × (map_low n i p ≡ (true, q)) × LowMapped q (i + n) (i + n)
unfolding map_low alloc_page_table
map_low-LowMapped zero i {p} m h k = let e : i + 0 ≡ i = omega arith in (p, refl, rw e m)
map_low-LowMapped (suc n) i {p} m h k =
    let (q, e, m', one) =
      low_round i (alloc_page p.pmm) m (omega arith) (omega arith) (alloc_page_lem m.good.valid) in
    let (r, e', m'') = map_low-LowMapped n (i + 1) {p = q} m' (omega arith) (omega arith) in
    let s : i + suc n ≡ i + 1 + n = omega arith in (r, rw (e, e') refl, rw s m'')

-- With an empty directory.
empty_directory-LowMapped :
    (pmm : Pmm) (tables : ℕ → List ℕ)
    → IsValid pmm
    → pmm.memory_start % 4096 ≡ 0
    → Blank pmm tables
    → LowMapped (record { pmm = pmm; directory = replicate 1024 0; table_at = tables }) 0 0
empty_directory-LowMapped pmm tables v aligned blank =
    let zeros = get_or-replicate 1024 in
    let off : (i : ℕ) → is_present (get_or (replicate 1024 0) i 0) ≡ false =
      λ i. rw (zeros i) refl in
    record {
      good = record {
        valid = v;
        aligned = aligned;
        sized = length-replicate {A = ℕ} 1024 0;
        words = λ i. omega (arith, zeros i);
        tables = λ i h. ground (arith, off i);
        owned = λ i h. ground (arith, off i);
        blank = blank;
        apart = λ i j h k e. ground (arith, off i);
      };
      identity = λ n h. absurd (omega arith);
      rest = λ j h. off j;
    }

pub empty_directory-IsPaging :
    (pmm : Pmm) (tables : ℕ → List ℕ)
    → IsValid pmm
    → pmm.memory_start % 4096 ≡ 0
    → Blank pmm tables
    → IsPaging (record { pmm = pmm; directory = replicate 1024 0; table_at = tables })
empty_directory-IsPaging pmm tables v aligned blank =
    (empty_directory-LowMapped pmm tables v aligned blank).good

Booted : Option Paging → Type 0
Booted none = ⊥
Booted (some p) = LowMapped p 4 832

with_directory-Booted :
    (tables : ℕ → List ℕ) (pmm : Pmm) (r : Option ℕ × Pmm)
    → IsValid pmm
    → pmm.memory_start % 4096 ≡ 0
    → 5 ≤ pmm.available
    → Blank pmm tables
    → AllocatesPage pmm r
    → Booted (with_directory tables r)
unfolding Booted with_directory
with_directory-Booted tables pmm (none, pmm') v aligned enough blank (same, full) =
    absurd (omega arith)
with_directory-Booted tables pmm (some a, pmm') v aligned enough blank (k, at, t, first) =
    let start =
      empty_directory-LowMapped pmm' tables t.valid (omega (arith, t.same_start))
        (Took-Blank tables t blank) in
    let (q, e, m) = map_low-LowMapped 4 0 start (omega arith) (omega (arith, t.one_less)) in
    let wide : LowMapped q 4 768 = record {
      good = m.good;
      identity = m.identity;
      rest = λ j h. m.rest j (omega arith);
    } in
    rw (at, blank k t.in_range t.was_free, e)
      (map_heap-LowMapped 64 4 768 wide (omega arith) (omega arith))

-- On a valid allocator with page-aligned memory and five free pages, where the free pages hold
-- zeros, `paging_init` builds a directory that satisfies the invariant and in which every address below 16 MB leads to itself.
pub paging_init_lem :
    (tables : ℕ → List ℕ) (pmm : Pmm)
    → IsValid pmm
    → pmm.memory_start % 4096 ≡ 0
    → 5 ≤ pmm.available
    → Blank pmm tables
    → (p : Paging) × (paging_init pmm tables ≡ some p)
      × IsPaging p
      × ((v : ℕ) → v < 2 ^ 24 → get_physical_address v p ≡ v)
unfolding paging_init Booted
paging_init_lem tables pmm v aligned enough blank =
    go (paging_init pmm tables)
      (with_directory-Booted tables pmm (alloc_page pmm) v aligned enough blank (alloc_page_lem v))
  where
    go :
        (o : Option Paging)
        → Booted o
        → (p : Paging) × (o ≡ some p)
          × IsPaging p
          × ((v : ℕ) → v < 2 ^ 24 → get_physical_address v p ≡ v)
    go none b = absurd b
    go (some p) b = (
      p,
      refl,
      b.good,
      λ v h.
          let b' = base_flags (v / 4096 * 4096) 3 (omega arith) (omega arith) (omega arith) in
          let on =
            present_flags (v / 4096 * 4096) 3 (omega arith) (omega arith) (omega arith) refl in
          get_physical_address-entry_at b.good v (omega arith)
          ∙ rw (b.identity (v / 4096) (omega arith), on, b', low_twelve v (omega arith))
              (omega arith),
    )
