-- ===== src/Elf/Grow.antt =====
-- The pages that user_sbrk of kernel/elf.c maps.
use myunixlikeos.Common.Words.{high_part}
use myunixlikeos.Pmm.Pages.{AllocatesPage, alloc_page_lem}
use myunixlikeos.Elf.Heap.{
  grow, UserHeap, IsHeap, page_align_up, rounds, user_sbrk, user_heap_limit, move_pages,
}
use myunixlikeos.Elf.Heap.{
  grow, UserHeap, IsHeap, page_align_up, rounds, user_sbrk, user_heap_limit, move_pages,
}
use myunixlikeos.Common.{ap, Bool, false}
use myunixlikeos.Elf.Heap.{release_pages}
use myunixlikeos.Paging.{Paging, get_physical_address, map_page}
use myunixlikeos.Paging.Tables.{IsPaging}
use myunixlikeos.Paging.Grow.{Took-IsPaging}
use myunixlikeos.Paging.View.{map_page_lem, map_page-success, get_physical_address-map_page}
use myunixlikeos.Pmm.{Pmm, alloc_page}
use myunixlikeos.Pmm.Marks.{Took}
use myunixlikeos.Common.{
  ℕ, ◌*◌, ◌+◌, ◌/◌, ◌<◌, ◌≡◌, ◌≢◌, ◌≤◌, ◌^◌, arith, refl, suc, true, zero, ℕ_discrete, ◌%◌, ◌∙◌,
  ◌⊎◌, Option, none, some, false, ◌==◌, ltb, ◌||◌, inl, not,
}

-- One round: a page is mapped at `addr`, and the other addresses lead where they led.
record Mapped (p : Paging) (addr : ℕ) (q : Paging) : Type 0 where
  good : IsPaging q
  enough : p.pmm.available ≤ q.pmm.available + 2
  here : (w : ℕ) → w < 2 ^ 32 → w / 4096 ≡ addr / 4096 → get_physical_address w q ≢ 0
  elsewhere :
      (w : ℕ)
      → w < 2 ^ 32
      → w / 4096 ≢ addr / 4096
      → get_physical_address w q ≡ get_physical_address w p

other_allocator :
    (p : Paging) (pmm' : Pmm) (w : ℕ)
    → get_physical_address w (record p { pmm = pmm' }) ≡ get_physical_address w p
unfolding get_physical_address
other_allocator p pmm' w = refl

map_page-Mapped :
    {p : Paging} {i : ℕ} {pmm' : Pmm} (phys addr : ℕ)
    → IsPaging p
    → 2 ≤ p.pmm.available
    → addr < 2 ^ 32
    → Took p.pmm i pmm'
    → phys ≡ p.pmm.memory_start + i * 4096
    → Mapped p addr (map_page addr phys 7 (record p { pmm = pmm' }))
map_page-Mapped {p} {i} {pmm'} phys addr g two fits t at =
    let q = record p { pmm = pmm' } in
    let h : IsPaging q = Took-IsPaging g t in
    let below : phys < 2 ^ 32 = omega (arith, t.in_range, g.valid.fits) in
    let leads = λ (w : ℕ) (k : w < 2 ^ 32).
      get_physical_address-map_page h addr w fits k phys 7 below (omega arith) refl
        (omega (arith, t.one_less)) in
    let (good, grows) =
      map_page-success addr _ (map_page_lem h addr 7 fits phys below (omega arith))
        (omega (arith, t.one_less)) in
    record {
      good = good;
      enough = omega (arith, t.one_less, grows.at_most_one);
      here = λ w k e. ground (arith, leads w k, g.aligned, g.valid.not_null, at);
      elsewhere = λ w k ne.
          let other : (w / 4096 == addr / 4096) ≡ false = ground arith in
          leads w k ∙ rw other (other_allocator p pmm' w);
    }

-- `n` pages from page `k` on are mapped.
record MappedRange (p : Paging) (k n : ℕ) (q : Paging) : Type 0 where
  good : IsPaging q
  inside : (w : ℕ) → w < 2 ^ 32 → k ≤ w / 4096 → w / 4096 < k + n → get_physical_address w q ≢ 0
  outside :
      (w : ℕ)
      → w < 2 ^ 32
      → (w / 4096 < k) ⊎ (k + n ≤ w / 4096)
      → get_physical_address w q ≡ get_physical_address w p

MappedRange-cons :
    {p q r : Paging} (addr n : ℕ)
    → Mapped p addr q
    → MappedRange q (addr / 4096 + 1) n r
    → MappedRange p (addr / 4096) (suc n) r
MappedRange-cons addr n one rest = record {
  good = rest.good;
  inside = λ w fits lo hi. elim (ℕ_discrete (w / 4096) (addr / 4096)) [
    | yes e ↦ rw (rest.outside w fits (omega arith)) (one.here w fits e)
    | no ne ↦ rest.inside w fits (omega arith) (omega arith)
  ];
  outside = λ w fits out. rest.outside w fits (omega arith) ∙ one.elsewhere w fits (omega arith);
}

allocated :
    {p : Pmm} (r : Option ℕ × Pmm)
    → AllocatesPage p r
    → 0 < p.available
    → (phys : ℕ) × (i : ℕ) × (q : Pmm) × (r ≡ (some phys, q))
      × Took p i q
      × (phys ≡ p.memory_start + i * 4096)
allocated (none, q) (same, full) free = absurd (omega arith)
allocated (some phys, q) (i, at, t, first) free = (phys, i, q, refl, t, at)

grow_step :
    (n done start : ℕ) (p : Paging) (phys : ℕ) (pmm' : Pmm)
    → alloc_page p.pmm ≡ (some phys, pmm')
    → grow (suc n) done start p
      ≡ grow n (done + 1) start (map_page (start + done * 4096) phys 7 (record p { pmm = pmm' }))
unfolding grow
grow_step n done start p phys pmm' e =
    ap
      (λ r. elim r.0 as (λ x. Bool × Paging) [
        | none ↦ (false, release_pages done start (record p { pmm = r.1 }))
        | some a ↦
            grow n (done + 1) start (map_page (start + done * 4096) a 7 (record p { pmm = r.1 }))
      ])
      e

grow-MappedRange :
    (n done start : ℕ) (p : Paging)
    → IsPaging p
    → start % 4096 ≡ 0
    → start + (done + n) * 4096 ≤ 2 ^ 32
    → n * 2 ≤ p.pmm.available
    → (q : Paging) × (grow n done start p ≡ (true, q)) × MappedRange p (start / 4096 + done) n q
unfolding grow
grow-MappedRange zero done start p g aligned fits enough = (
  p,
  refl,
  record { good = g; inside = λ w k lo hi. absurd (omega arith); outside = λ w k out. refl },
)
grow-MappedRange (suc n) done start p g aligned fits enough =
    let (phys, i, pmm', e, t, at) =
      allocated (alloc_page p.pmm) (alloc_page_lem g.valid) (omega arith) in
    let addr = start + done * 4096 in
    let one = map_page-Mapped phys addr g (omega arith) (omega arith) t at in
    let page : addr / 4096 ≡ start / 4096 + done = omega (arith, aligned) in
    let (q, e', rest) =
      grow-MappedRange n (done + 1) start (map_page addr phys 7 (record p { pmm = pmm' })) one.good
        aligned (omega arith) (omega (arith, one.enough)) in
    let from : start / 4096 + (done + 1) ≡ addr / 4096 + 1 = omega (arith, page) in
    (
      q,
      grow_step n done start p phys pmm' e ∙ e',
      rw⁻¹ page (MappedRange-cons addr n one (rw from at rest)),
    )

-- Where the free pages hold zeros, with two of them for each page of the growth, one for it and one
-- for a table, `user_sbrk` of an increment above 0 and below 2^31 whose new break is not above the
-- limit succeeds: it adds the increment to the break, every address from the old break, rounded up to
-- a page, to the new break leads to memory afterwards, and every address below the rounded break
-- leads where it led.
pub user_sbrk-grows :
    (increment : ℕ) {h : UserHeap}
    → IsHeap h
    → IsPaging h.paging
    → 0 < increment
    → increment < 2 ^ 31
    → h.brk + increment ≤ user_heap_limit
    → rounds (page_align_up h.brk) (page_align_up (h.brk + increment)) * 2 ≤ h.paging.pmm.available
    → (q : Paging) × (user_sbrk increment h
        ≡ (h.brk, record h { paging = q; brk = h.brk + increment }))
      × IsPaging q
      × ((w : ℕ) → page_align_up h.brk ≤ w → w < h.brk + increment → get_physical_address w q ≢ 0)
      × ((w : ℕ)
          → w < page_align_up h.brk
          → get_physical_address w q ≡ get_physical_address w h.paging)
unfolding user_sbrk move_pages
user_sbrk-grows increment {h} g paging positive small below enough =
    let new = h.brk + increment in
    let a = high_part ((h.brk + 4095) % 2 ^ 32) (omega arith) in
    let b = high_part ((new + 4095) % 2 ^ 32) (omega arith) in
    let start = page_align_up h.brk in
    let n = rounds start (page_align_up new) in
    let (q, e, m) =
      grow-MappedRange n 0 start h.paging paging (omega (arith, a)) (omega (arith, a, b)) enough in
    let exact : new % 2 ^ 32 ≡ new = omega arith in
    let on : not h.initialized ≡ false = ground (arith, g.started) in
    let asked : (increment == 0) ≡ false = ground arith in
    let inside : (ltb new h.base || ltb user_heap_limit new) ≡ false = ground (arith, g.above) in
    let up : ltb increment (2 ^ 31) ≡ true = ground arith in
    (
      q,
      rw (on, asked, exact, inside, up, e) refl,
      m.good,
      λ w lo hi. m.inside w (omega arith) (omega (arith, a)) (omega (arith, a, b)),
      λ w lo. m.outside w (omega (arith, a)) (inl (omega (arith, a))),
    )
