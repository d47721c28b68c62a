-- ===== src/KernelHeap/Fresh.antt =====
-- A new page of the kernel heap, as heap_alloc_page and heap_init make it.
use myunixlikeos.KernelHeap.Kmalloc.{kmalloc_lem}
use myunixlikeos.KernelHeap.Take.{rest_of}
use myunixlikeos.Pmm.{Pmm, alloc_page}
use myunixlikeos.Common.{
  ap, Option, ℕ, ◌+◌, ◌-◌, ◌*◌, ◌/◌, ◌%◌, ◌^◌, ◌≤◌, ◌≡◌, ◌⊎◌, ◌==◌, true, [], ◌∷◌, refl, arith,
  if◌then◌else◌, inl, some, ◌<◌,
}
use myunixlikeos.KernelHeap.{
  kmalloc, align_up, Memory, format_page, heap_start, heap_end, put_word, put_header, KernelHeap,
  heap_alloc_page, heap_init, enter_page,
}
use myunixlikeos.KernelHeap.Chain.{Block, IsHeapPage}

-- The one block of a new page.
abbrev pub whole_page : Block
whole_page = record { size = 4048; free = true }

module _ (m : Memory) (phys v pages : ℕ) (from : heap_start ≤ v) (to : v + 4096 ≤ heap_end)
    (al : v % 4096 ≡ 0) (away : (pages ≡ 0) ⊎ (pages + 4096 ≤ v)) where
  formatted : format_page m phys v pages ≡ (
      let m1 = put_word (put_word m v 0xC0FFEE42) (v + 4) phys in
      let m1 = put_word (put_word m1 (v + 8) v) (v + 12) pages in
      let m1 = put_word (put_word m1 (v + 16) 0) (v + 20) (v + 24) in
      let m1 = put_header m1 (v + 24) 4048 0 0 1 v in
      if pages == 0 then m1 else put_word m1 (pages + 16) v)
  unfolding format_page
  formatted =
      let up : ((v + 24 + 7) % 2 ^ 32) / 8 * 8 ≡ v + 24 = omega arith in
      let size : (4096 - (v + 24 - v) - 24) / 8 * 8 ≡ 4048 = omega arith in rw (up, size) refl

  pub format_page-IsHeapPage : IsHeapPage (format_page m phys v pages) v (whole_page ∷ [])
  format_page-IsHeapPage = rw formatted (record {
    magic = ground arith;
    virt = ground arith;
    first = ground arith;
    from = from;
    to = to;
    aligned = omega arith;
    chain = (
      record {
        magic = ground arith;
        size = ground arith;
        next = ground arith;
        prev = ground arith;
        free = ground arith;
        page = ground arith;
        positive = omega arith;
        aligned = omega arith;
      },
      omega arith,
    );
  })

-- The heap behind heap_init, with the page at `phys`.
abbrev pub started : KernelHeap → (phys : ℕ) → Pmm → KernelHeap
started h phys q =
    enter_page
      (record h {
        paging = record h.paging { pmm = q };
        heap_pages = 0;
        heap_next_virtual = heap_start;
      })
      phys

heap_init_lem :
    (h : KernelHeap) {phys : ℕ} {q : Pmm}
    → alloc_page h.paging.pmm ≡ (some phys, q)
    → heap_init h ≡ (true, started h phys q)
unfolding heap_init heap_alloc_page
heap_init_lem h e = rw (ap (λ (r : Option ℕ × Pmm). r.0) e, ap (λ (r : Option ℕ × Pmm). r.1) e) refl

-- With a page for it heap_init succeeds, and kmalloc of 1 to 4048 bytes then gives the address behind
-- the two headers of that page, which holds the taken block and what is left of the page.
pub kmalloc-heap_init :
    (h : KernelHeap) (n : ℕ) {phys : ℕ} {q : Pmm}
    → alloc_page h.paging.pmm ≡ (some phys, q)
    → 0 < n
    → n ≤ 4048
    → (h' : KernelHeap) × (m : Memory) × (heap_init h ≡ (true, h'))
      × (kmalloc n h' ≡ some (heap_start + 48, record h' { memory = m }))
      × IsHeapPage m heap_start (rest_of whole_page (align_up n 8))
kmalloc-heap_init h n {phys} {q} e pos le =
    let page =
      format_page-IsHeapPage h.memory phys heap_start 0 (omega arith) (omega arith) (omega arith)
        (inl refl) in
    let (m, t) =
      kmalloc_lem (started h phys q) n [] whole_page pos (omega arith) page tt refl (omega arith) in
    (started h phys q, m, heap_init_lem h e, t.returns, t.blocks)
