-- ===== src/KernelHeap/Tests.antt =====
-- The kernel heap at concrete inputs: a new page, two requests, and the first of them given back.
use myunixlikeos.Common.{ℕ, ◌+◌, ◌≡◌, Bool, true, false, [], ◌∷◌, refl, arith, inl, some}
use myunixlikeos.KernelHeap.{
  Memory, KernelHeap, heap_start, format_page, kmalloc, kfree, heap_validate_page,
  heap_find_free_block,
}
use myunixlikeos.KernelHeap.Chain.{Block, IsHeapPage}
use myunixlikeos.KernelHeap.Fresh.{whole_page, format_page-IsHeapPage}
use myunixlikeos.KernelHeap.Kfree.{kfree_lem, kfree-kmalloc}
use myunixlikeos.KernelHeap.Kmalloc.{Takes, kmalloc_lem}
use myunixlikeos.KernelHeap.Reuse.{kmalloc_corrupts}
use myunixlikeos.KernelHeap.Rounds.{heap_find_free_block_total}
use myunixlikeos.Paging.Sample.{empty_paging, six_free}
use myunixlikeos.Pmm.{alloc_page_loop, alloc_page, bitmap_test}
use myunixlikeos.Common.Bytes.{bit_at}

abbrev no_words : Memory
no_words a = 0

abbrev fresh : KernelHeap
fresh = record {
  paging = empty_paging;
  memory = format_page no_words 0x103000 heap_start 0;
  heap_pages = heap_start;
  heap_next_virtual = 0xC0001000;
}

fresh-IsHeapPage : IsHeapPage fresh.memory heap_start (whole_page ∷ [])
fresh-IsHeapPage =
    format_page-IsHeapPage no_words 0x103000 heap_start 0 (omega arith) (omega arith) (omega arith)
      (inl refl)

abbrev block : ℕ → Bool → Block
block size free = record { size = size; free = free }

first_page : alloc_page six_free ≡ (some 0x103000, (alloc_page six_free).1)
unfolding alloc_page alloc_page_loop bitmap_test bit_at
first_page = refl

kmalloc_lem_example : (m : Memory) × Takes fresh 100 104 heap_start [] whole_page m
kmalloc_lem_example =
    kmalloc_lem fresh 100 [] whole_page (omega arith) (omega arith) fresh-IsHeapPage tt refl
      (omega arith)

one_taken : (m : Memory) × IsHeapPage m heap_start (block 104 false ∷ block 3920 true ∷ [])
one_taken =
    let (m, t) =
      kmalloc_lem fresh 100 [] whole_page (omega arith) (omega arith) fresh-IsHeapPage tt refl
        (omega arith) in
    (m, t.blocks)

heap_after : Memory → KernelHeap
heap_after m = record fresh { memory = m }

two_taken :
    (m : Memory) × IsHeapPage m heap_start (block 104 false ∷ block 56 false ∷ block 3840 true ∷ [])
unfolding heap_after
two_taken =
    let (m, t) =
      kmalloc_lem (heap_after one_taken.0) 50 (block 104 false ∷ []) (block 3920 true) (omega arith)
        (omega arith) one_taken.1 (refl, tt) refl (omega arith) in
    (m, t.blocks)

kfree_lem_example :
    (m' : Memory) × (kfree (0xC0000018 + 24) two_taken.0 ≡ some m')
    × IsHeapPage m' heap_start (block 104 true ∷ block 56 false ∷ block 3840 true ∷ [])
kfree_lem_example =
    kfree_lem two_taken.0 heap_start [] (block 104 false) (block 56 false ∷ block 3840 true ∷ [])
      two_taken.1 refl

one_freed :
    (m : Memory) × IsHeapPage m heap_start (block 104 true ∷ block 56 false ∷ block 3840 true ∷ [])
one_freed =
    let (m, e, p) =
      kfree_lem two_taken.0 heap_start [] (block 104 false) (block 56 false ∷ block 3840 true ∷ [])
        two_taken.1 refl in
    (m, p)

kfree-kmalloc_example :
    (p : ℕ) × (m m' : Memory) × (kmalloc 50 (heap_after one_taken.0)
      ≡ some (p, record (heap_after one_taken.0) { memory = m }))
    × (kfree p m ≡ some m')
    × IsHeapPage m' heap_start (block 104 false ∷ block 3920 true ∷ [])
unfolding heap_after
kfree-kmalloc_example =
    kfree-kmalloc (heap_after one_taken.0) 50 (block 104 false ∷ []) (block 3920 true) (omega arith)
      (omega arith) one_taken.1 (refl, tt) refl refl (omega arith)

kmalloc_corrupts_example :
    (m : Memory) × (kmalloc 8 (heap_after one_freed.0)
      ≡ some (0xC0000030, record (heap_after one_freed.0) { memory = m }))
    × (heap_validate_page m heap_start ≡ some false)
    × ((k : ℕ)
        → kmalloc k (record (heap_after one_freed.0) { memory = m })
          ≡ some (0, record (heap_after one_freed.0) { memory = m }))
unfolding heap_after
kmalloc_corrupts_example =
    kmalloc_corrupts (heap_after one_freed.0) 8 (block 104 true) (block 56 false)
      (block 3840 true ∷ []) (omega arith) (omega arith) one_freed.1 refl (omega arith)
      (omega arith)

-- a block whose next block is itself
abbrev looping : Memory
looping a = 0xC0000000

heap_find_free_block_total_example :
    ((r : Bool) × (heap_validate_page looping 0xC0000000 ≡ some r))
    × ((b : ℕ) × (heap_find_free_block looping 0xC0000000 8 ≡ some b))
heap_find_free_block_total_example = heap_find_free_block_total looping 0xC0000000 8
