-- ===== src/KernelHeap/Reuse.antt =====
-- What kmalloc makes of a free block that is not the last of its page: the block that it splits off
-- reaches to the end of the page, over the blocks behind.
use myunixlikeos.Common.{
  ltb, ◌||◌, ◌^◌, ℕ, ◌+◌, ◌-◌, ◌%◌, ◌^◌, ◌<◌, ◌≤◌, ◌≡◌, leb, true, List, ◌∷◌, refl, arith,
  Bool-cases, false, inl, inr, some, suc, ◌≢◌, Bool, if◌then◌else◌, ◌==◌,
}
use myunixlikeos.KernelHeap.{
  page_rounds, walk_pages, kmalloc, kmalloc_loop, KernelHeap, corrupted, taken, taken_block,
  align_up, heap_find_free_block, Memory, put_word, split_block, take_block, heap_validate_block,
  heap_validate_page, page_is_valid, validate_blocks,
}
use myunixlikeos.KernelHeap.Rounds.{next_is_valid}
use myunixlikeos.KernelHeap.Kmalloc.{is_request, loop_taken}
use myunixlikeos.KernelHeap.Valid.{heap_validate_page_lem, heap_find_free_block_lem}
use myunixlikeos.KernelHeap.Chain.{Block, Chain-le, IsHeapPage}

same_branches : {A : Type 0} (t : Bool) (x : A) → (if t then x else x) ≡ x
same_branches true x = refl
same_branches false x = refl

-- A page with the first block `b`, which is free, and another behind it, from which `size` bytes are
-- taken.
module _ (m : Memory) (page size : ℕ) (b c : Block) (cs : List Block)
    (p : IsHeapPage m page (b ∷ c ∷ cs)) (usable : b.free ≡ true) (some_bytes : 0 < size)
    (al : size % 8 ≡ 0) (small : size ≤ b.size)
    (room : page + 24 + 24 + size + 40 ≤ page + 4096) where
  -- Where the block stands, and the one split off.
  abbrev first : ℕ
  first = page + 24

  abbrev remainder : ℕ
  remainder = page + 24 + 24 + size

  behind : page + 24 + 24 + b.size + 24 ≤ page + 4096
  behind = omega (
    arith,
    Chain-le m page (page + 24 + 24 + b.size) (page + 24 + 24 + b.size + 24 + c.size) cs
        p.chain.1.1,
  )

  taken_memory :
      take_block m page (page + 24) size
      ≡ put_word
          (split_block m page
            (page + 24)
            size
            (page + 24 + 24 + size)
            (page + 4096 - (page + 24 + 24 + size)))
          (page + 24 + 16)
          0
  unfolding take_block
  taken_memory =
      let end : (page + 4096) % 2 ^ 32 ≡ page + 4096 = omega (arith, p.to) in
      let payload : (page + 24 + 24) % 2 ^ 32 ≡ page + 24 + 24 = omega (arith, p.to) in
      let fits : leb size (page + 4096 - (page + 24 + 24)) ≡ true = ground arith in
      let enough : leb 40 (page + 4096 - (page + 24 + 24 + size)) ≡ true = ground arith in
      rw (p.virt, end, payload, fits, enough) refl

  new_next :
      take_block m page (page + 24) size (page + 24 + 24 + size + 8) ≡ page + 24 + 24 + b.size
  unfolding split_block
  new_next = rw taken_memory (ground (arith, p.chain.0.next, behind))

  new_size :
      take_block m page (page + 24) size (page + 24 + 24 + size + 4)
      ≡ page + 4096 - (page + 24 + 24 + size) - 24
  unfolding split_block
  new_size = rw taken_memory (ground (arith, p.chain.0.next, behind, p.aligned))

  first_next : take_block m page (page + 24) size (page + 24 + 8) ≡ page + 24 + 24 + size
  unfolding split_block
  first_next = rw taken_memory (ground (arith, p.chain.0.next, behind))

  same_page : (x : ℕ) → x < page + 24 → take_block m page (page + 24) size x ≡ m x
  unfolding split_block
  same_page x l = rw taken_memory (ground (arith, p.chain.0.next, behind))

  new_block_is_invalid :
      heap_validate_block (take_block m page (page + 24) size) page (page + 24 + 24 + size) ≢ true
  new_block_is_invalid e =
      let v = next_is_valid (take_block m page (page + 24) size) page (page + 24 + 24 + size) e in
      ground (
        arith,
        v,
        new_next,
        new_size,
        same_page (page + 8),
        p.virt,
        behind,
        p.to,
        p.from,
        p.aligned,
      )

  page_is_invalid : heap_validate_page (take_block m page (page + 24) size) page ≡ some false
  unfolding heap_validate_page
  page_is_invalid = elim (Bool-cases (page_is_valid (take_block m page (page + 24) size) page)) [
    | inl e ↦ rw (e, same_page (page + 20) (omega arith), p.first) (walk 129)
    | inr e ↦ rw e refl
  ]
    where
      invalid :
          heap_validate_block (take_block m page (page + 24) size) page (page + 24 + 24 + size)
          ≡ false
      invalid =
          elim (Bool-cases (
            heap_validate_block (take_block m page (page + 24) size) page
              (page + 24 + 24 + size))) [ inl e ↦ absurd (new_block_is_invalid e) | inr e ↦ e ]

      walk :
          (n : ℕ)
          → validate_blocks (suc (suc n)) (take_block m page (page + 24) size) page (page + 24)
            ≡ some false
      walk n =
          let first_nonzero : (page + 24 == 0) ≡ false = ground arith in
          let nonzero : (page + 24 + 24 + size == 0) ≡ false = ground arith in
          rw (first_nonzero, first_next, nonzero, invalid)
            (same_branches
              (heap_validate_block (take_block m page (page + 24) size) page (page + 24))
              (some false))

  walk_taken :
      (n : ℕ)
      → walk_pages (suc n) m size page
        ≡ some (taken (page + 24 + 24) (take_block m page (page + 24) size))
  unfolding walk_pages taken_block
  walk_taken n =
      let nonzero : (page == 0) ≡ false = ground (arith, p.from) in
      let found = heap_find_free_block_lem p size in
      let fits : leb size b.size ≡ true = ground arith in
      let here : (page + 24 == 0) ≡ false = ground arith in
      let bound : ltb ((page + 4096) % 2 ^ 32) ((page + 24 + 24) % 2 ^ 32) ≡ false =
        ground (arith, p.to) in
      rw (nonzero, heap_validate_page_lem p, found, usable, fits, here, p.virt, bound) refl

corrupted_walk :
    (n : ℕ) (m : Memory) (page size : ℕ)
    → page ≢ 0
    → heap_validate_page m page ≡ some false
    → walk_pages (suc n) m size page ≡ some corrupted
unfolding walk_pages heap_find_free_block
corrupted_walk n m page size ne e =
    let nonzero : (page == 0) ≡ false = ground arith in rw (nonzero, e) refl

corrupted_loop :
    (n size : ℕ) (h : KernelHeap)
    → walk_pages page_rounds h.memory size h.heap_pages ≡ some corrupted
    → kmalloc_loop (suc n) size h ≡ some (0, h)
unfolding kmalloc_loop
corrupted_loop n size h e = rw (e, kmalloc_loop) refl

-- Once its first page is not valid a heap gives no memory any more.
corrupted_heap :
    (h : KernelHeap) (n : ℕ)
    → h.heap_pages ≢ 0
    → heap_validate_page h.memory h.heap_pages ≡ some false
    → kmalloc n h ≡ some (0, h)
unfolding kmalloc
corrupted_heap h n ne e =
    let rest =
      corrupted_loop 65536 (align_up n 8) h
        (corrupted_walk 65536 h.memory h.heap_pages (align_up n 8) ne e) in
    rw rest (same_branches ((n == 0) || ltb (2 ^ 32 - 1 - 7) n) (some (0, h)))

-- Where the first page of the heap starts with a free block that has another behind it, a request that
-- fits in the block and leaves at least 40 bytes of the page gets the block, and from then on the page
-- is not valid and every kmalloc returns NULL.
pub kmalloc_corrupts :
    (h : KernelHeap) (n : ℕ) (b c : Block) (cs : List Block)
    → 0 < n
    → n ≤ 2 ^ 32 - 8
    → IsHeapPage h.memory h.heap_pages (b ∷ c ∷ cs)
    → b.free ≡ true
    → align_up n 8 ≤ b.size
    → align_up n 8 + 88 ≤ 4096
    → (m : Memory) × (kmalloc n h ≡ some (h.heap_pages + 24 + 24, record h { memory = m }))
      × (heap_validate_page m h.heap_pages ≡ some false)
      × ((k : ℕ) → kmalloc k (record h { memory = m }) ≡ some (0, record h { memory = m }))
unfolding kmalloc
kmalloc_corrupts h n b c cs pos le p u s room =
    let page = h.heap_pages in
    let size = align_up n 8 in
    let some_bytes : 0 < align_up n 8 = omega arith in
    let al : align_up n 8 % 8 ≡ 0 = omega arith in
    let enough : h.heap_pages + 24 + 24 + align_up n 8 + 40 ≤ h.heap_pages + 4096 = omega arith in
    let walk = walk_taken h.memory page size b c cs p u some_bytes al s enough 65536 in
    let broken = page_is_invalid h.memory page size b c cs p u some_bytes al s enough in
    let m' = take_block h.memory page (page + 24) size in
    (
      m',
      rw (is_request n pos le) (loop_taken 65536 size h walk),
      broken,
      λ k. corrupted_heap (record h { memory = m' }) k (omega (arith, p.from)) broken,
    )
