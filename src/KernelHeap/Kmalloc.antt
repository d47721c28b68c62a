-- ===== src/KernelHeap/Kmalloc.antt =====
-- kmalloc of a kernel heap whose first page has room in its last block.
use myunixlikeos.Common.{
  ℕ, suc, ◌+◌, ◌%◌, ◌<◌, ◌≤◌, ◌≡◌, ◌&&◌, ◌||◌, leb, true, false, List, [], ◌∷◌, ◌++◌, arith, some,
  All, Bool-cases, inl, inr, ltb, refl, ◌-◌, ◌==◌, ◌^◌,
}
use myunixlikeos.KernelHeap.{
  Memory, walk_pages, take_block, taken_block, taken, KernelHeap, align_up, kmalloc, kmalloc_loop,
  page_rounds,
}
use myunixlikeos.KernelHeap.Chain.{
  Block, Chain, IsHeapPage, end_of, last_of, Chain-split, Chain-join, IsHeapPage-Same, Same,
  Segment-Same, end_of-ge,
}
use myunixlikeos.KernelHeap.Take.{rest_of, take_Chain, take_before}
use myunixlikeos.KernelHeap.Valid.{first_fit, heap_find_free_block_lem, heap_validate_page_lem}

-- No block of the list is free and large enough.
abbrev pub NoneFits : ℕ → List Block → Type 0
NoneFits size bs = All (λ c. (c.free && leb size c.size) ≡ false) bs

first_fit-append :
    (size a : ℕ) (bs : List Block) (b : Block)
    → NoneFits size bs
    → b.free ≡ true
    → size ≤ b.size
    → first_fit size a (bs ++ b ∷ []) ≡ end_of a bs
first_fit-append size a [] b h f le = ground arith
first_fit-append size a (c ∷ bs) b h f le =
    rw (h.0) (first_fit-append size (a + 24 + c.size) bs b h.1 f le)

-- The block that kmalloc takes.
abbrev pub place : ℕ → List Block → ℕ
place page bs = end_of (page + 24) bs

nonempty : (b : Block) (size : ℕ) → (c : Block) × (cs : List Block) × (rest_of b size ≡ c ∷ cs)
nonempty b size = elim (Bool-cases (leb 40 (b.size - size))) [
  | inl e ↦ (
    record { size = size; free = false },
    record { size = b.size - size - 24; free = true } ∷ [],
    rw e refl,
  )
  | inr e ↦ (record { size = b.size; free = false }, [], rw e refl)
]

-- A page keeps its blocks before one whose place the list `cs` takes.
pub replace_last :
    {m m' : Memory} (page : ℕ) (bs : List Block) (b c : Block) (ds cs : List Block)
    → IsHeapPage m page (bs ++ b ∷ ds)
    → Same m m' page (place page bs)
    → Chain m' page (last_of 0 (page + 24) bs) (place page bs) (c ∷ cs)
    → IsHeapPage m' page (bs ++ c ∷ cs)
replace_last {m} {m'} page bs b c ds cs p s h =
    let ge = end_of-ge (page + 24) bs in
    let before = (Chain-split m page 0 (page + 24) bs b ds p.chain).0 in
    IsHeapPage-Same p (λ x l u. s x l (omega arith))
      (Chain-join m' page 0 (page + 24) bs c cs
        (Segment-Same page 0 (page + 24) bs (λ x l u. s x (omega arith) u) before) h)

module _ (m : Memory) (page size : ℕ) (bs : List Block) (b : Block)
    (p : IsHeapPage m page (bs ++ b ∷ [])) (none_fits : NoneFits size bs) (usable : b.free ≡ true)
    (some_bytes : 0 < size) (al : size % 8 ≡ 0) (small : size ≤ b.size) where
  last_block : Chain m page (last_of 0 (page + 24) bs) (place page bs) (b ∷ [])
  last_block = (Chain-split m page 0 (page + 24) bs b [] p.chain).1

  Same-before : Same m (take_block m page (place page bs) size) page (place page bs)
  Same-before x l u =
      take_before m page (last_of 0 (page + 24) bs) (place page bs) size b p.virt p.from p.to
        (end_of-ge (page + 24) bs) small some_bytes al last_block.0 last_block.1 x u

  taken_page : IsHeapPage (take_block m page (place page bs) size) page (bs ++ rest_of b size)
  taken_page =
      let (c, cs, e) = nonempty b size in
      let chain =
        take_Chain m page (last_of 0 (page + 24) bs) (place page bs) size b p.virt p.from p.to
          (end_of-ge (page + 24) bs) small some_bytes al last_block.0 last_block.1 in
      rw e (replace_last page bs b c [] cs p Same-before (rw e at chain))

  walk_taken :
      (n : ℕ)
      → walk_pages (suc n) m size page
        ≡ some (taken (place page bs + 24) (take_block m page (place page bs) size))
  unfolding walk_pages taken_block
  walk_taken n =
      let nonzero : (page == 0) ≡ false = ground (arith, p.from) in
      let found = heap_find_free_block_lem p size in
      let at = first_fit-append size (page + 24) bs b none_fits usable small in
      let here : (end_of (page + 24) bs == 0) ≡ false = ground (arith, end_of-ge (page + 24) bs) in
      let bound : ltb ((page + 4096) % 2 ^ 32) ((end_of (page + 24) bs + 24) % 2 ^ 32) ≡ false =
        ground (arith, end_of-ge (page + 24) bs, last_block.1, p.to) in
      rw (nonzero, heap_validate_page_lem p, found, at, here, p.virt, bound) refl

-- What kmalloc of `size` bytes, a multiple of 8, does with the last block of a page, behind `bs`.
pub record Takes (h : KernelHeap) (n size page : ℕ) (bs : List Block) (b : Block) (memory : Memory)
    : Type 0 where
  pub returns : kmalloc n h ≡ some (place page bs + 24, record h { memory = memory })
  pub blocks : IsHeapPage memory page (bs ++ rest_of b size)
  pub kept : (x : ℕ) → x < place page bs → memory x ≡ h.memory x

pub loop_taken :
    (n size : ℕ) (h : KernelHeap) {p : ℕ} {m : Memory}
    → walk_pages page_rounds h.memory size h.heap_pages ≡ some (taken p m)
    → kmalloc_loop (suc n) size h ≡ some (p, record h { memory = m })
unfolding kmalloc_loop
loop_taken n size h e = rw (e, kmalloc_loop) refl

pub is_request : (n : ℕ) → 0 < n → n ≤ 2 ^ 32 - 8 → ((n == 0) || ltb (2 ^ 32 - 1 - 7) n) ≡ false
is_request n h k = ground arith

-- For a request of 1 to 2^32 - 8 bytes, rounded up to a multiple of 8, and a heap whose first page ends
-- in a free block that is large enough, with none that is before it: kmalloc returns the address
-- behind that block's header, and the page is again a list of blocks in which this one is taken, cut
-- to the size if at least 40 bytes are left. No word before the block changes.
pub kmalloc_lem :
    (h : KernelHeap) (n : ℕ) (bs : List Block) (b : Block)
    → 0 < n
    → n ≤ 2 ^ 32 - 8
    → IsHeapPage h.memory h.heap_pages (bs ++ b ∷ [])
    → NoneFits (align_up n 8) bs
    → b.free ≡ true
    → align_up n 8 ≤ b.size
    → (memory : Memory) × Takes h n (align_up n 8) h.heap_pages bs b memory
unfolding kmalloc
kmalloc_lem h n bs b pos le p f u s =
    let page = h.heap_pages in
    let size = align_up n 8 in
    let some_bytes : 0 < align_up n 8 = omega arith in
    let al : align_up n 8 % 8 ≡ 0 = omega arith in
    let walk = walk_taken h.memory page size bs b p f u some_bytes al s 65536 in
    (
      take_block h.memory page (place page bs) size,
      record {
        returns = rw (is_request n pos le) (loop_taken 65536 size h walk);
        blocks = taken_page h.memory page size bs b p f u some_bytes al s;
        kept =
            take_before h.memory page (last_of 0 (page + 24) bs) (place page bs) size b p.virt
              p.from p.to (end_of-ge (page + 24) bs) s some_bytes al
              (last_block h.memory page size bs b p f u some_bytes al s).0
              (last_block h.memory page size bs b p f u some_bytes al s).1;
      },
    )
