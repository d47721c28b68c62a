-- ===== src/KernelHeap/Valid.antt =====
-- A page of blocks passes heap_validate_page, and heap_find_free_block gives the first that fits.
use myunixlikeos.Common.{
  ℕ, zero, suc, ◌+◌, ◌*◌, ◌%◌, ◌≤◌, ◌≡◌, true, List, [], ◌∷◌, refl, arith, some, inl, inr, ◌⊎◌,
  Bool, false, if◌then◌else◌, leb, not, ◌&&◌, ◌==◌, ◌^◌,
}
use myunixlikeos.KernelHeap.{
  Memory, heap_start, heap_end, heap_validate_block, validate_blocks, add32, extent_is_valid,
  link_is_valid, find_free, free_at, size_at, block_rounds, first_block, heap_find_free_block,
  heap_validate_page, page_is_valid,
}
use myunixlikeos.KernelHeap.Chain.{Block, Chain, Chain-le, link, Header, flag, IsHeapPage}

-- The first free block of at least `size` bytes; 0 if there is none.
abbrev pub first_fit : (size a : ℕ) → List Block → ℕ
first_fit size a [] = 0
first_fit size a (b ∷ bs) =
    if b.free && leb size b.size then a else first_fit size (a + 24 + b.size) bs

chosen : (t : Bool) (a b : ℕ) → (if t then some a else some b) ≡ some (if t then a else b)
chosen true a b = refl
chosen false a b = refl

module _ (m : Memory) (page : ℕ) (virt : m (page + 8) ≡ page) (from : heap_start ≤ page)
    (to : page + 4096 ≤ heap_end) where
  page_end : (page + 4096) % 2 ^ 32 ≡ page + 4096
  page_end = omega arith

  next_is_linked :
      (prev a behind : ℕ) (c : Block)
      → page ≤ a
      → a + 24 ≤ page + 4096
      → Header m page prev a c behind
      → link_is_valid m page (page + 4096) a prev a ≡ true
  next_is_linked prev a behind c lo hi h = ground arith

  extent_of_block :
      (prev a behind : ℕ) (b : Block)
      → page + 24 ≤ a
      → a % 8 ≡ 0
      → a + 24 + b.size ≤ page + 4096
      → Header m page prev a b behind
      → (behind ≡ 0) ⊎ (link_is_valid m page (page + 4096) (a + 24 + b.size) a behind ≡ true)
      → extent_is_valid m page (page + 4096) a (a + 24) ≡ true
  extent_of_block prev a behind b lo al hi h (inl z) = ground arith
  extent_of_block prev a behind b lo al hi h (inr l) =
      let sum : add32 (a + 24) b.size ≡ a + 24 + b.size = omega arith in
      rw (h.size, h.next, sum, l) (ground arith)

  block_is_valid :
      (prev a behind : ℕ) (b : Block)
      → page + 24 ≤ a
      → a % 8 ≡ 0
      → a + 24 + b.size ≤ page + 4096
      → Header m page prev a b behind
      → (behind ≡ 0) ⊎ (link_is_valid m page (page + 4096) (a + 24 + b.size) a behind ≡ true)
      → heap_validate_block m page a ≡ true
  unfolding heap_validate_block
  block_is_valid prev a behind b lo al hi h l =
      let e = extent_of_block prev a behind b lo al hi h l in
      let end : add32 a 24 ≡ a + 24 = omega arith in
      rw (h.magic, h.page, virt, end, page_end, e) (ground arith)

  Chain-is_valid :
      (prev a : ℕ) (b : Block) (bs : List Block)
      → page + 24 ≤ a
      → a % 8 ≡ 0
      → Chain m page prev a (b ∷ bs)
      → heap_validate_block m page a ≡ true
  Chain-is_valid prev a b [] lo al (h, t) =
      block_is_valid prev a 0 b lo al (omega arith) h (inl refl)
  Chain-is_valid prev a b (c ∷ cs) lo al (h, t) =
      let next = a + 24 + b.size in
      let le = Chain-le m page next (next + 24 + c.size) cs t.1 in
      block_is_valid prev a next b lo al (omega arith) h (
        inr
          (next_is_linked a next (link (next + 24 + c.size) cs) c (omega arith) (omega arith) t.0))

  next_aligned :
      (prev a : ℕ) (b : Block) (bs : List Block)
      → a % 8 ≡ 0
      → Chain m page prev a (b ∷ bs)
      → (a + 24 + b.size) % 8 ≡ 0
  next_aligned prev a b bs al h = omega (arith, h.0.aligned)

  blocks_are_valid :
      (n prev a : ℕ) (bs : List Block)
      → page + 24 ≤ a
      → a % 8 ≡ 0
      → page + 4128 ≤ a + 32 * n
      → Chain m page prev a bs
      → validate_blocks n m page (link a bs) ≡ some true
  unfolding validate_blocks
  blocks_are_valid zero prev a bs lo al k h = absurd (omega (arith, Chain-le m page prev a bs h))
  blocks_are_valid (suc n) prev a [] lo al k h = refl
  blocks_are_valid (suc n) prev a (b ∷ bs) lo al k h =
      let nonzero : (a == 0) ≡ false = ground arith in
      let next = h.0.next in
      rw (nonzero, Chain-is_valid prev a b bs lo al h, next)
        (blocks_are_valid n a (a + 24 + b.size) bs (omega arith) (next_aligned prev a b bs al h)
          (omega (arith, h.0.positive, h.0.aligned)) h.1)

  fits_here :
      (a size : ℕ) (b : Block)
      → m (a + 16) ≡ flag b.free
      → m (a + 4) ≡ b.size
      → (not (free_at m a == 0) && leb size (size_at m a)) ≡ (b.free && leb size b.size)
  fits_here a size b e f = ground arith

  find_first :
      (n size prev a : ℕ) (bs : List Block)
      → page + 24 ≤ a
      → a % 8 ≡ 0
      → page + 4128 ≤ a + 32 * n
      → Chain m page prev a bs
      → find_free n m page size (link a bs) ≡ some (first_fit size a bs)
  unfolding find_free
  find_first zero size prev a bs lo al k h = absurd (omega (arith, Chain-le m page prev a bs h))
  find_first (suc n) size prev a [] lo al k h = refl
  find_first (suc n) size prev a (b ∷ bs) lo al k h =
      let nonzero : (a == 0) ≡ false = ground arith in
      let rest =
        find_first n size a (a + 24 + b.size) bs (omega arith) (next_aligned prev a b bs al h)
          (omega (arith, h.0.positive, h.0.aligned)) h.1 in
      rw
        (
          nonzero,
          Chain-is_valid prev a b bs lo al h,
          h.0.next,
          fits_here a size b h.0.free h.0.size,
          rest,
        )
        (chosen (b.free && leb size b.size) a (first_fit size (a + 24 + b.size) bs))

first_is_valid :
    (m : Memory) (page : ℕ) (bs : List Block) → IsHeapPage m page bs → page_is_valid m page ≡ true
first_is_valid m page [] p = absurd (omega (arith, p.chain))
first_is_valid m page (b ∷ bs) p =
    let h = p.chain.0 in rw (p.first) (ground (arith, h.page, p.magic, p.virt, p.from, p.to))

link_first :
    (m : Memory) (page : ℕ) (bs : List Block)
    → IsHeapPage m page bs
    → first_block m page ≡ link (page + 24) bs
link_first m page [] p = absurd (omega (arith, p.chain))
link_first m page (b ∷ bs) p = p.first

module _ {m : Memory} {page : ℕ} {bs : List Block} (p : IsHeapPage m page bs) where
  pub heap_validate_page_lem : heap_validate_page m page ≡ some true
  unfolding heap_validate_page
  heap_validate_page_lem =
      rw (first_is_valid m page bs p, link_first m page bs p)
        (blocks_are_valid m page p.virt p.from p.to block_rounds 0 (page + 24) bs (omega arith)
          (omega (arith, p.aligned)) (omega arith) p.chain)

  pub heap_find_free_block_lem :
      (size : ℕ) → heap_find_free_block m page size ≡ some (first_fit size (page + 24) bs)
  unfolding heap_find_free_block
  heap_find_free_block_lem size =
      rw (heap_validate_page_lem, link_first m page bs p)
        (find_first m page p.virt p.from p.to block_rounds size 0 (page + 24) bs (omega arith)
          (omega (arith, p.aligned)) (omega arith) p.chain)
