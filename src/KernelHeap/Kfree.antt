-- ===== src/KernelHeap/Kfree.antt =====
-- kfree of a block of a heap page.
use myunixlikeos.KernelHeap.Take.{rest_of}
use myunixlikeos.KernelHeap.Valid.{heap_validate_page_lem}
use myunixlikeos.Common.{
  subst, sym, ap, append_assoc, sym, ap, ℕ, ◌+◌, ◌<◌, ◌≤◌, ◌≡◌, true, false, List, [], ◌∷◌, refl,
  sym, ap, arith, if◌then◌else◌, Bool, inl, inr, ◌++◌, ◌⊎◌, some, ◌%◌, ◌-◌, ◌^◌, Bool-cases, leb,
}
use myunixlikeos.KernelHeap.{
  KernelHeap, kmalloc, align_up, Memory, next_at, release_block, has_block, kfree, may_free,
  heap_validate_page, page_at,
}
use myunixlikeos.KernelHeap.Chain.{
  Block, Chain, Chain-split, IsHeapPage, IsHeapPage-Same, end_of, end_of-ge, last_of, Chain-le,
  Header, link,
}
use myunixlikeos.KernelHeap.Kmalloc.{NoneFits, kmalloc_lem, replace_last, place}
use myunixlikeos.KernelHeap.Release.{joined}
use myunixlikeos.KernelHeap.Settle.{
  last_step_first, freed, take_in, settle_blocks, release_blocks, taken_in, released_after,
  release_block-eq, take_in-cons, freed_memory,
}

-- A list is empty or has a last element.
snoc : (bs : List Block) → (bs ≡ []) ⊎ ((cs : List Block) × (q : Block) × (bs ≡ cs ++ q ∷ []))
snoc [] = inl refl
snoc (b ∷ bs) = elim (snoc bs) [
  | inl e ↦ inr ([], b, ap (λ t. b ∷ t) e)
  | inr (cs, q, e) ↦ inr (b ∷ cs, q, ap (λ t. b ∷ t) e)
]

release-snoc :
    (bs : List Block) (q b : Block) (cs : List Block)
    → release_blocks (bs ++ q ∷ []) b cs ≡ bs ++ settle_blocks q (take_in (freed b) cs)
release-snoc [] q b cs = refl
release-snoc (x ∷ []) q b cs = refl
release-snoc (x ∷ y ∷ bs) q b cs = ap (λ t. x ∷ t) (release-snoc (y ∷ bs) q b cs)

settled_cons :
    (q y : Block) (ys : List Block) (t : Bool)
    → (x : Block) × (xs : List Block) × ((if t then joined q y ∷ ys else q ∷ y ∷ ys) ≡ x ∷ xs)
settled_cons q y ys true = (joined q y, ys, refl)
settled_cons q y ys false = (q, y ∷ ys, refl)

settle-cons :
    (q b : Block) (cs : List Block)
    → (x : Block) × (xs : List Block) × (settle_blocks q (take_in (freed b) cs) ≡ x ∷ xs)
settle-cons q b cs = let (y, ys, e) = take_in-cons (freed b) cs in rw e (settled_cons q y ys q.free)

end_of-snoc :
    (a : ℕ) (bs : List Block) (q : Block) → end_of a (bs ++ q ∷ []) ≡ end_of a bs + 24 + q.size
end_of-snoc a [] q = refl
end_of-snoc a (b ∷ bs) q = end_of-snoc (a + 24 + b.size) bs q

module _ (m : Memory) (page : ℕ) (b : Block) (cs : List Block) where
  released_first :
      IsHeapPage m page (b ∷ cs)
      → IsHeapPage (release_block m (page + 24)) page (take_in (freed b) cs)
  released_first p =
      let (c, k) = taken_in page 0 (page + 24) b p.from p.to (omega arith) m cs p.chain in
      let (x, xs, e) = take_in-cons (freed b) cs in
      let head = (rw e at c).0 in
      rw
        (
          release_block-eq m (page + 24),
          last_step_first (freed_memory m (page + 24)) (page + 24) head.prev,
        )
        (IsHeapPage-Same p (λ y l u. k y u) c)

  released_behind :
      (bs : List Block) (q : Block)
      → IsHeapPage m page (bs ++ q ∷ b ∷ cs)
      → IsHeapPage
          (release_block m (place page bs + 24 + q.size))
          page
          (bs ++ settle_blocks q (take_in (freed b) cs))
  released_behind bs q p =
      let (_, h) = Chain-split m page 0 (page + 24) bs q (b ∷ cs) p.chain in
      let ge = end_of-ge (page + 24) bs in
      let (c, k) =
        released_after page (last_of 0 (page + 24) bs) (place page bs) q p.from p.to (omega arith) m
          b cs h in
      let (x, xs, e) = settle-cons q b cs in
      rw e (replace_last page bs q x (b ∷ cs) xs p (λ y l u. k y u) (rw e at c))

module _ (m : Memory) (page : ℕ) (bs : List Block) (b : Block) (cs : List Block)
    (p : IsHeapPage m page (bs ++ b ∷ cs)) (used : b.free ≡ false) where
  own-Chain : Chain m page (last_of 0 (page + 24) bs) (place page bs) (b ∷ cs)
  own-Chain = (Chain-split m page 0 (page + 24) bs b cs p.chain).1

  own_end : place page bs + 24 + b.size ≤ page + 4096
  own_end = Chain-le m page (place page bs) (place page bs + 24 + b.size) cs own-Chain.1

  test_block : has_block m (place page bs + 24) ≡ true
  test_block =
      let block : place page bs + 24 - 24 ≡ place page bs = omega arith in
      let ge = end_of-ge (page + 24) bs in
      let h = own-Chain.0 in
      rw (block, h.magic, h.page, p.magic) (ground (arith, own_end, p.from, p.to))

  linked :
      (next_at m (place page bs) ≡ 0) ⊎ (next_at m (place page bs) ≡ place page bs + 24 + b.size)
  linked = by_next cs own-Chain.0
    where
      by_next :
          (ds : List Block)
          → Header m page
              (last_of 0 (page + 24) bs)
              (place page bs)
              b
              (link (place page bs + 24 + b.size) ds)
          → (next_at m (place page bs) ≡ 0)
            ⊎ (next_at m (place page bs) ≡ place page bs + 24 + b.size)
      by_next [] h = inl h.next
      by_next (d ∷ ds) h = inr h.next

  test_free : may_free m (place page bs) ≡ true
  test_free =
      let ge = end_of-ge (page + 24) bs in
      let h = own-Chain.0 in
      let sum : (place page bs + 24) % 2 ^ 32 ≡ place page bs + 24 = omega (arith, own_end, p.to) in
      let sum' : (place page bs + 24 + b.size) % 2 ^ 32 ≡ place page bs + 24 + b.size =
        omega (arith, own_end, p.to) in
      let end : (page + 4096) % 2 ^ 32 ≡ page + 4096 = omega (arith, p.to) in
      rw (h.page, p.virt, h.size, h.free, used, sum, sum', end)
        (elim linked [
          | inl e ↦ rw e (ground (arith, own_end, ge))
          | inr e ↦ rw e (ground (arith, own_end, ge))
        ])

  kfree_returns : kfree (place page bs + 24) m ≡ some (release_block m (place page bs))
  unfolding kfree
  kfree_returns =
      let block : place page bs + 24 - 24 ≡ place page bs = omega arith in
      let valid : heap_validate_page m (page_at m (place page bs)) ≡ some true =
        rw own-Chain.0.page (heap_validate_page_lem p) in
      rw (test_block, block, valid, test_free) refl

  abbrev Releases : List Block → Type 0
  Releases l =
      IsHeapPage m page (l ++ b ∷ cs)
      → IsHeapPage (release_block m (place page l)) page (release_blocks l b cs)

  Releases-behind : (ds : List Block) (q : Block) → Releases (ds ++ q ∷ [])
  Releases-behind ds q p' =
      rw (end_of-snoc (page + 24) ds q, release-snoc ds q b cs)
        (released_behind m page b cs ds q (rw (append_assoc ds (q ∷ []) (b ∷ cs)) at p'))

  releases : IsHeapPage (release_block m (place page bs)) page (release_blocks bs b cs)
  releases = by_shape (snoc bs)
    where
      by_shape :
          (bs ≡ []) ⊎ ((ds : List Block) × (q : Block) × (bs ≡ ds ++ q ∷ []))
          → IsHeapPage (release_block m (place page bs)) page (release_blocks bs b cs)
      by_shape (inl e) = subst Releases (sym e) (released_first m page b cs) p
      by_shape (inr (ds, q, e)) = subst Releases (sym e) (Releases-behind ds q) p

-- kfree of the pointer to a taken block of a page returns, and the blocks of the page are those from
-- before with this one free, and one with the block behind it and the block before it if these are
-- free.
pub kfree_lem :
    (m : Memory) (page : ℕ) (bs : List Block) (b : Block) (cs : List Block)
    → IsHeapPage m page (bs ++ b ∷ cs)
    → b.free ≡ false
    → (m' : Memory) × (kfree (place page bs + 24) m ≡ some m')
      × IsHeapPage m' page (release_blocks bs b cs)
kfree_lem m page bs b cs p used = (
  release_block m (place page bs),
  kfree_returns m page bs b cs p used,
  releases m page bs b cs p used,
)

-- The last block is taken, if there is one.
abbrev pub LastUsed : List Block → Type 0
LastUsed [] = Unit
LastUsed (q ∷ []) = q.free ≡ false
LastUsed (q ∷ r ∷ bs) = LastUsed (r ∷ bs)

settle_used : (q : Block) (l : List Block) → q.free ≡ false → settle_blocks q l ≡ q ∷ l
settle_used q [] e = refl
settle_used q (x ∷ xs) e = rw e refl

release_used :
    (bs : List Block) (b : Block) (cs : List Block)
    → LastUsed bs
    → release_blocks bs b cs ≡ bs ++ take_in (freed b) cs
release_used [] b cs h = refl
release_used (q ∷ []) b cs h = settle_used q (take_in (freed b) cs) h
release_used (q ∷ r ∷ bs) b cs h = ap (λ l. q ∷ l) (release_used (r ∷ bs) b cs h)

-- Freeing what was taken of a block gives the block.
abbrev taken_part : Block → ℕ → Block
taken_part b size =
    if leb 40 (b.size - size)
    then record { size = size; free = false }
    else record { size = b.size; free = false }

abbrev left_part : Block → ℕ → List Block
left_part b size =
    if leb 40 (b.size - size) then record { size = b.size - size - 24; free = true } ∷ [] else []

parts : (b : Block) (size : ℕ) → rest_of b size ≡ taken_part b size ∷ left_part b size
parts b size = elim (Bool-cases (leb 40 (b.size - size))) [ inl e ↦ rw e refl | inr e ↦ rw e refl ]

parts_used : (b : Block) (size : ℕ) → (taken_part b size).free ≡ false
parts_used b size = elim (Bool-cases (leb 40 (b.size - size))) [
  | inl e ↦ rw e refl
  | inr e ↦ rw e refl
]

parts_joined :
    (b : Block) (size : ℕ)
    → b.free ≡ true
    → take_in (freed (taken_part b size)) (left_part b size) ≡ b ∷ []
parts_joined b size f = elim (Bool-cases (leb 40 (b.size - size))) [
  | inl e ↦ rw e (ground arith)
  | inr e ↦ rw e (ground arith)
]

-- A kernel heap whose first page ends in a free block with room for a request, and with no block before
-- it that is free and large enough or, right before it, free at all: kmalloc gives a pointer, and
-- kfree of the pointer gives a page with the blocks from before.
pub kfree-kmalloc :
    (h : KernelHeap) (n : ℕ) (bs : List Block) (b : Block)
    → 0 < n
    → n ≤ 2 ^ 32 - 8
    → IsHeapPage h.memory h.heap_pages (bs ++ b ∷ [])
    → NoneFits (align_up n 8) bs
    → LastUsed bs
    → b.free ≡ true
    → align_up n 8 ≤ b.size
    → (p : ℕ) × (m m' : Memory) × (kmalloc n h ≡ some (p, record h { memory = m }))
      × (kfree p m ≡ some m')
      × IsHeapPage m' h.heap_pages (bs ++ b ∷ [])
kfree-kmalloc h n bs b pos le p f last u s =
    let size = align_up n 8 in
    let page = h.heap_pages in
    let (m, t) = kmalloc_lem h n bs b pos le p f u s in
    let own = rw (parts b (align_up n 8)) at t.blocks in
    let (m', e, q) =
      kfree_lem m page bs (taken_part b size) (left_part b size) own (parts_used b size) in
    (
      place page bs + 24,
      m,
      m',
      t.returns,
      e,
      rw (release_used bs (taken_part b size) (left_part b size) last, parts_joined b size u) at q,
    )
