-- ===== src/KernelHeap/Take.antt =====
-- What kmalloc makes of the last block of a page: it is taken whole, or split.
use myunixlikeos.Common.{
  ℕ, ◌+◌, ◌-◌, ◌%◌, ◌<◌, ◌≤◌, ◌≡◌, leb, true, false, List, [], ◌∷◌, arith, if◌then◌else◌, Bool,
  Bool-cases, inl, inr, refl, ◌^◌,
}
use myunixlikeos.KernelHeap.{Memory, heap_start, heap_end, split_block, put_word, take_block}
use myunixlikeos.KernelHeap.Chain.{Block, Header, Chain}

-- What is left of a block of `rest` bytes behind `size` of them.
abbrev pub rest_of : Block → ℕ → List Block
rest_of b size =
    if leb 40 (b.size - size)
    then record { size = size; free = false }
      ∷ record { size = b.size - size - 24; free = true }
      ∷ []
    else record { size = b.size; free = false } ∷ []

module _ (m : Memory) (page prev a size : ℕ) (b : Block) (virt : m (page + 8) ≡ page)
    (from : heap_start ≤ page) (to : page + 4096 ≤ heap_end) (lo : page + 24 ≤ a)
    (small : size ≤ b.size) (some_bytes : 0 < size) (al : size % 8 ≡ 0)
    (header : Header m page prev a b 0) (last : a + 24 + b.size ≡ page + 4096) where
  split_Chain :
      40 ≤ b.size - size
      → Chain
          (put_word (split_block m page a size (a + 24 + size) (b.size - size)) (a + 16) 0)
          page
          prev
          a
          (record { size = size; free = false }
            ∷ record { size = b.size - size - 24; free = true }
            ∷ [])
  unfolding split_block
  split_Chain h = (ground arith, (ground arith, ground arith))

  whole_Chain :
      Chain (put_word m (a + 16) 0) page prev a (record { size = b.size; free = false } ∷ [])
  whole_Chain = (ground arith, ground arith)

  split_before :
      (x : ℕ)
      → x < a
      → 40 ≤ b.size - size
      → split_block m page a size (a + 24 + size) (b.size - size) x ≡ m x
  unfolding split_block
  split_before x h k = ground arith

  taken_memory :
      take_block m page a size
      ≡ put_word
          (if leb 40 (b.size - size)
            then split_block m page a size (a + 24 + size) (b.size - size)
            else m)
          (a + 16)
          0
  unfolding take_block
  taken_memory =
      let end : (page + 4096) % 2 ^ 32 ≡ page + 4096 = omega arith in
      let payload : (a + 24) % 2 ^ 32 ≡ a + 24 = omega arith in
      let left : page + 4096 - (a + 24) ≡ b.size = omega arith in
      let remaining : page + 4096 - (a + 24 + size) ≡ b.size - size = omega arith in
      let fits : leb size b.size ≡ true = ground arith in
      rw (virt, end, payload, left, remaining, fits) refl

  pub take_Chain : Chain (take_block m page a size) page prev a (rest_of b size)
  take_Chain = rw taken_memory (by_room (leb 40 (b.size - size)) refl)
    where
      by_room :
          (t : Bool)
          → leb 40 (b.size - size) ≡ t
          → Chain
              (put_word
                (if t then split_block m page a size (a + 24 + size) (b.size - size) else m)
                (a + 16)
                0)
              page
              prev
              a
              (if t
                then record { size = size; free = false }
                  ∷ record { size = b.size - size - 24; free = true }
                  ∷ []
                else record { size = b.size; free = false } ∷ [])
      by_room true e = split_Chain (ground arith)
      by_room false e = whole_Chain

  pub take_before : (x : ℕ) → x < a → take_block m page a size x ≡ m x
  take_before x h = rw taken_memory (elim (Bool-cases (leb 40 (b.size - size))) [
    | inl e ↦ rw e (ground (arith, split_before x h))
    | inr e ↦ rw e (ground arith)
  ])
