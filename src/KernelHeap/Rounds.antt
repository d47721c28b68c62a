-- ===== src/KernelHeap/Rounds.antt =====
-- The walks of the kernel heap over the blocks of a page end, whatever the memory holds: a block that
-- is valid ends before the next one, and inside the page.
use myunixlikeos.Common.{
  ℕ, ◌+◌, ◌<◌, ◌≢◌, ◌&&◌, not, leb, ◌≤◌, ◌≡◌, ◌⊎◌, true, ◌%◌, Bool, arith, some, suc, zero, ◌*◌,
  Bool-cases, false, inl, inr, ◌==◌,
}
use myunixlikeos.KernelHeap.{
  Memory, heap_validate_block, next_at, heap_end, virt_at, add32, size_at, validate_blocks,
  find_free, free_at, heap_validate_page, page_is_valid, first_block, heap_find_free_block,
}

-- What a valid block says of the next one.
pub next_is_valid :
    (m : Memory) (page block : ℕ)
    → heap_validate_block m page block ≡ true
    → (next_at m block ≡ 0)
      ⊎ ((virt_at m page ≤ next_at m block)
          × (next_at m block ≤ add32 (virt_at m page) 4096)
          × (next_at m block ≡ add32 (add32 block 24) (size_at m block))
          × (add32 block 24 + size_at m block ≤ add32 (virt_at m page) 4096)
          × (0 < size_at m block)
          × (size_at m block % 8 ≡ 0)
          × (virt_at m page ≤ block))
unfolding heap_validate_block
next_is_valid m page block h = ground arith

-- `n` rounds are enough from this block on.
abbrev Enough : ℕ → Memory → (page block : ℕ) → Type 0
Enough n m page block =
    (0 < n)
    × ((block ≡ 0)
        ⊎ ((block ≤ add32 (virt_at m page) 4096)
            × (add32 (virt_at m page) 4096 + 32 < block + 32 * n)))

module _ (m : Memory) (page : ℕ) (low : add32 (virt_at m page) 4096 ≤ heap_end) where
  next-Enough :
      (n block : ℕ)
      → heap_validate_block m page block ≡ true
      → Enough (suc n) m page block
      → block ≢ 0
      → Enough n m page (next_at m block)
  next-Enough n block h k ne = ground (arith, next_is_valid m page block h)

  first-Enough :
      (n block : ℕ)
      → 130 ≤ n
      → heap_validate_block m page block ≡ true
      → Enough n m page (next_at m block)
  first-Enough n block k h = ground (arith, next_is_valid m page block h)

  validate_blocks_end :
      (n block : ℕ) → Enough n m page block → (r : Bool) × (validate_blocks n m page block ≡ some r)
  unfolding validate_blocks
  validate_blocks_end zero block h = absurd (omega arith)
  validate_blocks_end (suc n) block h = elim (Bool-cases (block == 0)) [
    | inl e ↦ (true, rw e)
    | inr e ↦ rw e (elim (Bool-cases (heap_validate_block m page block)) [
      | inl v ↦
          rw v (validate_blocks_end n (next_at m block) (next-Enough n block v h (ground arith)))
      | inr v ↦ (false, rw v)
    ])
  ]

  find_free_end :
      (n size block : ℕ)
      → Enough n m page block
      → (b : ℕ) × (find_free n m page size block ≡ some b)
  unfolding find_free
  find_free_end zero size block h = absurd (omega arith)
  find_free_end (suc n) size block h = elim (Bool-cases (block == 0)) [
    | inl e ↦ (0, rw e)
    | inr e ↦ rw e (elim (Bool-cases (heap_validate_block m page block)) [
      | inl v ↦ rw v (elim (Bool-cases (not (free_at m block == 0) && leb size (size_at m block))) [
        | inl f ↦ (block, rw f)
        | inr f ↦
            rw f (find_free_end n size (next_at m block) (next-Enough n block v h (ground arith)))
      ])
      | inr v ↦ (0, rw v)
    ])
  ]

  validate_blocks_start :
      (n block : ℕ) → 130 ≤ n → (r : Bool) × (validate_blocks (suc n) m page block ≡ some r)
  unfolding validate_blocks
  validate_blocks_start n block k = elim (Bool-cases (block == 0)) [
    | inl e ↦ (true, rw e)
    | inr e ↦ rw e (elim (Bool-cases (heap_validate_block m page block)) [
      | inl v ↦ rw v (validate_blocks_end n (next_at m block) (first-Enough n block k v))
      | inr v ↦ (false, rw v)
    ])
  ]

  find_free_start :
      (n size block : ℕ) → 130 ≤ n → (b : ℕ) × (find_free (suc n) m page size block ≡ some b)
  unfolding find_free
  find_free_start n size block k = elim (Bool-cases (block == 0)) [
    | inl e ↦ (0, rw e)
    | inr e ↦ rw e (elim (Bool-cases (heap_validate_block m page block)) [
      | inl v ↦ rw v (elim (Bool-cases (not (free_at m block == 0) && leb size (size_at m block))) [
        | inl f ↦ (block, rw f)
        | inr f ↦ rw f (find_free_end n size (next_at m block) (first-Enough n block k v))
      ])
      | inr v ↦ (0, rw v)
    ])
  ]

page_end-le :
    (m : Memory) (page : ℕ) → page_is_valid m page ≡ true → add32 (virt_at m page) 4096 ≤ heap_end
page_end-le m page h = ground arith

-- Whatever the memory holds, a page is found valid or not, and a search of it ends.
pub heap_validate_page_total :
    (m : Memory) (page : ℕ) → (r : Bool) × (heap_validate_page m page ≡ some r)
unfolding heap_validate_page
heap_validate_page_total m page = elim (Bool-cases (page_is_valid m page)) [
  | inl e ↦
      rw e
        (validate_blocks_start m page (page_end-le m page e) 130 (first_block m page) (omega arith))
  | inr e ↦ (false, rw e)
]

page_is_valid_of :
    (m : Memory) (page : ℕ) → heap_validate_page m page ≡ some true → page_is_valid m page ≡ true
unfolding heap_validate_page
page_is_valid_of m page h = ground arith

-- For any memory and any page heap_validate_page and heap_find_free_block end, also where the links
-- form a cycle or leave the page: neither runs out of the 131 rounds.
pub heap_find_free_block_total :
    (m : Memory) (page size : ℕ)
    → ((r : Bool) × (heap_validate_page m page ≡ some r))
      × ((b : ℕ) × (heap_find_free_block m page size ≡ some b))
unfolding heap_find_free_block
heap_find_free_block_total m page size = (heap_validate_page_total m page, search_ends)
  where
    searched :
        (r : Bool)
        → heap_validate_page m page ≡ some r
        → (b : ℕ) × (heap_find_free_block m page size ≡ some b)
    searched true e = rw e (
        find_free_start m page (page_end-le m page (page_is_valid_of m page e)) 130 size
          (first_block m page) (omega arith))
    searched false e = (0, rw e)

    search_ends : (b : ℕ) × (heap_find_free_block m page size ≡ some b)
    search_ends = searched (heap_validate_page_total m page).0 (heap_validate_page_total m page).1
