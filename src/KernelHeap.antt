-- ===== src/KernelHeap.antt =====
-- The kernel heap of kernel/kernel.c: heap_init, kmalloc and kfree. The memory gives the word at each
-- address; a header is six words, and the addresses of its fields do not wrap around.
pub mod Chain
pub mod Fresh
pub mod Kfree
pub mod Kmalloc
pub mod Release
pub mod Settle
pub mod Reuse
pub mod Rounds
mod Tests
pub mod Take
pub mod Valid
use myunixlikeos.Common.{
  ℕ, Bool, Option, false, if◌then◌else◌, leb, ltb, none, not, some, suc, true, zero, ◌%◌, ◌&&◌, ◌*◌,
  ◌+◌, ◌-◌, ◌/◌, ◌==◌, ◌>>=◌, ◌^◌, ◌||◌,
}
use myunixlikeos.Paging.{Paging, map_page}
use myunixlikeos.Pmm.{alloc_page}

abbrev pub heap_start : ℕ
heap_start = 0xC0000000

abbrev pub heap_end : ℕ
heap_end = 0xD0000000

abbrev pub page_magic : ℕ
page_magic = 0xC0FFEE42

abbrev pub block_magic : ℕ
block_magic = 0xA110CA7E

abbrev pub Memory : Type 0
Memory = ℕ → ℕ

abbrev pub put_word : Memory → ℕ → ℕ → Memory
put_word m a v = λ b. if a == b then v else m b

abbrev pub add32 : ℕ → ℕ → ℕ
add32 a b = (a + b) % 2 ^ 32

-- `alignment` is a power of two, and `& ~mask` cuts its digits.
abbrev pub align_down : ℕ → ℕ → ℕ
align_down value alignment = value / alignment * alignment

abbrev pub align_up : ℕ → ℕ → ℕ
align_up value alignment = align_down (add32 value (alignment - 1)) alignment

-- The fields of a heap_block_t and of a heap_page_t; each starts with its magic number.
abbrev pub size_at : Memory → ℕ → ℕ
size_at m block = m (block + 4)

abbrev pub next_at : Memory → ℕ → ℕ
next_at m block = m (block + 8)

abbrev pub prev_at : Memory → ℕ → ℕ
prev_at m block = m (block + 12)

abbrev pub free_at : Memory → ℕ → ℕ
free_at m block = m (block + 16)

abbrev pub page_at : Memory → ℕ → ℕ
page_at m block = m (block + 20)

abbrev pub virt_at : Memory → ℕ → ℕ
virt_at m page = m (page + 8)

abbrev pub next_page : Memory → ℕ → ℕ
next_page m page = m (page + 12)

abbrev pub first_block : Memory → ℕ → ℕ
first_block m page = m (page + 20)

abbrev pub link_is_valid : Memory → (start end expected block next : ℕ) → Bool
link_is_valid m start end expected block next =
    leb start next
    && leb next end
    && leb (add32 next 24) end
    && (next == expected)
    && (m next == block_magic)
    && (prev_at m next == block)

abbrev pub extent_is_valid : Memory → (start end block block_end : ℕ) → Bool
extent_is_valid m start end block block_end =
    leb start block
    && leb block_end end
    && (block % 8 == 0)
    && not (size_at m block == 0)
    && (size_at m block % 8 == 0)
    && leb (size_at m block) (end - block_end)
    && ((next_at m block == 0)
        || link_is_valid m start end (add32 block_end (size_at m block)) block (next_at m block))

unfoldable pub heap_validate_block : Memory → (page block : ℕ) → Bool
heap_validate_block m page block =
    not (page == 0)
    && not (block == 0)
    && (m block == block_magic)
    && (page_at m block == page)
    && extent_is_valid m (virt_at m page) (add32 (virt_at m page) 4096) block (add32 block 24)

-- The loop of heap_validate_page from a block on; `none` is that the rounds ran out.
unfoldable pub validate_blocks : (rounds : ℕ) → Memory → (page block : ℕ) → Option Bool
validate_blocks zero m page block = none
validate_blocks (suc n) m page block =
    let rest = validate_blocks n m page (next_at m block) in
    if block == 0 then some true else if heap_validate_block m page block then rest else some false

abbrev pub page_is_valid : Memory → ℕ → Bool
page_is_valid m page =
    not (page == 0)
    && (m page == page_magic)
    && leb heap_start (virt_at m page)
    && leb (add32 (virt_at m page) 4096) heap_end
    && not (first_block m page == 0)
    && (page_at m (first_block m page) == page)

-- How many blocks a page has at most: each has at least 32 bytes.
abbrev pub block_rounds : ℕ
block_rounds = 131

unfoldable pub heap_validate_page : Memory → ℕ → Option Bool
unfolding validate_blocks
heap_validate_page m page =
    if page_is_valid m page
    then validate_blocks block_rounds m page (first_block m page)
    else some false

-- The loop of heap_find_free_block; 0 is NULL.
unfoldable pub find_free : (rounds : ℕ) → Memory → (page size block : ℕ) → Option ℕ
find_free zero m page size block = none
find_free (suc n) m page size block =
    let rest = find_free n m page size (next_at m block) in
    if block == 0
    then some 0
    else if heap_validate_block m page block
    then if not (free_at m block == 0) && leb size (size_at m block) then some block else rest
    else some 0

unfoldable pub heap_find_free_block : Memory → (page size : ℕ) → Option ℕ
heap_find_free_block m page size = do
  valid ← heap_validate_page m page
  if valid then find_free block_rounds m page size (first_block m page) else some 0

abbrev pub put_header : Memory → (block size next prev free page : ℕ) → Memory
put_header m block size next prev free page =
    let m = put_word (put_word m block block_magic) (block + 4) size in
    let m = put_word (put_word m (block + 8) next) (block + 12) prev in
    put_word (put_word m (block + 16) free) (block + 20) page

-- `if (next) next->prev = block`
abbrev pub put_prev : Memory → (next block : ℕ) → Memory
put_prev m next block = if next == 0 then m else put_word m (next + 12) block

-- The rest of the page behind `size` bytes of a block becomes a block of its own.
unfoldable pub split_block : Memory → (page block size remainder remaining : ℕ) → Memory
split_block m page block size remainder remaining =
    let m1 =
      put_header m remainder (align_down (remaining - 24) 8) (next_at m block) block 1 page in
    let m2 = put_prev m1 (next_at m1 block) remainder in
    put_word (put_word m2 (block + 8) remainder) (block + 4) size

-- What kmalloc leaves of the page when it takes a block that was found.
unfoldable pub take_block : Memory → (page block size : ℕ) → Memory
unfolding split_block
take_block m page block size =
    let end = add32 (virt_at m page) 4096 in
    let payload_end = add32 block 24 in
    let remaining = end - (payload_end + size) in
    let m' =
      if leb size (end - payload_end) && leb 40 remaining
      then split_block m page block size (payload_end + size) remaining
      else m in
    put_word m' (block + 16) 0

-- How the walk over the pages ends.
pub data Walk : Type 0 where
  corrupted : Walk
  taken : ℕ → Memory → Walk
  exhausted : Walk

unfoldable pub taken_block : Memory → (page block size : ℕ) → Walk
unfolding take_block
taken_block m page block size =
    if ltb (add32 (virt_at m page) 4096) (add32 block 24)
    then corrupted
    else taken (block + 24) (take_block m page block size)

abbrev pub try_page : Memory → (page size : ℕ) → (later : Option Walk) → Option Walk
try_page m page size later = do
  valid ← heap_validate_page m page
  block ← heap_find_free_block m page size
  if valid
      then (if block == 0 then later else some (taken_block m page block size))
      else some corrupted

unfoldable pub walk_pages : (rounds : ℕ) → Memory → (size page : ℕ) → Option Walk
unfolding taken_block
walk_pages zero m size page = none
walk_pages (suc n) m size page =
    let later = walk_pages n m size (next_page m page) in
    if page == 0 then some exhausted else try_page m page size later

pub record KernelHeap : Type 0 where
  pub paging : Paging
  pub memory : Memory
  pub heap_pages : ℕ
  pub heap_next_virtual : ℕ

-- The first block of a new page, and the header of the page, put before the list of pages.
unfoldable pub format_page : Memory → (phys virt pages : ℕ) → Memory
format_page m phys virt pages =
    let block = align_up (virt + 24) 8 in
    let size = align_down (4096 - (block - virt) - 24) 8 in
    let m = put_word (put_word m virt page_magic) (virt + 4) phys in
    let m = put_word (put_word m (virt + 8) virt) (virt + 12) pages in
    let m = put_word (put_word m (virt + 16) 0) (virt + 20) block in
    let m = put_header m block size 0 0 1 virt in
    if pages == 0 then m else put_word m (pages + 16) virt

abbrev pub enter_page : KernelHeap → ℕ → KernelHeap
enter_page h phys =
    let virt = h.heap_next_virtual in
    record {
      paging = map_page virt phys 3 h.paging;
      memory = format_page h.memory phys virt h.heap_pages;
      heap_pages = virt;
      heap_next_virtual = virt + 4096;
    }

-- `false` is NULL.
unfoldable pub heap_alloc_page : KernelHeap → Bool × KernelHeap
unfolding format_page
heap_alloc_page h =
    let (a, pmm') = alloc_page h.paging.pmm in
    let h' = record h { paging = record h.paging { pmm = pmm' } } in
    if ltb heap_end (add32 h.heap_next_virtual 4096)
    then (false, h)
    else elim a [ none ↦ (false, h') | some phys ↦ (true, enter_page h' phys) ]

-- The words of the memory are those that the addresses lead to with paging in force. `kernel_main`
-- calls `heap_init` before `enable_paging`, where the same addresses are physical ones.
unfoldable pub heap_init : KernelHeap → Bool × KernelHeap
unfolding heap_alloc_page
heap_init h = heap_alloc_page (record h { heap_pages = 0; heap_next_virtual = heap_start })

-- One page more than the heap can have.
abbrev pub page_rounds : ℕ
page_rounds = 65537

-- The outer loop of kmalloc, with the pointer that it returns.
unfoldable pub kmalloc_loop : (rounds size : ℕ) → KernelHeap → Option (ℕ × KernelHeap)
unfolding walk_pages
kmalloc_loop zero size h = none
kmalloc_loop (suc n) size h =
    let (grown, h') = heap_alloc_page h in
    let again = kmalloc_loop n size h' in
    elim (walk_pages page_rounds h.memory size h.heap_pages) [
      | none ↦ none
      | some corrupted ↦ some (0, h)
      | some (taken p m) ↦ some (p, record h { memory = m })
      | some exhausted ↦ if grown then again else some (0, h')
    ]

unfoldable pub kmalloc : ℕ → KernelHeap → Option (ℕ × KernelHeap)
unfolding kmalloc_loop
kmalloc size h =
    if (size == 0) || ltb (2 ^ 32 - 1 - 7) size
    then some (0, h)
    else kmalloc_loop page_rounds (align_up size 8) h

-- `block` takes in the block behind it.
unfoldable pub merge_next : Memory → ℕ → Memory
merge_next m block =
    let next = next_at m block in
    let m1 = put_word m (block + 4) (add32 (size_at m block) (add32 24 (size_at m next))) in
    let m2 = put_word m1 (block + 8) (next_at m1 next) in put_prev m2 (next_at m2 block) block

-- The block before takes `block` in.
unfoldable pub merge_prev : Memory → ℕ → Memory
merge_prev m block =
    let prev = prev_at m block in
    let m1 = put_word m (prev + 4) (add32 (size_at m prev) (add32 24 (size_at m block))) in
    let m2 = put_word m1 (prev + 8) (next_at m1 block) in
    put_prev m2 (next_at m2 block) (prev_at m2 block)

abbrev pub is_free : Memory → ℕ → Bool
is_free m block = not (block == 0) && not (free_at m block == 0)

-- The end of kfree, behind its tests.
unfoldable pub release_block : Memory → ℕ → Memory
unfolding merge_next merge_prev
release_block m block =
    let m1 = put_word m (block + 16) 1 in
    let m2 = if is_free m1 (next_at m1 block) then merge_next m1 block else m1 in
    if is_free m2 (prev_at m2 block) then merge_prev m2 block else m2

-- The tests of kfree on a pointer and on the block before it, but for heap_validate_page.
abbrev pub has_block : Memory → ℕ → Bool
has_block m ptr =
    let block = ptr - 24 in
    not (ptr == 0)
    && leb heap_start ptr
    && ltb ptr heap_end
    && leb heap_start block
    && ltb block heap_end
    && (m block == block_magic)
    && not (page_at m block == 0)
    && (m (page_at m block) == page_magic)

abbrev pub may_free : Memory → ℕ → Bool
may_free m block =
    let start = virt_at m (page_at m block) in
    leb start block
    && leb (add32 block 24) (add32 start 4096)
    && ((next_at m block == 0) || (next_at m block == add32 (add32 block 24) (size_at m block)))
    && (free_at m block == 0)

unfoldable pub kfree : ℕ → Memory → Option Memory
kfree ptr m =
    let block = ptr - 24 in
    if has_block m ptr
    then (do
      valid ← heap_validate_page m (page_at m block)
      if valid && may_free m block then some (release_block m block) else some m)
    else some m
