-- ===== src/Pmm.antt =====
-- The physical page allocator of kernel/kernel.c: a bitmap with one bit for each page.
pub mod Bitmap
pub mod Boot
pub mod Blocks
pub mod Count
pub mod Marks
pub mod Free
pub mod Init
pub mod Pages
pub mod Scan
mod Tests
use myunixlikeos.Common.{
  ℕ, zero, suc, ◌+◌, ◌-◌, ◌*◌, ◌/◌, ◌%◌, ◌^◌, Bool, ◌||◌, Option, none, some, List, get_or, set,
  ltb, leb, ◌==◌, if◌then◌else◌, ◌∷◌, [],
}
use myunixlikeos.Common.Bytes.{set_bit, clear_bit, bit_at}

abbrev pub page_size : ℕ
page_size = 4096

-- `size_t`, `uintptr_t` and `uint32_t` have 32 bits.
abbrev pub word : ℕ
word = 2 ^ 32

abbrev pub add_word : ℕ → ℕ → ℕ
add_word a b = (a + b) % word

abbrev pub sub_word : ℕ → ℕ → ℕ
sub_word a b = (a + word - b) % word

-- The static variables: `pmm_bitmap` is the bytes from 0x200000 on.
pub record Pmm : Type 0 where
  pub bitmap : List ℕ
  pub bitmap_size : ℕ
  pub memory_start : ℕ
  pub total_pages : ℕ
  pub available : ℕ

-- The guard `bit / 8 >= pmm_bitmap_size` is on the 64-bit argument.
unfoldable pub bitmap_set : Pmm → ℕ → Pmm
bitmap_set p bit = if leb p.bitmap_size (bit / 8) then p else record p {
  bitmap = set p.bitmap (bit / 8) (set_bit (get_or p.bitmap (bit / 8) 0) (bit % 8));
}

unfoldable pub bitmap_clear : Pmm → ℕ → Pmm
bitmap_clear p bit = if leb p.bitmap_size (bit / 8) then p else record p {
  bitmap = set p.bitmap (bit / 8) (clear_bit (get_or p.bitmap (bit / 8) 0) (bit % 8));
}

unfoldable pub bitmap_test : Pmm → ℕ → ℕ
bitmap_test p bit =
    if leb p.bitmap_size (bit / 8) then 0 else bit_at (get_or p.bitmap (bit / 8) 0) (bit % 8)

abbrev pub dec_available : Pmm → Pmm
dec_available p = record p { available = sub_word p.available 1 }

abbrev pub inc_available : Pmm → Pmm
inc_available p = record p { available = add_word p.available 1 }

-- `pmm_memory_start + i * PAGE_SIZE`
abbrev pub page_addr : Pmm → ℕ → ℕ
page_addr p i = (p.memory_start + i * page_size) % word

-- `none` is NULL. The first number is the rounds left of the loop.
unfoldable pub alloc_page_loop : ℕ → ℕ → Pmm → Option ℕ × Pmm
alloc_page_loop zero i p = (none, p)
alloc_page_loop (suc n) i p =
    let rest = alloc_page_loop n (i + 1) p in
    if bitmap_test p i == 0 then (some (page_addr p i), dec_available (bitmap_set p i)) else rest

unfoldable pub alloc_page : Pmm → Option ℕ × Pmm
alloc_page p = alloc_page_loop p.total_pages 0 p

-- `addr < pmm_memory_start || addr >= pmm_memory_start + pmm_total_memory_pages * PAGE_SIZE`
abbrev pub outside : Pmm → ℕ → Bool
outside p addr = ltb addr p.memory_start || leb (page_addr p p.total_pages) addr

abbrev pub page_index : Pmm → ℕ → ℕ
page_index p addr = (addr - p.memory_start) / page_size

-- The body that `pmm_free_page` and the loop of `pmm_free_blocks` share.
unfoldable pub release : Pmm → ℕ → Pmm
release p i = if bitmap_test p i == 0 then p else inc_available (bitmap_clear p i)

-- A null pointer is the address 0.
unfoldable pub free_page : Pmm → ℕ → Pmm
unfolding release
free_page p addr =
    if addr == 0 || outside p addr
    then p
    else if ltb (page_index p addr) p.total_pages
    then release p (page_index p addr)
    else p

-- `bitmap_set(start_page + j)` for `count` values of j
unfoldable pub set_range : ℕ → ℕ → Pmm → Pmm
set_range zero i p = p
set_range (suc n) i p = set_range n (i + 1) (bitmap_set p i)

-- The scan of `pmm_alloc_blocks`: where the run of `count` free pages starts.
unfoldable pub find_run : (count rounds i start free : ℕ) → Pmm → Option ℕ
find_run count zero i start free p = none
find_run count (suc n) i start free p =
    let start' = if free == 0 then i else start in
    let more = find_run count n (i + 1) start' (free + 1) p in
    let over = find_run count n (i + 1) start 0 p in
    if bitmap_test p i == 0 then (if leb count (free + 1) then some start' else more) else over

unfoldable pub take_run : ℕ → ℕ → Pmm → Option ℕ × Pmm
take_run count start p =
    let q = set_range count start p in
    (some (page_addr p start), record q { available = sub_word q.available count })

unfoldable pub alloc_blocks : ℕ → Pmm → Option ℕ × Pmm
unfolding find_run take_run
alloc_blocks count p =
    if count == 0 || ltb p.available count
    then (none, p)
    else elim (find_run count p.total_pages 0 0 0 p) [
      | none ↦ (none, p)
      | some start ↦ take_run count start p
    ]

unfoldable pub release_range : ℕ → ℕ → Pmm → Pmm
release_range zero i p = p
release_range (suc n) i p = release_range n (i + 1) (release p i)

-- `if (start_page + count > total) count = total - start_page`, in 32 bits
abbrev pub clip : Pmm → ℕ → ℕ → ℕ
clip p start count =
    if ltb p.total_pages (add_word start count) then sub_word p.total_pages start else count

unfoldable pub free_blocks : ℕ → ℕ → Pmm → Pmm
unfolding release_range
free_blocks addr count p =
    if addr == 0 || count == 0 || outside p addr
    then p
    else release_range (clip p (page_index p addr) count) (page_index p addr) p

-- `n` bytes of the memory from `addr` on.
abbrev pub bytes_at : (ram : ℕ → ℕ) (addr n : ℕ) → List ℕ
bytes_at ram addr zero = []
bytes_at ram addr (suc n) = ram addr ∷ bytes_at ram (addr + 1) n

-- The address, and the bytes that stand there. `ram` is what the memory holds before; the `memset` of
-- lib/libc/string/memset.c clears the first byte only.
unfoldable pub alloc_z : ℕ → (ram : ℕ → ℕ) → Pmm → Option (ℕ × List ℕ) × Pmm
alloc_z size ram p =
    if size == 0
    then (none, p)
    else let pages = add_word size (page_size - 1) / page_size in
      let (a, q) = alloc_blocks pages p in
      elim a [
        | none ↦ (none, q)
        | some addr ↦ (some (addr, set (bytes_at ram addr (pages * page_size)) 0 0), q)
      ]

unfoldable pub total_pages : Pmm → ℕ
total_pages p = p.total_pages

unfoldable pub used_pages : Pmm → ℕ
used_pages p = sub_word p.total_pages p.available

unfoldable pub free_pages : Pmm → ℕ
free_pages p = p.available
