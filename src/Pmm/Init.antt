-- ===== src/Pmm/Init.antt =====
-- `pmm_init` of kernel/kernel.c, from the entries of the multiboot memory map.
use myunixlikeos.Common.{
  ℕ, List, Option, [], if◌then◌else◌, leb, ltb, min, none, not, replicate, some, suc, zero, ◌%◌,
  ◌&&◌, ◌+◌, ◌-◌, ◌/◌, ◌==◌, ◌∷◌,
}
use myunixlikeos.Pmm.{
  Pmm, add_word, bitmap_set, bitmap_test, dec_available, inc_available, page_addr, page_size,
  set_range, sub_word, word,
}

-- `struct multiboot_mmap_entry`: 64-bit address and length, and the type; 1 is available memory.
pub record Entry : Type 0 where
  pub addr : ℕ
  pub len : ℕ
  pub kind : ℕ

abbrev pub available_memory : ℕ
available_memory = 1

-- where the bitmap stands
abbrev pub bitmap_addr : ℕ
bitmap_addr = 0x200000

-- the branch for no memory map
unfoldable pub fallback : Pmm
fallback =
    let size = (1024 + 7) / 8 in
    let pages = (size + page_size - 1) / page_size in
    let clear : Pmm = record {
      bitmap = replicate size 0;
      bitmap_size = size;
      memory_start = 0x100000;
      total_pages = 1024;
      available = 0;
    } in
    let marked = set_range pages (bitmap_addr / page_size) clear in
    record marked { available = 1024 - pages }

-- The entry chosen: the longest available one from 1 MB on, as two 32-bit numbers.
unfoldable pub best_region : List Entry → ℕ → ℕ → ℕ × ℕ
best_region [] addr len = (addr, len)
best_region (e ∷ es) addr len =
    let better = (e.kind == available_memory) && ltb len e.len && leb 0x100000 e.addr in
    best_region es (if better then e.addr % word else addr) (if better then e.len % word else len)

-- `for (i = start; i < end && i < total; i++) bitmap_set(i)`
unfoldable pub set_pages : ℕ → ℕ → Pmm → Pmm
set_pages start stop p = set_range (min stop p.total_pages - start) start p

abbrev pub memory_end : Pmm → ℕ
memory_end p = page_addr p p.total_pages

-- `(addr - pmm_memory_start + PAGE_SIZE - 1) / PAGE_SIZE`
abbrev pub page_up : Pmm → ℕ → ℕ
page_up p addr = add_word (sub_word addr p.memory_start) (page_size - 1) / page_size

abbrev pub page_down : Pmm → ℕ → ℕ
page_down p addr = sub_word addr p.memory_start / page_size

unfoldable pub reserve_bitmap : Pmm → Pmm
unfolding set_pages
reserve_bitmap p =
    if leb p.memory_start bitmap_addr && ltb bitmap_addr (memory_end p)
    then set_pages (page_down p bitmap_addr) (page_up p (add_word bitmap_addr p.bitmap_size)) p
    else p

unfoldable pub reserve_entry : Entry → Pmm → Pmm
unfolding set_pages
reserve_entry e p =
    let from = e.addr % word in
    let to = (from + e.len) % word in
    let start = if ltb from p.memory_start then p.memory_start else from in
    let stop = if ltb (memory_end p) to then memory_end p else to in
    if not (e.kind == available_memory) && ltb start stop
    then set_pages (page_down p start) (page_up p stop) p
    else p

unfoldable pub reserve_entries : List Entry → Pmm → Pmm
reserve_entries [] p = p
reserve_entries (e ∷ es) p = reserve_entries es (reserve_entry e p)

-- `if (!bitmap_test(i)) pmm_available_pages++` over `n` pages from `i` on
unfoldable pub count_available : ℕ → ℕ → Pmm → Pmm
count_available zero i p = p
count_available (suc n) i p =
    count_available n (i + 1) (if bitmap_test p i == 0 then inc_available p else p)

-- `bitmap_set(i); pmm_available_pages--` over `n` pages from `i` on
unfoldable pub reserve_kernel : ℕ → ℕ → Pmm → Pmm
reserve_kernel zero i p = p
reserve_kernel (suc n) i p = reserve_kernel n (i + 1) (dec_available (bitmap_set p i))

-- The bitmap for a region, all free.
unfoldable pub region : ℕ → ℕ → Pmm
region addr len =
    let pages = min (len / page_size) 32768 in
    record {
      bitmap = replicate ((pages + 7) / 8) 0;
      bitmap_size = (pages + 7) / 8;
      memory_start = addr;
      total_pages = pages;
      available = 0;
    }

-- The end of `pmm_init`: count the free pages, then reserve the first 8 MB for the kernel.
unfoldable pub finish : Pmm → Pmm
unfolding count_available reserve_kernel
finish p =
    let counted = count_available p.total_pages 0 (record p { available = 0 }) in
    reserve_kernel (min 2048 counted.total_pages) 0 counted

-- `none` stands for a NULL tag.
unfoldable pub init : Option (List Entry) → Pmm
unfolding fallback best_region region reserve_bitmap reserve_entries reserve_entry finish
init none = fallback
init (some es) =
    let (addr, len) = best_region es 0 0 in
    if len == 0 then fallback else finish (reserve_entries es (reserve_bitmap (region addr len)))
