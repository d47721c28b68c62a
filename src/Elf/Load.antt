-- ===== src/Elf/Load.antt =====
-- elf_load of kernel/elf.c: the segments of a file brought into memory.
use myunixlikeos.Common.{
  ℕ, Bool, List, Option, [], bit_and, false, get_or, if◌then◌else◌, length, ltb, none, some, suc,
  true, zero, ◌%◌, ◌+◌, ◌++◌, ◌-◌, ◌/◌, ◌==◌, ◌^◌, ◌∷◌,
}
use myunixlikeos.Common.Int.{ℤ, pos, negsuc}
use myunixlikeos.Elf.{Elf32Phdr, ehdr, elf_validate, load_bias, phdr, user_base}
use myunixlikeos.Elf.Heap.{UserHeap, page_align_up, release_page, user_heap_init}
use myunixlikeos.Paging.{Paging, get_physical_address, map_page, unmap_page}
use myunixlikeos.Pmm.{Pmm, alloc_page, free_page}

-- ELF_MAX_MAPPED_PAGES
abbrev pub max_mapped_pages : ℕ
max_mapped_pages = 2048

abbrev pub page_align_down : ℕ → ℕ
page_align_down a = bit_and a 0xfffff000

-- The page tables, the bytes at the physical addresses, the entries in use of mapped_pages, and the
-- end of the segments so far.
pub record Loader : Type 0 where
  pub paging : Paging
  pub ram : ℕ → ℕ
  pub mapped : List (ℕ × ℕ)
  pub segments_end : ℕ

-- The pages given back, in the order in which they were mapped.
unfoldable pub cleanup_mapped_pages : List (ℕ × ℕ) → Paging → Paging
cleanup_mapped_pages [] p = p
cleanup_mapped_pages ((virt, phys) ∷ pages) p =
    let q = unmap_page virt p in
    let r = if phys == 0 then q else record q { pmm = free_page q.pmm phys } in
    cleanup_mapped_pages pages (if virt == 0 then p else r)

-- One byte stored at a virtual address.
abbrev pub store_byte : (addr byte : ℕ) → Loader → Loader
store_byte addr byte l =
    let phys = get_physical_address addr l.paging in
    record l { ram = λ a. if a == phys then byte else l.ram a }

-- `memset` of `n` bytes to 0, whose pointer does not advance
unfoldable pub clear_bytes : (n addr : ℕ) → Loader → Loader
clear_bytes zero addr l = l
clear_bytes (suc n) addr l = clear_bytes n addr (store_byte addr 0 l)

-- `memcpy` of `n` bytes of the file from `offset` on
unfoldable pub copy_bytes : List ℕ → (n addr offset : ℕ) → Loader → Loader
copy_bytes file zero addr offset l = l
copy_bytes file (suc n) addr offset l =
    copy_bytes file n (addr + 1) (offset + 1) (store_byte addr (get_or file offset 0) l)

-- The page for `addr`, which the allocator gave or did not give; `false` is a return of 0.
unfoldable pub map_new : (addr flags : ℕ) → Option ℕ × Pmm → Loader → Bool × Loader
unfolding clear_bytes
map_new addr flags (none, pmm') l = (false, record l { paging = record l.paging { pmm = pmm' } })
map_new addr flags (some phys, pmm') l =
    let q = map_page addr phys flags (record l.paging { pmm = pmm' }) in
    if get_physical_address addr q == phys
    then (
      true,
      clear_bytes 4096 addr (record l { paging = q; mapped = l.mapped ++ (addr, phys) ∷ [] }),
    )
    else (false, record l { paging = record q { pmm = free_page q.pmm phys } })

-- What was mapped at `addr` before is given back first.
unfoldable pub load_page : (addr flags : ℕ) → Loader → Bool × Loader
unfolding map_new release_page
load_page addr flags l =
    let p = release_page addr l.paging in
    map_new addr flags (alloc_page p.pmm) (record l { paging = p })

unfoldable pub load_pages : (n addr flags : ℕ) → Loader → Bool × Loader
unfolding load_page
load_pages zero addr flags l = (true, l)
load_pages (suc n) addr flags l =
    let (done, l') = load_page addr flags l in
    let rest = load_pages n (addr + 4096) flags l' in if done then rest else (false, l')

abbrev pub segment_flags : Elf32Phdr → ℕ
segment_flags ph = if bit_and ph.p_flags 2 == 0 then 5 else 7

-- The bytes of the file, the `memset` behind them, and the end of the segment.
unfoldable pub fill_segment : List ℕ → (va to : ℕ) → Elf32Phdr → Loader → Loader
unfolding copy_bytes clear_bytes
fill_segment file va to ph l =
    let copied = copy_bytes file ph.p_filesz va ph.p_offset l in
    let filled =
      if ltb ph.p_filesz ph.p_memsz
      then clear_bytes (ph.p_memsz - ph.p_filesz) (va + ph.p_filesz) copied
      else copied in
    record filled { segments_end = if ltb filled.segments_end to then to else filled.segments_end }

unfoldable pub filled_or : List ℕ → (va to : ℕ) → Elf32Phdr → Bool × Loader → Bool × Loader
unfolding fill_segment
filled_or file va to ph (false, l) = (false, l)
filled_or file va to ph (true, l) = (true, fill_segment file va to ph l)

-- A PT_LOAD segment.
unfoldable pub load_segment : List ℕ → (bias : ℕ) → Elf32Phdr → Loader → Bool × Loader
unfolding load_pages filled_or
load_segment file bias ph l =
    let va = (ph.p_vaddr + bias) % 2 ^ 32 in
    let start = page_align_down va in
    let to = page_align_up ((va + ph.p_memsz) % 2 ^ 32) in
    let page_count = (to + 2 ^ 32 - start) % 2 ^ 32 / 4096 in
    let pages = load_pages ((to - start) / 4096) start (segment_flags ph) l in
    if page_count == 0
    then (true, l)
    else if ltb (max_mapped_pages - length l.mapped) page_count
    then (false, l)
    else filled_or file va to ph pages

-- `n` program headers from index `i` on.
unfoldable pub load_segments : List ℕ → (n i : ℕ) → Loader → Bool × Loader
unfolding load_segment phdr
load_segments file zero i l = (true, l)
load_segments file (suc n) i l =
    let segment = load_segment file (load_bias file) (phdr file i) l in
    let (done, l') = if (phdr file i).p_type == 1 then segment else (true, l) in
    let rest = load_segments file n (i + 1) l' in if done then rest else (false, l')

-- The result, with the memory and the heap afterwards.
abbrev pub Loaded : Type 0
Loaded = ℕ × (ℕ → ℕ) × UserHeap

unfoldable pub finish_load : List ℕ → UserHeap → Bool × Loader → Loaded
unfolding user_heap_init cleanup_mapped_pages
finish_load file h (false, l) =
    (0, l.ram, record h { paging = cleanup_mapped_pages l.mapped l.paging })
finish_load file h (true, l) = (
  ((ehdr file).e_entry + load_bias file) % 2 ^ 32,
  l.ram,
  user_heap_init l.segments_end (record h { paging = l.paging }),
)

abbrev pub is_valid : ℤ → Bool
is_valid (pos n) = n == 0
is_valid (negsuc n) = false

unfoldable pub elf_load : List ℕ → (ℕ → ℕ) → UserHeap → Loaded
unfolding load_segments finish_load ehdr
elf_load file ram h =
    let start : Loader = record {
      paging = h.paging;
      ram = ram;
      mapped = [];
      segments_end = user_base;
    } in
    if is_valid (elf_validate (some file))
    then finish_load file h (load_segments file (ehdr file).e_phnum 0 start)
    else (0, ram, h)
