-- ===== src/Elf/Tests.antt =====
-- The loader of kernel/elf.c at concrete inputs.
use myunixlikeos.Common.{ℕ, true, List, [], arith, refl, some, ◌<◌, ◌∷◌, ◌≡◌, ◌≢◌, ◌↔◌, ◌≤◌}
use myunixlikeos.Common.Int.{pos}
use myunixlikeos.Elf.{
  check_header, check_segment, check_segments, check_phdr, ehdr, phdr, phdr_at, elf_validate,
}
use myunixlikeos.Elf.{user_base}
use myunixlikeos.Elf.Load.{Loader, load_segments, max_mapped_pages}
use myunixlikeos.Elf.Loaded.{load_segments-mapped_count, mapped_count}
use myunixlikeos.Elf.Validate.{IsExecutable, elf_validate_iff}
use myunixlikeos.Elf.Heap.{Breaks, IsHeap, UserHeap, page_align_up, user_sbrk, user_sbrk_lem}
use myunixlikeos.Elf.Grow.{user_sbrk-grows}
use myunixlikeos.Paging.{Paging, get_physical_address}
use myunixlikeos.Paging.Tables.{IsPaging}
use myunixlikeos.Paging.Sample.{empty_paging, empty_paging-IsPaging}

-- an executable with one segment of twelve bytes
abbrev small_file : List ℕ
small_file =
    127 ∷ 69 ∷ 76 ∷ 70 ∷ 1 ∷ 1 ∷ 1 ∷ 0 ∷ 0 ∷ 0 ∷ 0 ∷ 0 ∷ 0 ∷ 0 ∷ 0 ∷ 0 ∷ 2 ∷ 0 ∷ 3 ∷ 0 ∷ 1 ∷ 0 ∷ 0
    ∷ 0 ∷ 84 ∷ 128 ∷ 4 ∷ 8 ∷ 52 ∷ 0 ∷ 0 ∷ 0 ∷ 0 ∷ 0 ∷ 0 ∷ 0 ∷ 0 ∷ 0 ∷ 0 ∷ 0 ∷ 52 ∷ 0 ∷ 32 ∷ 0 ∷ 1
    ∷ 0 ∷ 0 ∷ 0 ∷ 0 ∷ 0 ∷ 0 ∷ 0 ∷ 1 ∷ 0 ∷ 0 ∷ 0 ∷ 84 ∷ 0 ∷ 0 ∷ 0 ∷ 84 ∷ 128 ∷ 4 ∷ 8 ∷ 0 ∷ 0 ∷ 0 ∷ 0
    ∷ 12 ∷ 0 ∷ 0 ∷ 0 ∷ 20 ∷ 0 ∷ 0 ∷ 0 ∷ 5 ∷ 0 ∷ 0 ∷ 0 ∷ 1 ∷ 0 ∷ 0 ∷ 0 ∷ 144 ∷ 144 ∷ 144 ∷ 144 ∷ 144
    ∷ 144 ∷ 144 ∷ 144 ∷ 144 ∷ 144 ∷ 144 ∷ 144 ∷ []

small_file_runs : elf_validate (some small_file) ≡ pos 0
unfolding elf_validate check_header check_segments check_phdr check_segment ehdr phdr phdr_at
small_file_runs = refl

elf_validate_iff_example : (elf_validate (some small_file) ≡ pos 0) ↔ IsExecutable small_file
elf_validate_iff_example = elf_validate_iff small_file (omega arith)

abbrev heap : UserHeap
heap = record { paging = empty_paging; base = 0x8049000; brk = 0x8049123; initialized = true }

heap-IsHeap : IsHeap heap
heap-IsHeap = record {
  started = refl;
  from = omega arith;
  above = omega arith;
  below = omega arith;
}

user_sbrk_lem_example : Breaks heap 0x2000 (user_sbrk 0x2000 heap)
user_sbrk_lem_example = user_sbrk_lem 0x2000 heap-IsHeap

user_sbrk-grows_example :
    (q : Paging) × (user_sbrk 0x2000 heap
      ≡ (0x8049123, record heap { paging = q; brk = 0x804b123 }))
    × IsPaging q
    × ((w : ℕ) → page_align_up 0x8049123 ≤ w → w < 0x804b123 → get_physical_address w q ≢ 0)
    × ((w : ℕ)
        → w < page_align_up 0x8049123
        → get_physical_address w q ≡ get_physical_address w empty_paging)
user_sbrk-grows_example =
    user_sbrk-grows 0x2000 heap-IsHeap empty_paging-IsPaging (omega arith) (omega arith)
      (omega arith) (omega arith)

abbrev no_bytes : ℕ → ℕ
no_bytes a = 0

abbrev empty_loader : Loader
empty_loader = record {
  paging = empty_paging;
  ram = no_bytes;
  mapped = [];
  segments_end = user_base;
}

load_segments-mapped_count_example :
    mapped_count (load_segments small_file 1 0 empty_loader).1 ≤ max_mapped_pages
load_segments-mapped_count_example =
    load_segments-mapped_count small_file 1 0 empty_loader (omega arith)
