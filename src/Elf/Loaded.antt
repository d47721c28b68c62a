-- ===== src/Elf/Loaded.antt =====
-- What elf_load of kernel/elf.c keeps of the pages that it maps.
use myunixlikeos.Common.{
  ℕ, Bool, List, Option, [], arith, false, length, ltb, none, refl, some, suc, true, zero, ◌%◌, ◌+◌,
  ◌++◌, ◌-◌, ◌/◌, ◌==◌, ◌^◌, ◌∷◌, ◌≡◌, ◌≤◌, inl, inr, Bool-cases, length-append,
}
use myunixlikeos.Common.Words.{high_part}
use myunixlikeos.Elf.{Elf32Phdr, load_bias, phdr}
use myunixlikeos.Elf.Heap.{page_align_up}
use myunixlikeos.Elf.Load.{
  Loader, clear_bytes, copy_bytes, fill_segment, filled_or, load_page, load_pages, load_segment,
  load_segments, map_new, max_mapped_pages, page_align_down, segment_flags,
}
use myunixlikeos.Paging.{get_physical_address, map_page}
use myunixlikeos.Pmm.{Pmm}

-- How many entries of the array are in use.
abbrev pub mapped_count : Loader → ℕ
mapped_count l = length l.mapped

clear_bytes-mapped_count :
    (n addr : ℕ) (l : Loader) → mapped_count (clear_bytes n addr l) ≡ mapped_count l
unfolding clear_bytes
clear_bytes-mapped_count zero addr l = refl
clear_bytes-mapped_count (suc n) addr l = clear_bytes-mapped_count n addr _

copy_bytes-mapped_count :
    (file : List ℕ) (n addr offset : ℕ) (l : Loader)
    → mapped_count (copy_bytes file n addr offset l) ≡ mapped_count l
unfolding copy_bytes
copy_bytes-mapped_count file zero addr offset l = refl
copy_bytes-mapped_count file (suc n) addr offset l =
    copy_bytes-mapped_count file n (addr + 1) (offset + 1) _

map_new-mapped_count :
    (addr flags : ℕ) (r : Option ℕ × Pmm) (l : Loader)
    → mapped_count (map_new addr flags r l).1 ≤ mapped_count l + 1
unfolding map_new
map_new-mapped_count addr flags (none, pmm') l = omega arith
map_new-mapped_count addr flags (some phys, pmm') l =
    elim (Bool-cases (
      get_physical_address addr (map_page addr phys flags (record l.paging { pmm = pmm' }))
      == phys)) [
        | inl yes_mapped ↦ rw yes_mapped (
            omega (
              arith,
              clear_bytes-mapped_count 4096 addr (record l {
                paging = map_page addr phys flags (record l.paging { pmm = pmm' });
                mapped = l.mapped ++ (addr, phys) ∷ [];
              }),
              length-append l.mapped ((addr, phys) ∷ []),
            ))
        | inr not_mapped ↦ rw not_mapped (omega arith)
      ]

load_page-mapped_count :
    (addr flags : ℕ) (l : Loader) → mapped_count (load_page addr flags l).1 ≤ mapped_count l + 1
unfolding load_page
load_page-mapped_count addr flags l = map_new-mapped_count addr flags _ _

load_pages-mapped_count :
    (n addr flags : ℕ) (l : Loader)
    → mapped_count (load_pages n addr flags l).1 ≤ mapped_count l + n
unfolding load_pages
load_pages-mapped_count zero addr flags l = omega arith
load_pages-mapped_count (suc n) addr flags l =
    let r = load_page addr flags l in
    let one = load_page-mapped_count addr flags l in
    elim (Bool-cases (r.0)) [
      | inl done ↦ rw done (omega (arith, one, load_pages-mapped_count n (addr + 4096) flags r.1))
      | inr stopped ↦ rw stopped (omega (arith, one))
    ]

filled_or-mapped_count :
    (file : List ℕ) (va to : ℕ) (ph : Elf32Phdr) (r : Bool × Loader)
    → mapped_count (filled_or file va to ph r).1 ≡ mapped_count r.1
unfolding filled_or fill_segment
filled_or-mapped_count file va to ph (false, l) = refl
filled_or-mapped_count file va to ph (true, l) =
    let copies = copy_bytes-mapped_count file ph.p_filesz va ph.p_offset l in
    elim (Bool-cases (ltb ph.p_filesz ph.p_memsz)) [
      | inl more ↦ rw more (
          omega (
            arith,
            copies,
            clear_bytes-mapped_count (ph.p_memsz - ph.p_filesz) (va + ph.p_filesz)
                (copy_bytes file ph.p_filesz va ph.p_offset l),
          ))
      | inr whole ↦ rw whole copies
    ]

load_segment-mapped_count :
    (file : List ℕ) (bias : ℕ) (ph : Elf32Phdr) (l : Loader)
    → mapped_count l ≤ max_mapped_pages
    → mapped_count (load_segment file bias ph l).1 ≤ max_mapped_pages
unfolding load_segment
load_segment-mapped_count file bias ph l fits =
    let va = (ph.p_vaddr + bias) % 2 ^ 32 in
    let start = page_align_down va in
    let to = page_align_up ((va + ph.p_memsz) % 2 ^ 32) in
    let page_count = (to + 2 ^ 32 - start) % 2 ^ 32 / 4096 in
    let a = high_part va (omega arith) in
    let b = high_part (((va + ph.p_memsz) % 2 ^ 32 + 4095) % 2 ^ 32) (omega arith) in
    elim (Bool-cases (page_count == 0)) [
      | inl empty ↦ rw empty fits
      | inr some_pages ↦ elim (Bool-cases (ltb (max_mapped_pages - mapped_count l) page_count)) [
        | inl too_many ↦ rw (some_pages, too_many) fits
        | inr room ↦
            rw (some_pages, room)
              (let r = load_pages ((to - start) / 4096) start (segment_flags ph) l in
                let le : (to - start) / 4096 ≤ page_count = omega (arith, a, b) in
                let left : page_count ≤ max_mapped_pages - mapped_count l = ground (arith, room) in
                let same = filled_or-mapped_count file va to ph r in
                let pages =
                  load_pages-mapped_count ((to - start) / 4096) start (segment_flags ph) l in
                omega (arith, same, pages, le, left, fits))
      ]
    ]

-- However many segments the file has, the array mapped_pages is never written behind its 2048 places.
pub load_segments-mapped_count :
    (file : List ℕ) (n i : ℕ) (l : Loader)
    → mapped_count l ≤ max_mapped_pages
    → mapped_count (load_segments file n i l).1 ≤ max_mapped_pages
unfolding load_segments
load_segments-mapped_count file zero i l fits = fits
load_segments-mapped_count file (suc n) i l fits =
    let r = load_segment file (load_bias file) (phdr file i) l in
    let kept = load_segment-mapped_count file (load_bias file) (phdr file i) l fits in
    elim (Bool-cases ((phdr file i).p_type == 1)) [
      | inl loaded ↦ rw loaded (elim (Bool-cases (r.0)) [
        | inl done ↦ rw done (load_segments-mapped_count file n (i + 1) r.1 kept)
        | inr stopped ↦ rw stopped kept
      ])
      | inr skipped ↦ rw skipped (load_segments-mapped_count file n (i + 1) l fits)
    ]
