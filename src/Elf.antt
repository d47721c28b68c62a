-- ===== src/Elf.antt =====
-- The loader of kernel/elf.c: the checks of a file, the segments, and the heap of the user program.
-- A file is the list of its bytes.
pub mod Heap
pub mod Grow
pub mod Load
pub mod Loaded
pub mod Validate
mod Tests
use myunixlikeos.Common.{
  ℕ, Bool, List, Option, bit_and, get_or, if◌then◌else◌, leb, length, ltb, none, not, some, suc,
  true, zero, ◌%◌, ◌&&◌, ◌*◌, ◌+◌, ◌==◌, ◌^◌, ◌||◌,
}
use myunixlikeos.Common.Int.{ℤ, negsuc, pos}

abbrev pub user_base : ℕ
user_base = 0x08048000

abbrev pub user_top : ℕ
user_top = 0xBFFFFFFF

-- Fields of a packed structure, the low byte first.
abbrev pub u16 : List ℕ → ℕ → ℕ
u16 file i = get_or file i 0 + get_or file (i + 1) 0 * 2 ^ 8

abbrev pub u32 : List ℕ → ℕ → ℕ
u32 file i = u16 file i + u16 file (i + 2) * 2 ^ 16

-- The fields that the code reads.
pub record Elf32Ehdr : Type 0 where
  pub magic : ℕ
  pub e_type : ℕ
  pub e_machine : ℕ
  pub e_version : ℕ
  pub e_entry : ℕ
  pub e_phoff : ℕ
  pub e_phentsize : ℕ
  pub e_phnum : ℕ

unfoldable pub ehdr : List ℕ → Elf32Ehdr
ehdr file = record {
  magic = u32 file 0;
  e_type = u16 file 16;
  e_machine = u16 file 18;
  e_version = u32 file 20;
  e_entry = u32 file 24;
  e_phoff = u32 file 28;
  e_phentsize = u16 file 42;
  e_phnum = u16 file 44;
}

pub record Elf32Phdr : Type 0 where
  pub p_type : ℕ
  pub p_offset : ℕ
  pub p_vaddr : ℕ
  pub p_filesz : ℕ
  pub p_memsz : ℕ
  pub p_flags : ℕ
  pub p_align : ℕ

unfoldable pub phdr_at : List ℕ → ℕ → Elf32Phdr
phdr_at file a = record {
  p_type = u32 file a;
  p_offset = u32 file (a + 4);
  p_vaddr = u32 file (a + 8);
  p_filesz = u32 file (a + 16);
  p_memsz = u32 file (a + 20);
  p_flags = u32 file (a + 24);
  p_align = u32 file (a + 28);
}

-- `file + ehdr->e_phoff + i * ehdr->e_phentsize`
unfoldable pub phdr : List ℕ → ℕ → Elf32Phdr
unfolding phdr_at ehdr
phdr file i = phdr_at file ((ehdr file).e_phoff + i * (ehdr file).e_phentsize)

abbrev pub load_bias : List ℕ → ℕ
load_bias file = if (ehdr file).e_type == 3 then user_base else 0

-- The checks before the loop, with `false` for the return of -1.
unfoldable pub check_header : List ℕ → Bool
unfolding ehdr
check_header file =
    let e = ehdr file in
    let entry = (e.e_entry + load_bias file) % 2 ^ 32 in
    leb 52 (length file)
    && e.magic == 0x464C457F
    && (e.e_type == 2 || e.e_type == 3)
    && e.e_machine == 3
    && e.e_version == 1
    && not (e.e_phoff == 0 || e.e_phnum == 0)
    && leb 32 e.e_phentsize
    && leb (e.e_phoff + e.e_phnum * e.e_phentsize) (length file)
    && not (e.e_entry == 0 || ltb entry user_base || ltb user_top entry)

-- `p_vaddr + load_bias`
abbrev pub virt_begin : ℕ → Elf32Phdr → ℕ
virt_begin bias ph = (ph.p_vaddr + bias) % 2 ^ 32

abbrev pub virt_end : ℕ → Elf32Phdr → ℕ
virt_end bias ph = (ph.p_vaddr + bias + ph.p_memsz) % 2 ^ 32

-- The checks of one PT_LOAD segment.
unfoldable pub check_segment : (size bias : ℕ) → Elf32Phdr → Bool
check_segment size bias ph =
    leb ph.p_filesz ph.p_memsz
    && bit_and ph.p_flags 0xfffffff8 == 0
    && leb ph.p_offset size
    && leb (ph.p_offset + ph.p_filesz) size
    && leb (virt_begin bias ph) (virt_end bias ph)
    && leb user_base (virt_begin bias ph)
    && leb (virt_end bias ph) (user_top + 1)
    && (ph.p_align == 0 || ph.p_vaddr % ph.p_align == ph.p_offset % ph.p_align)

-- Headers of other types are passed over.
unfoldable pub check_phdr : List ℕ → ℕ → Bool
unfolding check_segment phdr ehdr
check_phdr file i =
    not ((phdr file i).p_type == 1) || check_segment (length file) (load_bias file) (phdr file i)

-- `n` program headers from the one with index `i` on.
unfoldable pub check_segments : (n i : ℕ) → List ℕ → Bool
unfolding check_phdr
check_segments zero i file = true
check_segments (suc n) i file =
    let rest = check_segments n (i + 1) file in check_phdr file i && rest

-- A null pointer is `none`.
unfoldable pub elf_validate : Option (List ℕ) → ℤ
unfolding check_segments check_header ehdr
elf_validate none = negsuc 0
elf_validate (some file) =
    if check_header file && check_segments (ehdr file).e_phnum 0 file then pos 0 else negsuc 0
