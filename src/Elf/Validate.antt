-- ===== src/Elf/Validate.antt =====
-- Which files elf_validate of kernel/elf.c accepts.
use myunixlikeos.Elf.{
  Elf32Phdr, check_segment, user_base, user_top, virt_begin, check_segments, ehdr, load_bias, phdr,
  phdr_at, check_header, check_phdr, elf_validate,
}
use myunixlikeos.Common.{
  ℕ, arith, true, ◌%◌, ◌+◌, ◌<◌, ◌≡◌, ◌≤◌, ◌^◌, ◌⊎◌, ◌↔◌, AllBelow, AllBelow-get_or, List, length,
  refl, suc, zero, ℕ_discrete, ◌*◌, ◌==◌, false, some, ◌≢◌, Bool, if◌then◌else◌, ◌&&◌,
}
use myunixlikeos.Common.Int.{pos, negsuc}
use myunixlikeos.Common.Words.{high_flags}

-- A segment that lies in the file and, with its whole size and without a wrap-around, in the memory
-- of the user.
pub record IsLoadable (size bias : ℕ) (ph : Elf32Phdr) : Type 0 where
  pub in_memory : ph.p_filesz ≤ ph.p_memsz
  pub flags : ph.p_flags < 8
  pub in_file : ph.p_offset + ph.p_filesz ≤ size
  pub above_base : user_base ≤ virt_begin bias ph
  pub below_top : virt_begin bias ph + ph.p_memsz ≤ user_top + 1
  pub congruent : (ph.p_align ≡ 0) ⊎ (ph.p_vaddr % ph.p_align ≡ ph.p_offset % ph.p_align)

-- The fields of a program header are words.
pub record AreWords (ph : Elf32Phdr) : Type 0 where
  pub vaddr : ph.p_vaddr < 2 ^ 32
  pub memsz : ph.p_memsz < 2 ^ 32
  pub flag_bits : ph.p_flags < 2 ^ 32

check_segment_iff :
    (size bias : ℕ) (ph : Elf32Phdr)
    → AreWords ph
    → bias ≤ user_base
    → (check_segment size bias ph ≡ true) ↔ IsLoadable size bias ph
unfolding check_segment
check_segment_iff size bias ph w small = ground (arith, high_flags ph.p_flags w.flag_bits)

phdr-AreWords : (file : List ℕ) (i : ℕ) → AllBelow 256 file → AreWords (phdr file i)
unfolding phdr phdr_at
phdr-AreWords file i bytes =
    let byte = λ (j : ℕ). AllBelow-get_or 256 file j (omega arith) bytes in
    let a = (ehdr file).e_phoff + i * (ehdr file).e_phentsize in
    record {
      vaddr = omega (arith, byte (a + 8), byte (a + 8 + 1), byte (a + 8 + 2), byte (a + 8 + 2 + 1));
      memsz =
          omega (arith, byte (a + 20), byte (a + 20 + 1), byte (a + 20 + 2), byte (a + 20 + 2 + 1));
      flag_bits =
          omega (arith, byte (a + 24), byte (a + 24 + 1), byte (a + 24 + 2), byte (a + 24 + 2 + 1));
    }

load_bias-le : (file : List ℕ) → load_bias file ≤ user_base
load_bias-le file = ground arith

-- Every segment that is loaded, of the headers from `i` on, is loadable.
abbrev pub SegmentsLoadable : (file : List ℕ) (i n : ℕ) → Type 0
SegmentsLoadable file i n =
    (j : ℕ)
    → i ≤ j
    → j < i + n
    → (phdr file j).p_type ≡ 1
    → IsLoadable (length file) (load_bias file) (phdr file j)

module _ (file : List ℕ) (bytes : AllBelow 256 file) where
  check_phdr_iff :
      (i : ℕ)
      → (check_phdr file i ≡ true)
        ↔ ((phdr file i).p_type ≡ 1 → IsLoadable (length file) (load_bias file) (phdr file i))
  unfolding check_phdr
  check_phdr_iff i =
      let (forth, back) =
        check_segment_iff (length file) (load_bias file) (phdr file i) (phdr-AreWords file i bytes)
          (load_bias-le file) in
      elim (ℕ_discrete (phdr file i).p_type 1) [
        | yes e ↦
            let t : ((phdr file i).p_type == 1) ≡ true = ground arith in
            rw t (λ c k. forth c, λ k. back (k e))
        | no ne ↦
            let t : ((phdr file i).p_type == 1) ≡ false = ground arith in
            rw t (λ c k. absurd (ne k), λ k. refl)
      ]

  each_check :
      (n i : ℕ)
      → (check_segments n i file ≡ true) ↔ ((j : ℕ) → i ≤ j → j < i + n → check_phdr file j ≡ true)
  unfolding check_segments
  each_check zero i = (λ e j h k. absurd (omega arith), λ h. refl)
  each_check (suc n) i =
      let (forth, back) = each_check n (i + 1) in
      (
        λ e j h k. elim (ℕ_discrete j i) [
          | yes same ↦ rw same (ground (arith, e))
          | no ne ↦ forth (ground (arith, e)) j (omega arith) (omega arith)
        ],
        λ all.
            rw (all i (omega arith) (omega arith))
              (back (λ j h k. all j (omega arith) (omega arith))),
      )

  check_segments_iff : (n i : ℕ) → (check_segments n i file ≡ true) ↔ SegmentsLoadable file i n
  check_segments_iff n i =
      let (forth, back) = each_check n i in
      (
        λ e j h k. (check_phdr_iff j).0 (forth e j h k),
        λ all. back (λ j h k. (check_phdr_iff j).1 (all j h k)),
      )

-- The header of an executable for this machine, whose entry lies in the memory of the user and whose
-- program headers lie in the file.
pub record IsHeader (file : List ℕ) : Type 0 where
  pub header : 52 ≤ length file
  pub magic : (ehdr file).magic ≡ 0x464C457F
  pub kind : ((ehdr file).e_type ≡ 2) ⊎ ((ehdr file).e_type ≡ 3)
  pub machine : (ehdr file).e_machine ≡ 3
  pub version : (ehdr file).e_version ≡ 1
  pub table_from : 0 < (ehdr file).e_phoff
  pub some_header : 0 < (ehdr file).e_phnum
  pub whole_headers : 32 ≤ (ehdr file).e_phentsize
  pub table_in_file :
      (ehdr file).e_phoff + (ehdr file).e_phnum * (ehdr file).e_phentsize ≤ length file
  pub has_entry : (ehdr file).e_entry ≢ 0
  pub entry_from : user_base ≤ ((ehdr file).e_entry + load_bias file) % 2 ^ 32
  pub entry_to : ((ehdr file).e_entry + load_bias file) % 2 ^ 32 ≤ user_top

check_header_iff : (file : List ℕ) → (check_header file ≡ true) ↔ IsHeader file
unfolding check_header
check_header_iff file = ground arith

abbrev pub IsExecutable : List ℕ → Type 0
IsExecutable file = IsHeader file × SegmentsLoadable file 0 (ehdr file).e_phnum

code_iff : (a b : Bool) → ((if a && b then pos 0 else negsuc 0) ≡ pos 0) ↔ ((a ≡ true) × (b ≡ true))
code_iff false b = ground arith
code_iff true false = ground arith
code_iff true true = ground arith

-- `elf_validate` accepts exactly the executables: all of its program headers lie in the file, and
-- every segment that will be loaded has its bytes in the file and its memory, without a wrap-around,
-- between the bounds of user space.
pub elf_validate_iff :
    (file : List ℕ) → AllBelow 256 file → (elf_validate (some file) ≡ pos 0) ↔ IsExecutable file
unfolding elf_validate
elf_validate_iff file bytes =
    let (header, of_header) = check_header_iff file in
    let (all, of_all) = check_segments_iff file bytes (ehdr file).e_phnum 0 in
    let (passes, returns) =
      code_iff (check_header file) (check_segments (ehdr file).e_phnum 0 file) in
    (λ e. (header (passes e).0, all (passes e).1), λ x. returns (of_header x.0, of_all x.1))
