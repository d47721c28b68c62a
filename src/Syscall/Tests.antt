-- ===== src/Syscall/Tests.antt =====
-- The file calls of kernel/syscall.c at concrete inputs.
use myunixlikeos.Common.{
  set, ℕ, List, [], none, some, ◌-◌, ◌≡◌, ◌∷◌, ◌++◌, refl, arith, take, drop, replicate, inl, min,
}
use myunixlikeos.Vfs.{Vnode, vfs_file}
use myunixlikeos.Pmm.{
  Pmm, alloc_z, bytes_at, alloc_blocks, find_run, take_run, set_range, bitmap_set, bitmap_test,
}
use myunixlikeos.Common.Bytes.{set_bit, bit_at}
use myunixlikeos.Syscall.{FdEntry, Kernel, sys_write, sys_read, get_fd, empty_entry}
use myunixlikeos.Syscall.ReadWrite.{IsOpen, Wrote, sys_write_lem, sys_read-sys_write}

abbrev file : Vnode
file = record {
  name = replicate 32 0;
  flags = vfs_file;
  parent = none;
  children = replicate 16 none;
  child_count = 0;
  size = 0;
  content = none;
}

-- Descriptors 3 and 4 are open on the file.
abbrev entry : FdEntry
entry = record { used = 1; node_at = some 0; offset = 0; flags = 0 }

abbrev memory : Pmm
memory = record {
  bitmap = 0 ∷ 0 ∷ [];
  bitmap_size = 2;
  memory_start = 0x100000;
  total_pages = 10;
  available = 10;
}

abbrev kernel : Kernel
kernel = record {
  fs = record {
    pool = file ∷ [];
    used = 1;
    root = none;
    current_dir = none;
    ram = λ b. 0;
    pmm = memory;
  };
  fds = empty_entry ∷ empty_entry ∷ empty_entry ∷ entry ∷ entry ∷ replicate 27 empty_entry;
  errno = 0;
  output = [];
}

IsOpen-three : IsOpen kernel 3 entry 0 file
unfolding get_fd
IsOpen-three = record { held = refl; leads = refl; stored = refl; file = refl }

IsOpen-four : IsOpen kernel 4 entry 0 file
unfolding get_fd
IsOpen-four = record { held = refl; leads = refl; stored = refl; file = refl }

abbrev hello : List ℕ
hello = b'h' ∷ b'i' ∷ []

abbrev first_page : List ℕ
first_page = set (bytes_at (λ b. 0) 0x100000 4096) 0 0

one_page :
    alloc_z 64 (λ b. 0) memory
    ≡ (some (0x100000, first_page), record memory { bitmap = 1 ∷ 0 ∷ []; available = 9 })
unfolding alloc_z alloc_blocks find_run take_run set_range bitmap_set bitmap_test set_bit bit_at
one_page = refl

sys_read-sys_write_example :
    let size = min 2 (63 - 0) in
    (g h : Kernel) × (sys_write kernel 3 (some hello) 2 ≡ some (size, g))
    × (sys_read g 4 (some (0 ∷ 0 ∷ 0 ∷ [])) 2
        ≡ some (size, h, take size hello ++ drop size (0 ∷ 0 ∷ 0 ∷ [])))
sys_read-sys_write_example =
    sys_read-sys_write kernel 3 4 2 entry entry 0 file hello (0 ∷ 0 ∷ 0 ∷ []) 0x100000 first_page
      (record memory { bitmap = 1 ∷ 0 ∷ []; available = 9 }) (omega arith) IsOpen-three IsOpen-four
      (omega arith) refl (inl refl) one_page (omega arith) (omega arith) (omega arith) (omega arith)
      (omega arith)

sys_write_lem_example :
    (g : Kernel) × (sys_write kernel 3 (some hello) 2 ≡ some (min 2 (63 - 0), g))
    × Wrote kernel g 3 entry 0 hello (min 2 (63 - 0))
sys_write_lem_example =
    sys_write_lem kernel 3 2 entry 0 file hello 0x100000 (replicate 4096 0)
      (record memory { bitmap = 1 ∷ 0 ∷ []; available = 9 }) (omega arith) IsOpen-three (inl refl)
      one_page (omega arith) (omega arith) (omega arith)

-- The same with a file of five bytes, of which three are read from offset 1 on.
abbrev five : Vnode
five = record file { size = 5; content = some (1 ∷ 2 ∷ 3 ∷ 4 ∷ 5 ∷ 0 ∷ []) }

abbrev at_one : FdEntry
at_one = record entry { offset = 1 }

abbrev reader : Kernel
reader = record kernel {
  fs = record kernel.fs { pool = five ∷ [] };
  fds = empty_entry ∷ empty_entry ∷ empty_entry ∷ at_one ∷ replicate 28 empty_entry;
}

IsOpen-reader : IsOpen reader 3 at_one 0 five
unfolding get_fd
IsOpen-reader = record { held = refl; leads = refl; stored = refl; file = refl }
