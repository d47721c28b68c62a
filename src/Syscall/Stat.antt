-- ===== src/Syscall/Stat.antt =====
-- SYS_mkdir, SYS_unlink, SYS_stat, SYS_fstat and SYS_sysinfo of kernel/syscall.c.
use myunixlikeos.Common.{
  ℕ, Bool, Option, none, some, if◌then◌else◌, ◌+◌, ◌-◌, ◌*◌, ◌/◌, ◌%◌, ◌^◌, ◌>>=◌,
}
use myunixlikeos.Common.Int.{ℤ, negsuc, pos}
use myunixlikeos.Pmm.{free_pages, page_size, total_pages}
use myunixlikeos.Vfs.{Vnode, Text, is_directory, k_mkdir, node, vfs_lookup}
use myunixlikeos.Vfs.Files.{k_unlink}
use myunixlikeos.Syscall.{Call, Kernel, ebadf, enoent, get_fd, minus_one}

-- `(uint32_t)r`
abbrev pub to_word : ℤ → ℕ
to_word (pos n) = n % 2 ^ 32
to_word (negsuc n) = 2 ^ 32 - 1 - n % 2 ^ 32

unfoldable pub sys_mkdir : Kernel → Text → Call
sys_mkdir k path = k_mkdir k.fs path >>= λ (r, fs'). some (to_word r, record k { fs = fs' })

unfoldable pub sys_unlink : Kernel → Text → Call
sys_unlink k path = k_unlink k.fs path >>= λ (r, fs'). some (to_word r, record k { fs = fs' })

-- `struct stat` without the fields that are always 0; the inode is the index of the node, of which
-- the code takes the address.
pub record Stat : Type 0 where
  pub ino : ℕ
  pub mode : ℕ
  pub nlink : ℕ
  pub size : ℕ
  pub blksize : ℕ
  pub blocks : ℕ

unfoldable pub fill_stat : ℕ → Vnode → Stat
fill_stat i n = record {
  ino = i;
  mode = if is_directory n then 0x4000 + 493 else 0x8000 + 420;
  nlink = 1;
  size = n.size;
  blksize = 512;
  blocks = (n.size + 511) / 512;
}

-- A call that fills a structure; the result keeps `none` where it fills nothing.
abbrev pub FillCall : Type 0
FillCall = Option (ℕ × Kernel × Option Stat)

abbrev pub fail_fill : ℕ → Kernel → FillCall
fail_fill e k = some (minus_one, record k { errno = e }, none)

-- `to_null` is that the pointer to the structure is NULL.
abbrev pub fill_at : Kernel → ℕ → (to_null : Bool) → FillCall
fill_at k i to_null = node k.fs i >>= λ n.
    some (if to_null then (minus_one, k, none) else (0, k, some (fill_stat i n)))

unfoldable pub sys_stat : Kernel → Text → (to_null : Bool) → FillCall
unfolding fill_stat
sys_stat k path to_null = vfs_lookup k.fs path >>= λ l. elim l [
  | none ↦ fail_fill enoent k
  | some i ↦ fill_at k i to_null
]

unfoldable pub sys_fstat : Kernel → ℕ → (to_null : Bool) → FillCall
unfolding fill_stat
sys_fstat k fd to_null = elim (get_fd k.fds fd) [
  | none ↦ fail_fill ebadf k
  | some e ↦ elim e.node_at [ none ↦ fail_fill ebadf k | some i ↦ fill_at k i to_null ]
]

-- `totalram` and `freeram`, the fields that are not constant.
unfoldable pub sys_sysinfo : Kernel → ℕ × ℕ
sys_sysinfo k =
    (total_pages k.fs.pmm * page_size % 2 ^ 32, free_pages k.fs.pmm * page_size % 2 ^ 32)
