-- ===== src/Syscall.antt =====
-- The file calls of kernel/syscall.c: the table of descriptors and the cases of `syscall_handler`
-- that open, read, write and close files. Registers hold 32-bit words.

pub mod Descriptors
pub mod Open
pub mod Stat
pub mod Transfer
pub mod ReadWrite
mod Tests
use myunixlikeos.Common.{
  ℕ, List, Option, [], bit_and, drop, get_elem?, if◌then◌else◌, leb, ltb, none, set, some, suc,
  take, zero, ◌%◌, ◌+◌, ◌-◌, ◌==◌, ◌>>=◌, ◌^◌, ◌||◌, ◌++◌, length, ◌∷◌,
}
use myunixlikeos.Libc.Str.{deref, memcpy}
use myunixlikeos.Pmm.{alloc_z}
use myunixlikeos.Vfs.{
  Fs, Link, Text, Vnode, is_directory, is_file, k_touch, node, put_node, vfs_lookup, new_content,
}
use myunixlikeos.Vfs.Files.{min63, vfs_write_file, write_text}
use myunixlikeos.Common.Int.{pos, negsuc}

abbrev pub max_fds : ℕ
max_fds = 32

abbrev pub einval : ℕ
einval = 22

abbrev pub ebadf : ℕ
ebadf = 9

abbrev pub enomem : ℕ
enomem = 12

abbrev pub enoent : ℕ
enoent = 2

abbrev pub eacces : ℕ
eacces = 13

abbrev pub emfile : ℕ
emfile = 24

abbrev pub o_creat : ℕ
o_creat = 0x40

abbrev pub o_trunc : ℕ
o_trunc = 0x200

-- `(uint32_t)-1`
abbrev pub minus_one : ℕ
minus_one = 0xffffffff

-- `fd_entry_t`
pub record FdEntry : Type 0 where
  pub used : ℕ
  pub node_at : Link
  pub offset : ℕ
  pub flags : ℕ

-- The tree, the table, `errno`, and the bytes that went to the terminal and the serial line.
pub record Kernel : Type 0 where
  pub fs : Fs
  pub fds : List FdEntry
  pub errno : ℕ
  pub output : List ℕ

-- `regs->eax` and the state behind the call; `none` is a fault.
abbrev pub Call : Type 0
Call = Option (ℕ × Kernel)

abbrev pub fail : ℕ → Kernel → Call
fail e k = some (minus_one, record k { errno = e })

-- The loop of `allocate_fd`, with `n` descriptors left; `none` is -1.
unfoldable pub allocate_fd_loop : (n i : ℕ) → List FdEntry → Option ℕ
allocate_fd_loop zero i fds = none
allocate_fd_loop (suc n) i fds =
    let rest = allocate_fd_loop n (suc i) fds in
    elim (get_elem? fds i) [ none ↦ none | some e ↦ if e.used == 0 then some i else rest ]

unfoldable pub allocate_fd : List FdEntry → Option ℕ
unfolding allocate_fd_loop
allocate_fd fds = allocate_fd_loop (max_fds - 3) 3 fds

-- A negative descriptor is a word of at least 2^31, which is not below 32 either.
unfoldable pub get_fd : List FdEntry → ℕ → Option FdEntry
get_fd fds fd =
    if leb max_fds fd then none else get_elem? fds fd >>= λ e. if e.used == 0 then none else some e

abbrev pub empty_entry : FdEntry
empty_entry = record { used = 0; node_at = none; offset = 0; flags = 0 }

unfoldable pub release_fd : List FdEntry → ℕ → List FdEntry
release_fd fds fd =
    if leb 3 fd then (if ltb fd max_fds then set fds fd empty_entry else fds) else fds

-- The node of an open file, with its entry; `none` inside is the error EBADF.
abbrev pub open_file : Kernel → ℕ → Option (Option (FdEntry × ℕ × Vnode))
open_file k fd = elim (get_fd k.fds fd) [
  | none ↦ some none
  | some e ↦ elim e.node_at [
    | none ↦ some none
    | some i ↦ node k.fs i >>= λ n. some (if is_file n then some (e, i, n) else none)
  ]
]

-- The content is copied to a fresh buffer, which stays as it was when there is no memory.
unfoldable pub copy_content : Fs → ℕ → Vnode → List ℕ → Option Fs
copy_content fs i n c =
    let (b, pmm') = alloc_z 64 fs.ram fs.pmm in
    elim b [
      | none ↦ some (record fs { pmm = pmm' })
      | some (_, bytes) ↦ memcpy bytes c (min63 n.size) >>= λ copy. some (
          put_node (record fs { pmm = pmm' }) i
            (record n { content = some (set copy (min63 n.size) 0) }))
    ]

unfoldable pub ensure_writable_content : Fs → ℕ → Vnode → Option Fs
unfolding copy_content
ensure_writable_content fs i n =
    if is_file n
    then elim n.content [
      | none ↦
          let (c, fs') = new_content fs in
          some (put_node fs' i (record n { content = c; size = 0 }))
      | some c ↦ copy_content fs i n c
    ]
    else some fs

abbrev pub move_offset : FdEntry → ℕ → FdEntry
move_offset e n = record e { offset = (e.offset + n) % 2 ^ 32 }

-- `63 - write_offset` in 32 bits, and the smaller one of it and `count`.
abbrev pub write_size : ℕ → ℕ → ℕ
write_size off count =
    let available = (2 ^ 32 + 63 - off) % 2 ^ 32 in if ltb count available then count else available

-- The end of the case SYS_write, with the content at hand.
unfoldable pub store_bytes : Kernel → Fs → ℕ → FdEntry → ℕ → Vnode → List ℕ → List ℕ → ℕ → Call
unfolding write_text
store_bytes k fs fd e i n c buf count =
    let size = write_size e.offset count in
    write_text c e.offset buf size >>= λ c'. some (
      size,
      record k {
        fs = put_node fs i (record n { content = some c'; size = (e.offset + size) % 2 ^ 32 });
        fds = set k.fds fd (move_offset e size);
      },
    )

unfoldable pub write_file : Kernel → ℕ → List ℕ → ℕ → Call
write_file k fd buf count = open_file k fd >>= λ f. elim f [
  | none ↦ fail ebadf k
  | some (e, i, n) ↦ ensure_writable_content k.fs i n >>= λ fs'. node fs' i >>= λ n'.
      elim n'.content [
        | none ↦ fail enomem (record k { fs = fs' })
        | some c ↦ store_bytes k fs' fd e i n' c buf count
      ]
]

-- What the terminal gets of a byte that is printed as a string of one character.
abbrev pub printed : List ℕ → List ℕ
printed [] = []
printed (c ∷ cs) = if c == 0 then printed cs else c ∷ printed cs

-- The case SYS_write; the buffer holds the bytes from its address on.
unfoldable pub sys_write : Kernel → ℕ → Text → ℕ → Call
unfolding write_file
sys_write k fd none count = fail einval k
sys_write k fd (some buf) count =
    if count == 0
    then fail einval k
    else if fd == 1 || fd == 2
    then (if ltb (length buf) count
        then none
        else some (count, record k { output = k.output ++ printed (take count buf) }))
    else write_file k fd buf count

abbrev pub read_size : ℕ → ℕ → ℕ → ℕ
read_size off size count = if ltb size ((off + count) % 2 ^ 32) then size - off else count

-- A read also gives the bytes of the user's buffer.
abbrev pub ReadCall : Type 0
ReadCall = Option (ℕ × Kernel × List ℕ)

unfoldable pub read_file : Kernel → ℕ → FdEntry → Vnode → List ℕ → ℕ → ReadCall
read_file k fd e n buf count =
    if leb n.size e.offset
    then some (0, k, buf)
    else let size = read_size e.offset n.size count in
      n.content >>= λ c. memcpy buf (drop e.offset c) size >>= λ buf'.
      some (size, record k { fds = set k.fds fd (move_offset e size) }, buf')

abbrev pub fail_read : ℕ → Kernel → List ℕ → ReadCall
fail_read e k buf = some (minus_one, record k { errno = e }, buf)

unfoldable pub sys_read : Kernel → ℕ → Text → ℕ → ReadCall
sys_read k fd none count = fail_read einval k []
sys_read k fd (some buf) count =
    if count == 0
    then fail_read einval k buf
    else open_file k fd >>= λ f. elim f [
      | none ↦ fail_read ebadf k buf
      | some (e, i, n) ↦ read_file k fd e n buf count
    ]

-- `fd <= 2` holds of a negative `fd` too.
unfoldable pub sys_close : Kernel → ℕ → Call
sys_close k fd = if leb fd 2 || leb (2 ^ 31) fd then fail ebadf k else elim (get_fd k.fds fd) [
  | none ↦ fail ebadf k
  | some e ↦ some (0, record k { fds = release_fd k.fds fd })
]

unfoldable pub install_fd : Kernel → ℕ → ℕ → Call
install_fd k i flags = elim (allocate_fd k.fds) [
  | none ↦ fail emfile k
  | some fd ↦ some (
    fd,
    record k {
      fds = set k.fds fd (record { used = 1; node_at = some i; offset = 0; flags = flags });
    },
  )
]

-- The node that SYS_open works on, created where the flags say so; `none` inside is an error.
unfoldable pub find_or_create : Kernel → List ℕ → ℕ → Option (Option ℕ × Kernel)
find_or_create k path flags = vfs_lookup k.fs (some path) >>= λ l. elim l [
  | some i ↦ some (some i, k)
  | none ↦
      if bit_and flags o_creat == 0
      then some (none, record k { errno = enoent })
      else k_touch k.fs (some path) >>= λ (r, fs'). elim r [
        | negsuc _ ↦ some (none, record k { fs = fs'; errno = eacces })
        | pos _ ↦ vfs_lookup fs' (some path) >>= λ l'. some (elim l' [
          | some i ↦ (some i, record k { fs = fs' })
          | none ↦ (none, record k { fs = fs'; errno = enoent })
        ])
      ]
]

-- The file is truncated by its path.
unfoldable pub truncate_if : Kernel → List ℕ → ℕ → ℕ → Option Kernel
truncate_if k path i flags = node k.fs i >>= λ n.
    if bit_and flags o_trunc == 0
    then some k
    else if is_file n
    then (vfs_write_file k.fs (some path) (some (0 ∷ [])) 0 >>= λ (r, fs').
        some (record k { fs = fs' }))
    else some k

unfoldable pub sys_open : Kernel → Text → ℕ → Call
unfolding find_or_create truncate_if install_fd
sys_open k none flags = fail einval k
sys_open k (some path) flags =
    if deref path == 0
    then fail einval k
    else find_or_create k path flags >>= λ (l, k'). elim l [
      | none ↦ some (minus_one, k')
      | some i ↦ truncate_if k' path i flags >>= λ k''. install_fd k'' i flags
    ]

-- The case SYS_chdir.
unfoldable pub sys_chdir : Kernel → Text → Call
sys_chdir k path = vfs_lookup k.fs path >>= λ l. elim l [
  | none ↦ fail enoent k
  | some i ↦ node k.fs i >>= λ n.
      if is_directory n
      then some (0, record k { fs = record k.fs { current_dir = some i } })
      else fail enoent k
]
