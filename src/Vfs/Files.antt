-- ===== src/Vfs/Files.antt =====
-- `k_install`, `k_unlink` and the functions on file contents of kernel/fs.c.
use myunixlikeos.Pmm.{alloc_z}
use myunixlikeos.Common.{
  ℕ, Bool, List, Option, [], drop, false, get_elem?, if◌then◌else◌, leb, length, ltb, none, set,
  some, suc, take, zero, ◌%◌, ◌++◌, ◌+◌, ◌-◌, ◌==◌, ◌>>=◌, ◌^◌, ◌∷◌,
}
use myunixlikeos.Libc.Str.{strlen, memcpy, strcpy}
use myunixlikeos.Vfs.{
  Fs, Vnode, vfs_lookup, Link, Result, Text, add_child, alloc_vnode, find_child, is_directory,
  is_file, node, put_node, refuse, success, vfs_file,
}

unfoldable pub link_install : Fs → List ℕ → List ℕ → ℕ → ℕ → ℕ → Result
link_install fs p bytes size r i = do
  n ← node fs i
  name ← strcpy n.name p
  let n' = record n {
    name = name;
    flags = vfs_file;
    parent = some r;
    content = some bytes;
    size = size;
  }
  fs' ← add_child (put_node fs i n') r i
  some (success, fs')

unfoldable pub install_at : Fs → List ℕ → List ℕ → ℕ → ℕ → Result
unfolding alloc_vnode link_install
install_at fs p bytes size r = do
  d ← node fs r
  if leb 16 d.child_count then refuse fs else (do
    (l, fs') ← alloc_vnode fs
    elim l [ none ↦ refuse fs' | some i ↦ link_install fs' p bytes size r i ])

-- A NULL root is a fault.
unfoldable pub k_install : Fs → Text → Text → ℕ → Result
unfolding install_at
k_install fs none bytes size = refuse fs
k_install fs (some p) none size = refuse fs
k_install fs (some p) (some bytes) size =
    if size == 0 then refuse fs else fs.root >>= install_at fs p bytes size

-- Where a child stands among the first `k` children.
unfoldable pub child_index : ℕ → ℕ → List Link → ℕ → Option ℕ
child_index zero i cs n = none
child_index (suc k) i [] n = none
child_index (suc k) i (c ∷ cs) n =
    let rest = child_index k (i + 1) cs n in
    elim c [ none ↦ rest | some m ↦ if m == n then some i else rest ]

-- `children[i] = children[i + 1]` for `k` values of i
unfoldable pub shift_children : ℕ → ℕ → List Link → List Link
shift_children zero i cs = cs
shift_children (suc k) i cs =
    shift_children k (i + 1) (elim (get_elem? cs (i + 1)) [ none ↦ cs | some c ↦ set cs i c ])

abbrev pub released : Vnode → Vnode
released n = record n { content = none; flags = 0; parent = none; child_count = 0; size = 0 }

unfoldable pub unlink_node : Fs → ℕ → Vnode → Result
unfolding child_index shift_children
unlink_node fs i n = elim n.parent [
  | none ↦ refuse fs
  | some p ↦ node fs p >>= λ d. elim (child_index d.child_count 0 d.children i) [
    | none ↦ refuse fs
    | some k ↦
        let d' = record d {
          children = shift_children (d.child_count - 1 - k) k d.children;
          child_count = d.child_count - 1;
        } in
        let fs' = put_node fs p d' in
        node fs' i >>= λ m. some (success, put_node fs' i (released m))
  ]
]

-- A node, if the path leads to a file.
abbrev pub file_at : Fs → Text → Option (Option (ℕ × Vnode))
file_at fs path = vfs_lookup fs path >>= λ l. elim l [
  | none ↦ some none
  | some i ↦ node fs i >>= λ n. some (if is_file n then some (i, n) else none)
]

unfoldable pub k_unlink : Fs → Text → Result
unfolding unlink_node
k_unlink fs path =
    file_at fs path >>= λ f. elim f [ none ↦ refuse fs | some (i, n) ↦ unlink_node fs i n ]

unfoldable pub vfs_isdir : Fs → Text → Option Bool
vfs_isdir fs path = vfs_lookup fs path >>= λ l. elim l [
  | none ↦ some false
  | some i ↦ node fs i >>= λ n. some (is_directory n)
]

unfoldable pub vfs_isfile : Fs → Text → Option Bool
vfs_isfile fs path = vfs_lookup fs path >>= λ l. elim l [
  | none ↦ some false
  | some i ↦ node fs i >>= λ n. some (is_file n)
]

abbrev pub content_length : Vnode → ℕ
content_length n = elim n.content [ none ↦ 0 | some c ↦ strlen c ]

unfoldable pub vfs_filesize : Fs → Text → Option ℕ
vfs_filesize fs path =
    file_at fs path >>= λ f. some (elim f [ none ↦ 0 | some (i, n) ↦ content_length n ])

-- The content and the size that goes through `size_out`.
unfoldable pub vfs_read_file : Fs → Text → Option (Text × ℕ)
vfs_read_file fs path = file_at fs path >>= λ f.
    some (elim f [ none ↦ (none, 0) | some (i, n) ↦ (n.content, content_length n) ])

-- `memcpy(buf + off, src, n); buf[off + n] = 0`
unfoldable pub write_text : List ℕ → ℕ → List ℕ → ℕ → Text
write_text buf off src n =
    if leb (length buf) (off + n)
    then none
    else memcpy (drop off buf) src n >>= λ tail. some (set (take off buf ++ tail) (off + n) 0)

-- The content of a file, given a buffer first where there is none.
abbrev pub ensure_buffer : Fs → Vnode → Text × Fs
ensure_buffer fs n = elim n.content [
  | some c ↦ (some c, fs)
  | none ↦
      let (b, pmm') = alloc_z 64 fs.ram fs.pmm in
      (elim b [ none ↦ none | some (_, bytes) ↦ some bytes ], record fs { pmm = pmm' })
]

abbrev pub min63 : ℕ → ℕ
min63 n = if ltb n 63 then n else 63

unfoldable pub truncate_file : Fs → ℕ → Vnode → Result
truncate_file fs i n =
    let c : Text = elim n.content [ none ↦ none | some c ↦ some (set c 0 0) ] in
    some (success, put_node fs i (record n { content = c; size = 0 }))

unfoldable pub write_node : Fs → ℕ → Vnode → List ℕ → ℕ → Result
unfolding write_text
write_node fs i n src size =
    let (c, fs') = ensure_buffer fs n in
    elim c [
      | none ↦ refuse fs'
      | some buf ↦ write_text buf 0 src (min63 size) >>= λ buf'.
          some (success, put_node fs' i (record n { content = some buf'; size = min63 size }))
    ]

unfoldable pub vfs_write_file : Fs → Text → Text → ℕ → Result
unfolding truncate_file write_node
vfs_write_file fs path src size = file_at fs path >>= λ f. elim f [
  | none ↦ refuse fs
  | some (i, n) ↦ elim src [
    | none ↦ truncate_file fs i n
    | some bytes ↦ if size == 0 then truncate_file fs i n else write_node fs i n bytes size
  ]
]

-- `64 - current_size - 1` in 32 bits
abbrev pub room_after : ℕ → ℕ
room_after current = (2 ^ 32 + 63 - current) % 2 ^ 32

unfoldable pub append_node : Fs → ℕ → Vnode → List ℕ → List ℕ → ℕ → Result
unfolding write_text
append_node fs i n buf src size =
    let current = strlen buf in
    let room = room_after current in
    let count = if ltb size room then size else room in
    if room == 0
    then refuse fs
    else write_text buf current src count >>= λ buf'. some (
      success,
      put_node fs i (record n { content = some buf'; size = (current + count) % 2 ^ 32 }),
    )

-- The source is a pointer that `memcpy` reads, so NULL is a fault unless nothing is copied.
unfoldable pub vfs_append_file : Fs → Text → List ℕ → ℕ → Result
unfolding append_node vfs_write_file
vfs_append_file fs path src size = file_at fs path >>= λ f. elim f [
  | none ↦ refuse fs
  | some (i, n) ↦ elim n.content [
    | none ↦ vfs_write_file fs path (some src) size
    | some buf ↦ append_node fs i n buf src size
  ]
]

-- The directory that a path leads to.
abbrev pub directory_at : Fs → Text → Option (Option Vnode)
directory_at fs path = vfs_lookup fs path >>= λ l. elim l [
  | none ↦ some none
  | some i ↦ node fs i >>= λ n. some (if is_directory n then some n else none)
]

unfoldable pub vfs_child_count : Fs → Text → Option ℕ
vfs_child_count fs path =
    directory_at fs path >>= λ d. some (elim d [ none ↦ 0 | some n ↦ n.child_count ])

unfoldable pub vfs_get_child : Fs → Text → ℕ → Option Link
vfs_get_child fs path k = directory_at fs path >>= λ d. elim d [
  | none ↦ some none
  | some n ↦ if leb n.child_count k then some none else get_elem? n.children k
]

-- The entries and their count; `none` inside is the failure.
unfoldable pub vfs_readdir : Fs → Text → Option (Option (List Link × ℕ))
vfs_readdir fs path = directory_at fs path >>= λ d. some (elim d [
  | none ↦ none
  | some n ↦ some (if n.child_count == 0 then ([], 0) else (n.children, n.child_count))
])

unfoldable pub vfs_find_in_path : Fs → Link → Text → Option Link
vfs_find_in_path fs none name = some none
vfs_find_in_path fs (some d) none = some none
vfs_find_in_path fs (some d) (some name) = node fs d >>= λ n.
    if is_directory n then find_child fs n.child_count n.children name else some none

unfoldable pub vfs_stat : Fs → Text → Option Link
vfs_stat fs path = vfs_lookup fs path
