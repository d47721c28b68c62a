-- ===== src/Vfs.antt =====
-- The file tree of kernel/fs.c: nodes in a pool of 64, directories of 16 children.
pub mod Create
pub mod Find
pub mod Files
pub mod New
mod Tests
pub mod Tree
use myunixlikeos.Common.{
  ℕ, Bool, List, Option, [], bit_and, drop, get_elem?, if◌then◌else◌, leb, length, ltb, none, not,
  replicate, set, some, suc, zero, ◌+◌, ◌==◌, ◌>>=◌, ◌∷◌,
}
use myunixlikeos.Common.Int.{ℤ, negsuc, pos}
use myunixlikeos.Libc.Str.{str_eq, deref, strcpy}
use myunixlikeos.Pmm.{Pmm, alloc_z}

abbrev pub vfs_file : ℕ
vfs_file = 1

abbrev pub vfs_directory : ℕ
vfs_directory = 2

-- A node is named by its index in the pool; `none` is NULL.
abbrev pub Link : Type 0
Link = Option ℕ

-- A pointer to a string, or NULL.
abbrev pub Text : Type 0
Text = Option (List ℕ)

-- `vnode_t`. The buffer that `content` leads to belongs to the node alone.
pub record Vnode : Type 0 where
  pub name : List ℕ
  pub flags : ℕ
  pub parent : Link
  pub children : List Link
  pub child_count : ℕ
  pub size : ℕ
  pub content : Text

-- The static variables of the file, and the page allocator that it calls.
pub record Fs : Type 0 where
  pub pool : List Vnode
  pub used : ℕ
  pub root : Link
  pub current_dir : Link
  pub ram : ℕ → ℕ
  pub pmm : Pmm

-- The return values 0 and -1.
abbrev pub success : ℤ
success = pos 0

abbrev pub failure : ℤ
failure = negsuc 0

abbrev pub is_file : Vnode → Bool
is_file n = not (bit_and n.flags vfs_file == 0)

abbrev pub is_directory : Vnode → Bool
is_directory n = not (bit_and n.flags vfs_directory == 0)

-- `*i`; `none` is a fault, as everywhere below.
abbrev pub node : Fs → ℕ → Option Vnode
node fs i = get_elem? fs.pool i

abbrev pub follow : Fs → Link → Option Vnode
follow fs l = l >>= node fs

abbrev pub put_node : Fs → ℕ → Vnode → Fs
put_node fs i n = record fs { pool = set fs.pool i n }

-- A fresh node; `size` is left as it was.
abbrev pub cleared : Vnode → Vnode
cleared n = record n {
  name = set n.name 0 0;
  flags = 0;
  parent = none;
  child_count = 0;
  content = none;
  children = replicate 16 none;
}

-- The inner option is the NULL of a full pool.
unfoldable pub alloc_vnode : Fs → Option (Link × Fs)
alloc_vnode fs = if leb 64 fs.used then some (none, fs) else do
  n ← node fs fs.used
  some (some fs.used, record fs { pool = set fs.pool fs.used (cleared n); used = fs.used + 1 })

unfoldable pub fs_init : Fs → Option Fs
unfolding alloc_vnode
fs_init fs = do
  (l, fs') ← alloc_vnode (record fs { used = 0 })
  elim l [
    | none ↦ some (record fs' { root = none })
    | some i ↦ (do
      n ← node fs' i
      name ← strcpy n.name (b'/' ∷ [])
      let n' = record n {
        name = name;
        flags = vfs_directory;
        parent = none;
        child_count = 0;
        content = none;
      }
      some (record (put_node fs' i n') { root = some i; current_dir = some i }))
  ]

-- The loop over the children; the outer option is a fault.
unfoldable pub find_child : Fs → ℕ → List Link → List ℕ → Option Link
find_child fs zero cs name = some none
find_child fs (suc k) [] name = none
find_child fs (suc k) (c ∷ cs) name =
    let rest = find_child fs k cs name in
    follow fs c >>= λ n. if str_eq n.name name then some c else rest

-- `(*path == '/') ? path + 1 : path`
abbrev pub strip : List ℕ → List ℕ
strip p = if deref p == b'/' then drop 1 p else p

unfoldable pub lookup_name : Fs → List ℕ → Option Link
lookup_name fs p = do d ← follow fs fs.current_dir; find_child fs d.child_count d.children (strip p)

abbrev pub lookup_parent : Fs → Option Link
lookup_parent fs = do
  d ← follow fs fs.current_dir
  some (elim d.parent [ none ↦ fs.current_dir | some i ↦ some i ])

unfoldable pub vfs_lookup : Fs → Text → Option Link
unfolding find_child lookup_name
vfs_lookup fs none = some none
vfs_lookup fs (some p) =
    if deref p == 0
    then some none
    else if str_eq p (b'/' ∷ [])
    then some fs.root
    else if str_eq p (b'.' ∷ [])
    then some fs.current_dir
    else if str_eq p (b'.' ∷ b'.' ∷ [])
    then lookup_parent fs
    else lookup_name fs p

abbrev pub with_child : Vnode → ℕ → Vnode
with_child d i = record d {
  children = set d.children d.child_count (some i);
  child_count = d.child_count + 1;
}

-- `dir->children[dir->child_count++] = i`
abbrev pub add_child : Fs → ℕ → ℕ → Option Fs
add_child fs dir i = node fs dir >>= λ d.
    if ltb d.child_count (length d.children) then some (put_node fs dir (with_child d i)) else none

unfoldable pub unless_found : Fs → List ℕ → ℕ → Option Link
unless_found fs p dir =
    vfs_lookup fs (some p) >>= λ found. some (elim found [ none ↦ some dir | some _ ↦ none ])

-- The checks that `k_mkdir` and `k_touch` begin with: `some none` is a refusal, else the directory.
unfoldable pub may_create : Fs → List ℕ → Option Link
unfolding unless_found
may_create fs p = if deref p == 0 then some none else elim fs.current_dir [
  | none ↦ some none
  | some dir ↦
      node fs dir >>= λ d. if leb 16 d.child_count then some none else unless_found fs p dir
]

abbrev pub Result : Type 0
Result = Option (ℤ × Fs)

abbrev pub refuse : Fs → Result
refuse fs = some (failure, fs)

-- The node filled in and linked, behind the checks.
unfoldable pub link_directory : Fs → List ℕ → ℕ → ℕ → Result
link_directory fs p dir i = do
  n ← node fs i
  name ← strcpy n.name p
  let n' = record n {
    name = name;
    flags = vfs_directory;
    parent = some dir;
    child_count = 0;
    content = none;
  }
  fs' ← add_child (put_node fs i n') dir i
  some (success, fs')

unfoldable pub k_mkdir : Fs → Text → Result
unfolding may_create alloc_vnode link_directory
k_mkdir fs none = refuse fs
k_mkdir fs (some p) = do
  checked ← may_create fs p
  elim checked [
    | none ↦ refuse fs
    | some dir ↦ (do
      (l, fs') ← alloc_vnode fs
      elim l [ none ↦ refuse fs' | some i ↦ link_directory fs' p dir i ])
  ]

-- A buffer of `pmm_alloc_z(64)`, with its first byte cleared once more.
abbrev pub new_content : Fs → Text × Fs
new_content fs =
    let (b, pmm') = alloc_z 64 fs.ram fs.pmm in
    (elim b [ none ↦ none | some (_, bytes) ↦ some (set bytes 0 0) ], record fs { pmm = pmm' })

unfoldable pub link_file : Fs → List ℕ → ℕ → ℕ → Result
link_file fs p dir i = do
  n ← node fs i
  name ← strcpy n.name p
  let (content, fs1) = new_content fs
  let n' = record n {
    name = name;
    flags = vfs_file;
    parent = some dir;
    child_count = 0;
    content = content;
  }
  fs2 ← add_child (put_node fs1 i n') dir i
  some (success, fs2)

unfoldable pub k_touch : Fs → Text → Result
unfolding may_create alloc_vnode link_file
k_touch fs none = refuse fs
k_touch fs (some p) = do
  checked ← may_create fs p
  elim checked [
    | none ↦ refuse fs
    | some dir ↦ (do
      (l, fs') ← alloc_vnode fs
      elim l [ none ↦ refuse fs' | some i ↦ link_file fs' p dir i ])
  ]
