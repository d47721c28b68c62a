-- ===== src/Vfs/Create.antt =====
-- `k_mkdir` and `k_touch` of kernel/fs.c: the new node, and whether its path leads to it.
use myunixlikeos.Pmm.{Pmm}
use myunixlikeos.Vfs.Tree.{IsFs}
use myunixlikeos.Common.{
  ℕ, AllBelow, AllBelow-append, AllBelow-drop, AllBelow-replicate, List, [], ap, append-nil, arith,
  drop, length, length-append, length-drop, length-replicate, refl, replicate, set, some, suc, zero,
  ◌++◌, ◌+◌, ◌-◌, ◌<◌, ◌∙◌, ◌≡◌, ◌≤◌, false, get_elem?, get_elem?-set_ne, get_elem?-set_self, leb,
  ltb, none, true, ◌==◌, ◌≢◌,
}
use myunixlikeos.Libc.Str.{strcpy, strlen, deref}
use myunixlikeos.Libc.StrLaws.{c_str, AllBelow-c_str, c_str-c_str_append, strcpy_lem, strlen-c_str}
use myunixlikeos.Vfs.{
  Fs, Vnode, cleared, with_child, Text, add_child, alloc_vnode, k_mkdir, link_directory, may_create,
  node, put_node, success, vfs_directory, vfs_file, vfs_lookup, k_touch, link_file, new_content,
}

-- The name that `strcpy` leaves in a node that was never used.
abbrev pub stored : List ℕ → List ℕ
stored p = c_str p ++ drop (strlen p) (replicate 32 0)

pub strcpy-stored : (p : List ℕ) → strlen p < 32 → strcpy (replicate 32 0) p ≡ some (stored p)
strcpy-stored p h = (strcpy_lem (replicate 32 0) p).0 (omega (arith, length-replicate {A = ℕ} 32 0))

drop-zeros : (n k : ℕ) → k ≤ n → drop k (replicate {A = ℕ} n 0) ≡ replicate (n - k) 0
drop-zeros n zero h = ap (λ m. replicate m 0) (omega arith)
drop-zeros zero (suc k) h = absurd (omega arith)
drop-zeros (suc n) (suc k) h = drop-zeros n k (omega arith) ∙ ap (λ m. replicate m 0) (omega arith)

c_str-zeros : (n : ℕ) → c_str (replicate n 0) ≡ []
unfolding c_str
c_str-zeros zero = refl
c_str-zeros (suc n) = refl

pub c_str-stored : (p : List ℕ) → strlen p < 32 → c_str (stored p) ≡ c_str p
c_str-stored p h =
    c_str-c_str_append p (drop (strlen p) (replicate 32 0))
    ∙ rw (drop-zeros 32 (strlen p) (omega arith), c_str-zeros (32 - strlen p), append-nil)

pub AllBelow-stored : (p : List ℕ) → AllBelow 256 p → AllBelow 256 (stored p)
AllBelow-stored p h =
    AllBelow-append 256 (c_str p) (drop (strlen p) (replicate 32 0)) (AllBelow-c_str p h)
      (AllBelow-drop 256 (strlen p) (replicate 32 0) (AllBelow-replicate 256 32 0 (omega arith)))

pub length-stored : (p : List ℕ) → strlen p < 32 → length (stored p) ≡ 32
length-stored p h = omega (
  arith,
  length-append (c_str p) (drop (strlen p) (replicate 32 0)),
  strlen-c_str p,
  length-drop (strlen p) (replicate {A = ℕ} 32 0),
  length-replicate {A = ℕ} 32 0,
)

-- The node that `k_mkdir` makes of the spare node `n`, and the one of `k_touch`.
abbrev pub new_directory : ℕ → List ℕ → Vnode → Vnode
new_directory dir p n = record (cleared n) {
  name = stored p;
  flags = vfs_directory;
  parent = some dir;
  child_count = 0;
  content = none;
}

abbrev pub new_file : ℕ → List ℕ → Text → Vnode → Vnode
new_file dir p c n = record (cleared n) {
  name = stored p;
  flags = vfs_file;
  parent = some dir;
  child_count = 0;
  content = c;
}

-- The tree with the node `x`, in place of `n`, linked into the directory node `d`.
abbrev pub created : Fs → ℕ → Vnode → Vnode → Vnode → Pmm → Fs
created fs dir d n x pmm' = record fs {
  pool = set (set (set fs.pool fs.used (cleared n)) fs.used x) dir (with_child d fs.used);
  used = fs.used + 1;
  pmm = pmm';
}

-- A path that can be created: not empty, short enough for the name buffer, and not found, with a
-- place in the current directory and a spare node.
pub record IsNew (fs : Fs) (dir : ℕ) (p : List ℕ) (d n : Vnode) : Type 0 where
  pub ne : deref p ≢ 0
  pub short : strlen p < 32
  pub miss : vfs_lookup fs (some p) ≡ some none
  pub at_dir : node fs dir ≡ some d
  pub room : d.child_count < 16
  pub spare_node : node fs fs.used ≡ some n
  pub left : fs.used < 64

module _ {fs : Fs} {dir : ℕ} {p : List ℕ} {d n : Vnode} (v : IsFs fs dir)
    (w : IsNew fs dir p d n) where
  may_create-some : may_create fs p ≡ some (some dir)
  unfolding may_create
  may_create-some =
      let z : (deref p == 0) ≡ false = ground (arith, w.ne) in
      let r : (leb 16 d.child_count) ≡ false = ground (arith, w.room) in
      rw (z, v.at_dir, w.at_dir, r, w.miss)

  abbrev fs1 : Fs
  fs1 = record fs { pool = set fs.pool fs.used (cleared n); used = fs.used + 1 }

  alloc_vnode-some : alloc_vnode fs ≡ some (some fs.used, fs1)
  unfolding alloc_vnode
  alloc_vnode-some =
      let l : (leb 64 fs.used) ≡ false = ground (arith, w.left) in rw (l, w.spare_node)

  node-fs1 : node fs1 fs.used ≡ some (cleared n)
  node-fs1 = get_elem?-set_self fs.pool fs.used (cleared n) (omega (arith, v.size, w.left))

  name-zeros : (cleared n).name ≡ replicate 32 0
  name-zeros = let s = v.spare fs.used n w.spare_node (omega arith) in rw s.zeros

  dir-ne : fs.used ≢ dir
  dir-ne = omega (arith, v.dir_in)

  link-some :
      (x : Vnode) (pmm' : Pmm)
      → add_child (put_node (record fs1 { pmm = pmm' }) fs.used x) dir fs.used
        ≡ some (created fs dir d n x pmm')
  link-some x pmm' =
      let dv = v.valid dir d w.at_dir v.dir_in in
      let held : get_elem? (set (set fs.pool fs.used (cleared n)) fs.used x) dir ≡ some d =
        get_elem?-set_ne (set fs.pool fs.used (cleared n)) x dir-ne
        ∙ (get_elem?-set_ne fs.pool (cleared n) dir-ne ∙ w.at_dir) in
      let t : (ltb d.child_count (length d.children)) ≡ true = ground (arith, w.room, dv.sixteen) in
      rw (held, t)

  pub k_mkdir-created :
      k_mkdir fs (some p) ≡ some (success, created fs dir d n (new_directory dir p n) fs.pmm)
  unfolding k_mkdir link_directory
  k_mkdir-created =
      let copied : strcpy (cleared n).name p ≡ some (stored p) =
        rw name-zeros (strcpy-stored p w.short) in
      rw (
        may_create-some,
        alloc_vnode-some,
        node-fs1,
        copied,
        link-some (new_directory dir p n) fs.pmm,
      )

  -- The buffer of a new file, and the allocator behind it.
  abbrev pub buffer : Text × Fs
  buffer = new_content fs1

  pub k_touch-created :
      k_touch fs (some p)
      ≡ some (success, created fs dir d n (new_file dir p buffer.0 n) buffer.1.pmm)
  unfolding k_touch link_file
  k_touch-created =
      let copied : strcpy (cleared n).name p ≡ some (stored p) =
        rw name-zeros (strcpy-stored p w.short) in
      rw (
        may_create-some,
        alloc_vnode-some,
        node-fs1,
        copied,
        link-some (new_file dir p buffer.0 n) buffer.1.pmm,
      )
