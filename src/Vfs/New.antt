-- ===== src/Vfs/New.antt =====
-- What `k_mkdir` and `k_touch` of kernel/fs.c leave behind on success.
use myunixlikeos.Vfs.Create.{
  AllBelow-stored, IsNew, k_mkdir-created, k_touch-created, length-stored, new_directory, new_file,
  buffer, created, stored,
}
use myunixlikeos.Vfs.Find.{created-IsFs, found_plain, found_slash, node-new, node-other}
use myunixlikeos.Common.{
  ℕ, ◌==◌, leb, Bool-cases, inl, inr, AllBelow, List, arith, length-replicate, none, refl,
  replicate, some, some-subst, ◌+◌, ◌<◌, ◌≡◌, ◌≢◌, leb, ◌==◌,
}
use myunixlikeos.Vfs.{
  Fs, Vnode, Link, vfs_lookup, node, k_mkdir, k_touch, Text, may_create, refuse, success,
  vfs_directory, vfs_file, unless_found,
}
use myunixlikeos.Libc.Str.{deref}
use myunixlikeos.Vfs.Tree.{IsFs, NodeIsValid}

module _ {fs : Fs} {dir : ℕ} {p : List ℕ} {d n : Vnode} (v : IsFs fs dir) (w : IsNew fs dir p d n)
    (bytes : AllBelow 256 p) where
  new-NodeIsValid :
      (f : ℕ) (c : Text)
      → NodeIsValid (fs.used + 1) (record n {
        name = stored p;
        flags = f;
        parent = some dir;
        children = replicate 16 none;
        child_count = 0;
        content = c;
      })
  new-NodeIsValid f c = record {
    name_size = length-stored p w.short;
    name_bytes = AllBelow-stored p bytes;
    sixteen = length-replicate {A = Link} 16 none;
    few = omega arith;
    live = λ j h. absurd (omega arith);
    parent_in = λ q e. some-subst (λ m. m < fs.used + 1) dir q e (omega (arith, v.dir_in));
  }

  -- In a well-formed tree with a node left and room in the current directory, for a path of less than
  -- 32 characters that is not found and has no slash in front, `k_mkdir` returns 0 and leaves a
  -- well-formed tree, in which the path leads to a new empty directory below the current one; every
  -- node but the new one and the current directory is as it was.
  pub k_mkdir_lem :
      deref p ≢ b'/'
      → (g : Fs) × (k_mkdir fs (some p) ≡ some (success, g))
        × IsFs g dir
        × (vfs_lookup g (some p) ≡ some (some fs.used))
        × (node g fs.used ≡ some (new_directory dir p n))
        × ((m : ℕ) → m ≢ dir → m ≢ fs.used → node g m ≡ node fs m)
  k_mkdir_lem ns =
      let x = new_directory dir p n in
      (
        created fs dir d n x fs.pmm,
        k_mkdir-created v w,
        created-IsFs v w x refl fs.pmm (new-NodeIsValid vfs_directory none),
        found_plain v w x refl fs.pmm bytes ns,
        node-new v w x refl fs.pmm,
        node-other v w x refl fs.pmm,
      )

  -- The same for `k_touch` and a new file, which has the buffer that the allocator gave, if any.
  pub k_touch_lem :
      deref p ≢ b'/'
      → (g : Fs) × (k_touch fs (some p) ≡ some (success, g))
        × IsFs g dir
        × (vfs_lookup g (some p) ≡ some (some fs.used))
        × (node g fs.used ≡ some (new_file dir p (buffer v w).0 n))
        × ((m : ℕ) → m ≢ dir → m ≢ fs.used → node g m ≡ node fs m)
  k_touch_lem ns =
      let c = (buffer v w).0 in
      let x = new_file dir p c n in
      let q = (buffer v w).1.pmm in
      (
        created fs dir d n x q,
        k_touch-created v w,
        created-IsFs v w x refl q (new-NodeIsValid vfs_file c),
        found_plain v w x refl q bytes ns,
        node-new v w x refl q,
        node-other v w x refl q,
      )

  -- In a well-formed tree with a node left and room in the current directory, for a path of less than
  -- 32 characters that is not found and has a slash in front, `k_mkdir` returns 0, but the path leads
  -- nowhere afterwards.
  pub k_mkdir_slash :
      deref p ≡ b'/'
      → (g : Fs) × (k_mkdir fs (some p) ≡ some (success, g)) × (vfs_lookup g (some p) ≡ some none)
  k_mkdir_slash sl =
      let x = new_directory dir p n in
      (created fs dir d n x fs.pmm, k_mkdir-created v w, found_slash v w x refl fs.pmm bytes sl)

may_create-found :
    (fs : Fs) (dir : ℕ) (d : Vnode) (p : List ℕ) (l : ℕ)
    → fs.current_dir ≡ some dir
    → node fs dir ≡ some d
    → vfs_lookup fs (some p) ≡ some (some l)
    → may_create fs p ≡ some none
unfolding may_create unless_found
may_create-found fs dir d p l cur held found = elim (Bool-cases (deref p == 0)) [
  | inl z ↦ rw (z)
  | inr z ↦ elim (Bool-cases (leb 16 d.child_count)) [
    | inl r ↦ rw (z, cur, held, r)
    | inr r ↦ rw (z, cur, held, r, found)
  ]
]

-- A path that is found is refused: `k_mkdir` and `k_touch` return -1 and change nothing.
pub create_existing :
    (fs : Fs) (dir : ℕ) (d : Vnode) (p : List ℕ) (l : ℕ)
    → fs.current_dir ≡ some dir
    → node fs dir ≡ some d
    → vfs_lookup fs (some p) ≡ some (some l)
    → (k_mkdir fs (some p) ≡ refuse fs) × (k_touch fs (some p) ≡ refuse fs)
unfolding k_mkdir k_touch
create_existing fs dir d p l cur held found =
    let e = may_create-found fs dir d p l cur held found in (rw (e), rw (e))
