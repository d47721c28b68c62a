-- ===== src/Vfs/Find.antt =====
-- What `vfs_lookup` of kernel/fs.c finds after a creation.
use myunixlikeos.Libc.StrLaws.{str_eq_iff, c_str}
use myunixlikeos.Libc.Str.{str_eq, deref}
use myunixlikeos.Pmm.{Pmm}
use myunixlikeos.Vfs.Create.{IsNew, created, stored, AllBelow-stored, c_str-stored}
use native.Mathlib.Numerals.{add-one}
use myunixlikeos.Common.{
  ℕ, List, ap, arith, get_elem?-set_ne, get_elem?-set_self, if◌then◌else◌, length, length-set, none,
  refl, set, some, subst, sym, ℕ_discrete, ◌∙◌, ◌≡◌, ◌≢◌, AllBelow, Option, true, ◌>>=◌, Bool-cases,
  [], false, inl, inr, ◌∷◌, ◌+◌, ◌<◌, some-subst,
}
use myunixlikeos.Vfs.{
  Fs, Vnode, vfs_lookup, find_child, node, cleared, lookup_name, strip, with_child, Link, follow,
}
use myunixlikeos.Vfs.Tree.{
  IsFs, KeepsNames, find_child-set, miss-Plain, vfs_lookup-Plain, ChildrenBelow, NodeIsValid,
}

lookup_name_lem :
    (fs : Fs) (dir : ℕ) (d : Vnode) (p : List ℕ)
    → fs.current_dir ≡ some dir
    → node fs dir ≡ some d
    → lookup_name fs p ≡ find_child fs d.child_count d.children (strip p)
unfolding lookup_name
lookup_name_lem fs dir d p e held =
    ap (λ l. follow fs l >>= search_in) e ∙ ap (λ o. o >>= search_in) held
  where
    search_in : Vnode → Option Link
    search_in y = find_child fs y.child_count y.children (strip p)

AllBelow-strip : (p : List ℕ) → AllBelow 256 p → AllBelow 256 (strip p)
AllBelow-strip [] h = tt
AllBelow-strip (c ∷ p) h = ground arith

slash_differs : (p : List ℕ) → deref p ≡ b'/' → c_str p ≢ c_str (strip p)
unfolding c_str
slash_differs [] e same = absurd (omega arith)
slash_differs (c ∷ p) e same =
    let short : strip (c ∷ p) ≡ p = ground arith in
    let long : c_str (c ∷ p) ≡ c ∷ c_str p = ground arith in
    omega (arith, ap length (sym long ∙ (same ∙ ap c_str short)))

module _ {fs : Fs} {dir : ℕ} {p : List ℕ} {d n : Vnode} (v : IsFs fs dir) (w : IsNew fs dir p d n)
    (x : Vnode) (named : x.name ≡ stored p) (pmm' : Pmm) where
  abbrev g : Fs
  g = created fs dir d n x pmm'

  length-pool : length (set (set fs.pool fs.used (cleared n)) fs.used x) ≡ 64
  length-pool =
      length-set (set fs.pool fs.used (cleared n)) fs.used x
      ∙ (length-set fs.pool fs.used (cleared n) ∙ v.size)

  pub node-dir : node g dir ≡ some (with_child d fs.used)
  node-dir =
      get_elem?-set_self (set (set fs.pool fs.used (cleared n)) fs.used x) dir
        (with_child d fs.used) (omega (arith, length-pool, v.dir_in, v.used_le))

  pub node-new : node g fs.used ≡ some x
  node-new =
      get_elem?-set_ne (set (set fs.pool fs.used (cleared n)) fs.used x) {i = dir} {j = fs.used}
        (with_child d fs.used) (omega (arith, v.dir_in))
      ∙ get_elem?-set_self (set fs.pool fs.used (cleared n)) fs.used x
          (omega (arith, length-set fs.pool fs.used (cleared n), v.size, w.left))

  pub node-other : (m : ℕ) → m ≢ dir → m ≢ fs.used → node g m ≡ node fs m
  node-other m nd nu =
      get_elem?-set_ne (set (set fs.pool fs.used (cleared n)) fs.used x) {i = dir} {j = m}
        (with_child d fs.used) (λ e. nd (sym e))
      ∙ (get_elem?-set_ne (set fs.pool fs.used (cleared n)) {i = fs.used} {j = m} x
            (λ e. nu (sym e))
          ∙ get_elem?-set_ne fs.pool {i = fs.used} {j = m} (cleared n) (λ e. nu (sym e)))

  keeps_names : KeepsNames fs.used fs g
  keeps_names m y h held = elim (ℕ_discrete m dir) [
    | yes e ↦
        let both = sym w.at_dir ∙ subst (λ k. node fs k ≡ some y) e held in
        (with_child d fs.used, rw e node-dir, ap name_or both)
    | no ne ↦ (y, node-other m ne (omega arith) ∙ held, refl)
  ]
    where
      name_or : Option Vnode → List ℕ
      name_or none = []
      name_or (some z) = z.name

  found : vfs_lookup g (some p) ≡ some (if str_eq x.name (strip p) then some fs.used else none)
  found =
      let pl = miss-Plain v p w.ne w.miss in
      let dv = v.valid dir d w.at_dir v.dir_in in
      let before : find_child fs d.child_count d.children (strip p) ≡ some none =
        sym (lookup_name_lem fs dir d p v.at_dir w.at_dir)
        ∙ (sym (vfs_lookup-Plain fs p pl) ∙ w.miss) in
      vfs_lookup-Plain g p pl
      ∙ (lookup_name_lem g dir (with_child d fs.used) p v.at_dir node-dir
          ∙ (ap (λ (k : ℕ). find_child g k (set d.children d.child_count (some fs.used)) (strip p))
                (add-one d.child_count)
              ∙ find_child-set fs g fs.used d.child_count fs.used d.children (strip p) x dv.live
                  keeps_names (omega (arith, dv.sixteen, w.room)) node-new before))

  module _ (bytes : AllBelow 256 p) where
    x_bytes : AllBelow 256 x.name
    x_bytes = rw named (AllBelow-stored p bytes)

    -- A path with no slash in front leads to the new node.
    pub found_plain : deref p ≢ b'/' → vfs_lookup g (some p) ≡ some (some fs.used)
    found_plain ns =
        let s : strip p ≡ p = ground arith in
        let m : str_eq x.name p ≡ true =
          (str_eq_iff x.name p x_bytes bytes).1 (rw named (c_str-stored p w.short)) in
        found ∙ (ap (λ q. some (if str_eq x.name q then some fs.used else none)) s ∙ rw m)

    -- A path with a slash in front is stored with it and searched without it.
    pub found_slash : deref p ≡ b'/' → vfs_lookup g (some p) ≡ some none
    found_slash sl =
        let q = strip p in
        let m : str_eq x.name q ≡ false = elim (Bool-cases (str_eq x.name q)) [
          | inl t ↦
              let e = (str_eq_iff x.name q x_bytes (AllBelow-strip p bytes)).0 t in
              absurd
                (slash_differs p sl (sym (c_str-stored p w.short) ∙ (ap c_str (sym named) ∙ e)))
          | inr f ↦ f
        ] in
        found ∙ rw m

  NodeIsValid-suc : (y : Vnode) → NodeIsValid fs.used y → NodeIsValid (fs.used + 1) y
  NodeIsValid-suc y nv = record {
    name_size = nv.name_size;
    name_bytes = nv.name_bytes;
    sixteen = nv.sixteen;
    few = nv.few;
    live = λ j h. let (c, e, b) = nv.live j h in (c, e, omega arith);
    parent_in = λ q e. omega (arith, nv.parent_in q e);
  }

  ChildrenBelow-set :
      (k : ℕ) (cs : List Link)
      → ChildrenBelow fs.used k cs
      → k < length cs
      → ChildrenBelow (fs.used + 1) (k + 1) (set cs k (some fs.used))
  ChildrenBelow-set k cs b h j l = elim (ℕ_discrete j k) [
    | yes e ↦ (fs.used, rw e (get_elem?-set_self cs k (some fs.used) h), omega arith)
    | no ne ↦
        let (c, e, o) = b j (omega arith) in
        (c, get_elem?-set_ne cs {i = k} {j = j} (some fs.used) (λ q. ne (sym q)) ∙ e, omega arith)
  ]

  with_child-NodeIsValid : NodeIsValid (fs.used + 1) (with_child d fs.used)
  with_child-NodeIsValid =
      let nv = v.valid dir d w.at_dir v.dir_in in
      record {
        name_size = nv.name_size;
        name_bytes = nv.name_bytes;
        sixteen = length-set d.children d.child_count (some fs.used) ∙ nv.sixteen;
        few = omega (arith, w.room);
        live =
            ChildrenBelow-set d.child_count d.children nv.live (omega (arith, w.room, nv.sixteen));
        parent_in = λ q e. omega (arith, nv.parent_in q e);
      }

  pub created-IsFs : NodeIsValid (fs.used + 1) x → IsFs g dir
  created-IsFs xv = record {
    size =
        length-set (set (set fs.pool fs.used (cleared n)) fs.used x) dir (with_child d fs.used)
        ∙ length-pool;
    used_le = omega (arith, w.left);
    at_dir = v.at_dir;
    dir_in = omega (arith, v.dir_in);
    root_in = let (r, e, b) = v.root_in in (r, e, omega arith);
    valid = λ i y held h. elim (ℕ_discrete i dir) [
      | yes e ↦
          some-subst (NodeIsValid (fs.used + 1)) (with_child d fs.used) y
            (sym node-dir ∙ subst (λ k. node g k ≡ some y) e held) with_child-NodeIsValid
      | no nd ↦ elim (ℕ_discrete i fs.used) [
        | yes e ↦
            some-subst (NodeIsValid (fs.used + 1)) x y
              (sym node-new ∙ subst (λ k. node g k ≡ some y) e held) xv
        | no nu ↦ NodeIsValid-suc y (v.valid i y (sym (node-other i nd nu) ∙ held) (omega arith))
      ]
    ];
    spare = λ i y held h.
        v.spare i y (sym (node-other i (omega (arith, v.dir_in)) (omega arith)) ∙ held)
          (omega arith);
  }
