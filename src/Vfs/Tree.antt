-- ===== src/Vfs/Tree.antt =====
-- Well-formed file trees of kernel/fs.c, and looking a name up in them.
use myunixlikeos.Common.{
  ℕ, AllBelow, Bool-cases, List, [], arith, get_elem?, if◌then◌else◌, inl, inr, length, none, refl,
  replicate, set, some, suc, zero, ◌<◌, ◌∷◌, ◌≡◌, ◌≤◌, Option-cases, false, get_elem?_total, ◌==◌,
  ◌≢◌, ap,
}
use myunixlikeos.Libc.Str.{str_eq, deref}
use myunixlikeos.Vfs.{Fs, Vnode, Link, find_child, node, lookup_name, lookup_parent, vfs_lookup}

-- The first `k` children are nodes below `u`.
abbrev pub ChildrenBelow : ℕ → ℕ → List Link → Type 0
ChildrenBelow u k cs = (j : ℕ) → j < k → (c : ℕ) × (get_elem? cs j ≡ some (some c)) × (c < u)

-- A node of a tree with `u` nodes.
pub record NodeIsValid (u : ℕ) (n : Vnode) : Type 0 where
  pub name_size : length n.name ≡ 32
  pub name_bytes : AllBelow 256 n.name
  pub sixteen : length n.children ≡ 16
  pub few : n.child_count ≤ 16
  pub live : ChildrenBelow u n.child_count n.children
  pub parent_in : (p : ℕ) → n.parent ≡ some p → p < u

-- A node that was never used: its name is all zeros.
pub record SpareIsValid (n : Vnode) : Type 0 where
  pub zeros : n.name ≡ replicate 32 0

-- `dir` is the current directory.
pub record IsFs (fs : Fs) (dir : ℕ) : Type 0 where
  pub size : length fs.pool ≡ 64
  pub used_le : fs.used ≤ 64
  pub at_dir : fs.current_dir ≡ some dir
  pub dir_in : dir < fs.used
  pub root_in : (r : ℕ) × (fs.root ≡ some r) × (r < fs.used)
  pub valid : (i : ℕ) (n : Vnode) → node fs i ≡ some n → i < fs.used → NodeIsValid fs.used n
  pub spare : (i : ℕ) (n : Vnode) → node fs i ≡ some n → fs.used ≤ i → SpareIsValid n

-- Nodes below `u` keep their names from `fs` to `g`.
abbrev pub KeepsNames : ℕ → Fs → Fs → Type 0
KeepsNames u fs g =
    (m : ℕ) (n : Vnode)
    → m < u
    → node fs m ≡ some n
    → (n' : Vnode) × (node g m ≡ some n') × (n'.name ≡ n.name)

ChildrenBelow-tail :
    (u k : ℕ) (c : Link) (cs : List Link) → ChildrenBelow u (suc k) (c ∷ cs) → ChildrenBelow u k cs
ChildrenBelow-tail u k c cs b j h = b (suc j) (omega arith)

-- On live children the search does not fault.
pub find_child_total :
    (fs : Fs) (u k : ℕ) (cs : List Link) (nm : List ℕ)
    → ((m : ℕ) → m < u → (n : Vnode) × (node fs m ≡ some n))
    → ChildrenBelow u k cs
    → (l : Link) × (find_child fs k cs nm ≡ some l)
unfolding find_child
find_child_total fs u zero cs nm all b = (none, refl)
find_child_total fs u (suc k) [] nm all b = let (c, e, h) = b 0 (omega arith) in cc
find_child_total fs u (suc k) (none ∷ cs) nm all b = let (c, e, h) = b 0 (omega arith) in cc
find_child_total fs u (suc k) (some m ∷ cs) nm all b =
    let (c, e, h) = b 0 (omega arith) in
    let (n, f) = all m (ground (arith, h)) in
    let (l, g) = find_child_total fs u k cs nm all (ChildrenBelow-tail u k (some m) cs b) in
    elim (Bool-cases (str_eq n.name nm)) [ inl t ↦ (some m, rw (f, t)) | inr t ↦ (l, rw (f, t, g)) ]

-- A child put behind `k` live ones is found exactly when none of those has the name and it has.
pub find_child-set :
    (fs g : Fs) (u k i : ℕ) (cs : List Link) (nm : List ℕ) (n : Vnode)
    → ChildrenBelow u k cs
    → KeepsNames u fs g
    → k < length cs
    → node g i ≡ some n
    → find_child fs k cs nm ≡ some none
    → find_child g (suc k) (set cs k (some i)) nm ≡ some (if str_eq n.name nm then some i else none)
unfolding find_child
find_child-set fs g u k i [] nm n b keep h e f = absurd (omega arith)
find_child-set fs g u zero i (c ∷ cs) nm n b keep h e f = rw e (ground arith)
find_child-set fs g u (suc k) i (none ∷ cs) nm n b keep h e f = cc
find_child-set fs g u (suc k) i (some m ∷ cs) nm n b keep h e f =
    let (c, at_zero, below) = b 0 (omega arith) in
    elim (Option-cases (node fs m)) [
      | inl dangling ↦ let f' = rw dangling at f in cc
      | inr (x, held) ↦
          let f' = rw held at f in
          let (y, held', same) = keep m x (ground arith) held in
          elim (Bool-cases (str_eq x.name nm)) [
            | inl t ↦ let f'' = rw t at f' in cc
            | inr t ↦
                let t' : (str_eq y.name nm) ≡ false = rw same t in
                rw (held', t')
                  (find_child-set fs g u k i cs nm n (ChildrenBelow-tail u k (some m) cs b) keep
                    (omega arith) e (rw t at f'))
          ]
    ]

pub node_total :
    {fs : Fs} {dir : ℕ} → IsFs fs dir → (m : ℕ) → m < 64 → (n : Vnode) × (node fs m ≡ some n)
node_total {fs} v m h = get_elem?_total fs.pool m (omega (arith, v.size))

-- A path that is none of the three names with a meaning of their own.
abbrev pub Plain : List ℕ → Type 0
Plain p =
    (deref p ≢ 0)
    × (str_eq p (b'/' ∷ []) ≡ false)
    × (str_eq p (b'.' ∷ []) ≡ false)
    × (str_eq p (b'.' ∷ b'.' ∷ []) ≡ false)

pub vfs_lookup-Plain : (fs : Fs) (p : List ℕ) → Plain p → vfs_lookup fs (some p) ≡ lookup_name fs p
unfolding vfs_lookup
vfs_lookup-Plain fs p (ne, a, b, c) =
    let z : (deref p == 0) ≡ false = ground arith in rw (z, a, b, c)

module _ {fs : Fs} {dir : ℕ} (v : IsFs fs dir) (p : List ℕ) (ne : deref p ≢ 0)
    (miss : vfs_lookup fs (some p) ≡ some none) where
  lookup_parent-some : (l : ℕ) × (lookup_parent fs ≡ some (some l))
  lookup_parent-some =
      let (d, held) = node_total v dir (omega (arith, v.dir_in, v.used_le)) in
      elim (Option-cases d.parent) [
        | inl top ↦ (dir, rw (v.at_dir, held, top) (ap some v.at_dir))
        | inr (q, up) ↦ (q, rw (v.at_dir, held, up))
      ]

  -- What is not found is a plain name.
  pub miss-Plain : Plain p
  unfolding vfs_lookup
  miss-Plain =
      let z : (deref p == 0) ≡ false = ground arith in
      let (r, root, _) = v.root_in in
      let (l, up) = lookup_parent-some in
      elim (Bool-cases (str_eq p (b'/' ∷ []))) [
        | inl t ↦ let m = rw (z, t, root) at miss in cc
        | inr a ↦ elim (Bool-cases (str_eq p (b'.' ∷ []))) [
          | inl t ↦ let m = rw (z, a, t, v.at_dir) at miss in cc
          | inr b ↦ elim (Bool-cases (str_eq p (b'.' ∷ b'.' ∷ []))) [
            | inl t ↦ let m = rw (z, a, b, t, up) at miss in cc
            | inr c ↦ (ne, a, b, c)
          ]
        ]
      ]
