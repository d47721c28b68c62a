-- ===== src/Vfs/Tests.antt =====
-- The file tree of kernel/fs.c at concrete inputs.
use myunixlikeos.Libc.Str.{str_eq, strlen}
use myunixlikeos.Common.{
  ℕ, AllBelow, some-subst, List, [], arith, get_elem?, none, refl, replicate, some, suc, zero, ◌<◌,
  ◌∷◌, ◌≡◌, ◌≤◌, ◌≢◌,
}
use myunixlikeos.Vfs.{
  Fs, Vnode, node, vfs_lookup, vfs_directory, lookup_name, find_child, k_mkdir, success,
}
use myunixlikeos.Vfs.Tree.{IsFs, NodeIsValid, SpareIsValid}
use myunixlikeos.Vfs.Create.{IsNew, new_directory}
use myunixlikeos.Vfs.New.{k_mkdir_lem, k_mkdir_slash}

abbrev spare : Vnode
spare = record {
  name = replicate 32 0;
  flags = 0;
  parent = none;
  children = replicate 16 none;
  child_count = 0;
  size = 0;
  content = none;
}

abbrev root_node : Vnode
root_node = record spare { name = b'/' ∷ replicate 31 0; flags = vfs_directory }

-- The tree that `fs_init` leaves, over ten free pages.
abbrev tree : Fs
tree = record {
  pool = root_node ∷ replicate 63 spare;
  used = 1;
  root = some 0;
  ram = λ b. 0;
  current_dir = some 0;
  pmm = record {
    bitmap = 0 ∷ 0 ∷ [];
    bitmap_size = 2;
    memory_start = 0x100000;
    total_pages = 10;
    available = 10;
  };
}

spare_names : (k i : ℕ) (n : Vnode) → get_elem? (replicate k spare) i ≡ some n → SpareIsValid n
spare_names zero i n e = cc
spare_names (suc k) zero n e = some-subst SpareIsValid spare n e (record { zeros = refl })
spare_names (suc k) (suc i) n e = spare_names k i n e

root-NodeIsValid : NodeIsValid 1 root_node
root-NodeIsValid = record {
  name_size = refl;
  name_bytes = omega arith;
  sixteen = refl;
  few = omega arith;
  live = λ j h. absurd (omega arith);
  parent_in = λ p e. absurd (cc);
}

tree_valid : (i : ℕ) (n : Vnode) → node tree i ≡ some n → i < 1 → NodeIsValid 1 n
tree_valid zero n e h = some-subst (NodeIsValid 1) root_node n e root-NodeIsValid
tree_valid (suc i) n e h = absurd (omega arith)

tree_spare : (i : ℕ) (n : Vnode) → node tree i ≡ some n → 1 ≤ i → SpareIsValid n
tree_spare zero n e h = absurd (omega arith)
tree_spare (suc i) n e h = spare_names 63 i n e

tree-IsFs : IsFs tree 0
tree-IsFs = record {
  size = refl;
  used_le = omega arith;
  at_dir = refl;
  dir_in = omega arith;
  root_in = (0, refl, omega arith);
  valid = tree_valid;
  spare = tree_spare;
}

-- "ab" and "/ab"
abbrev ab : List ℕ
ab = b'a' ∷ b'b' ∷ []

abbrev slash_ab : List ℕ
slash_ab = b'/' ∷ ab

is_new : IsNew tree 0 ab root_node spare
unfolding vfs_lookup lookup_name find_child strlen str_eq
is_new = record {
  ne = omega arith;
  short = omega arith;
  miss = refl;
  at_dir = refl;
  room = omega arith;
  spare_node = refl;
  left = omega arith;
}

slash-IsNew : IsNew tree 0 slash_ab root_node spare
unfolding vfs_lookup lookup_name find_child strlen str_eq
slash-IsNew = record {
  ne = omega arith;
  short = omega arith;
  miss = refl;
  at_dir = refl;
  room = omega arith;
  spare_node = refl;
  left = omega arith;
}

ab_bytes : AllBelow 256 ab
ab_bytes = omega arith

slash_ab_bytes : AllBelow 256 slash_ab
slash_ab_bytes = omega arith

k_mkdir_lem_example :
    (g : Fs) × (k_mkdir tree (some ab) ≡ some (success, g))
    × IsFs g 0
    × (vfs_lookup g (some ab) ≡ some (some 1))
    × (node g 1 ≡ some (new_directory 0 ab spare))
    × ((m : ℕ) → m ≢ 0 → m ≢ 1 → node g m ≡ node tree m)
k_mkdir_lem_example = k_mkdir_lem tree-IsFs is_new ab_bytes (omega arith)

k_mkdir_slash_example :
    (g : Fs) × (k_mkdir tree (some slash_ab) ≡ some (success, g))
    × (vfs_lookup g (some slash_ab) ≡ some none)
k_mkdir_slash_example = k_mkdir_slash tree-IsFs slash-IsNew slash_ab_bytes refl

root_found : vfs_lookup tree (some (b'/' ∷ [])) ≡ some (some 0)
unfolding vfs_lookup str_eq
root_found = refl
