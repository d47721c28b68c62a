-- ===== src/Syscall/Transfer.antt =====
-- The buffers that SYS_write of kernel/syscall.c works on.
use myunixlikeos.Pmm.{bytes_at, Pmm, alloc_z, alloc_blocks}
use myunixlikeos.Syscall.{ensure_writable_content, copy_content}
use myunixlikeos.Vfs.{Vnode, is_file, put_node, Fs, node, new_content}
use myunixlikeos.Common.{
  ap, length-set, ◌∙◌, suc, zero, set, length-take_le, length-drop_add, length-drop_add,
  length-take_le, ℕ, List, [], some, ◌+◌, ◌<◌, ◌≡◌, ◌≤◌, ◌∷◌, ◌++◌, length, set, refl, arith, take,
  drop, suc, zero, leb, false, ap, inl, inr, length-append, length-set, none, true, ◌⊎◌,
  Option-cases, get_elem?, get_elem?-set_self, some-subst,
}
use myunixlikeos.Libc.StrLaws.{memcpy_lem}
use myunixlikeos.Vfs.Files.{write_text, min63}

take-set : (n : ℕ) (xs : List ℕ) (v : ℕ) → take n (set xs n v) ≡ take n xs
take-set zero xs v = refl
take-set (suc n) [] v = refl
take-set (suc n) (x ∷ xs) v = ap (λ t. x ∷ t) (take-set n xs v)

take-append : (n : ℕ) (xs ys : List ℕ) → n ≤ length xs → take n (take n xs ++ ys) ≡ take n xs
take-append zero xs ys h = refl
take-append (suc n) [] ys h = absurd (omega arith)
take-append (suc n) (x ∷ xs) ys h = ap (λ t. x ∷ t) (take-append n xs ys (omega arith))

drop-set :
    (off n : ℕ) (xs ys : List ℕ) (v : ℕ)
    → off ≤ length xs
    → drop off (set (take off xs ++ ys) (off + n) v) ≡ set ys n v
drop-set zero n xs ys v h = let e : 0 + n ≡ n = omega arith in rw (e)
drop-set (suc off) n [] ys v h = absurd (omega arith)
drop-set (suc off) n (x ∷ xs) ys v h =
    let e : suc off + n ≡ suc (off + n) = omega arith in
    rw (e) (drop-set off n xs ys v (omega arith))

-- The text written into a large enough buffer: the written bytes stand at the offset.
pub write_text_lem :
    (buf src : List ℕ) (off n : ℕ)
    → off + n < length buf
    → n ≤ length src
    → (c : List ℕ) × (write_text buf off src n ≡ some c)
      × (take n (drop off c) ≡ take n src)
      × (length c ≡ length buf)
unfolding write_text
write_text_lem buf src off n h k =
    let room : leb (length buf) (off + n) ≡ false = ground arith in
    let d = length-drop_add off buf (omega arith) in
    let m = memcpy_lem (drop off buf) src n (omega (arith, d)) k in
    let tail = take n src ++ drop n (drop off buf) in
    (
      set (take off buf ++ tail) (off + n) 0,
      rw (room, m),
      rw (drop-set off n buf tail 0 (omega arith), take-set n tail 0) (take-append n src _ k),
      omega (
        arith,
        length-set (take off buf ++ tail) (off + n) 0,
        length-append (take off buf) tail,
        length-append (take n src) (drop n (drop off buf)),
        length-take_le off buf (omega arith),
        length-take_le n src k,
        length-drop_add n (drop off buf) (omega (arith, d)),
        d,
      ),
    )

length-bytes_at : (ram : ℕ → ℕ) (a n : ℕ) → length (bytes_at ram a n) ≡ n
length-bytes_at ram a zero = refl
length-bytes_at ram a (suc n) = ap suc (length-bytes_at ram (a + 1) n)

-- A buffer of 64 bytes is a whole page.
alloc_z-length :
    (ram : ℕ → ℕ) (p q : Pmm) (a : ℕ) (bytes : List ℕ)
    → alloc_z 64 ram p ≡ (some (a, bytes), q)
    → length bytes ≡ 4096
unfolding alloc_z
alloc_z-length ram p q a bytes e = elim (Option-cases (alloc_blocks 1 p).0) [
  | inl f ↦ let e' = rw f at e in cc
  | inr (b, f) ↦
      let e' = rw f at e in
      some-subst (λ x. length x.1 ≡ 4096) (b, set (bytes_at ram b 4096) 0 0) (a, bytes)
        (ap (λ x. x.0) e') (length-set (bytes_at ram b 4096) 0 0 ∙ length-bytes_at ram b 4096)
]

pub get_elem?-lt : (ns : List Vnode) (i : ℕ) (n : Vnode) → get_elem? ns i ≡ some n → i < length ns
get_elem?-lt [] i n e = cc
get_elem?-lt (x ∷ ns) zero n e = omega arith
get_elem?-lt (x ∷ ns) (suc i) n e = omega (arith, get_elem?-lt ns i n e)

-- The content of a node, if any, is as long as its size says, up to 63 bytes.
abbrev pub HasBytes : Vnode → Type 0
HasBytes n = (n.content ≡ none) ⊎ ((c : List ℕ) × (n.content ≡ some c) × (min63 n.size ≤ length c))

new_content_lem :
    (fs : Fs) (a : ℕ) (bytes : List ℕ) (q : Pmm)
    → alloc_z 64 fs.ram fs.pmm ≡ (some (a, bytes), q)
    → new_content fs ≡ (some (set bytes 0 0), record fs { pmm = q })
new_content_lem fs a bytes q got = rw (got)

pub ensure_lem :
    (fs : Fs) (i : ℕ) (n : Vnode) (a : ℕ) (bytes : List ℕ) (q : Pmm)
    → node fs i ≡ some n
    → is_file n ≡ true
    → HasBytes n
    → alloc_z 64 fs.ram fs.pmm ≡ (some (a, bytes), q)
    → (g : Fs) × (m : Vnode) × (c : List ℕ) × (ensure_writable_content fs i n ≡ some g)
      × (node g i ≡ some m)
      × (m.content ≡ some c)
      × (length c ≡ 4096)
      × (m.flags ≡ n.flags)
unfolding ensure_writable_content
ensure_lem fs i n a bytes q held file (inl absent) got =
    let page = alloc_z-length fs.ram fs.pmm q a bytes got in
    let lt = get_elem?-lt fs.pool i n held in
    let content = set bytes 0 0 in
    let m = record n { content = some content; size = 0 } in
    (
      put_node (record fs { pmm = q }) i m,
      m,
      content,
      rw (file, absent, new_content_lem fs a bytes q got, got),
      get_elem?-set_self fs.pool i m lt,
      refl,
      rw (length-set bytes 0 0) page,
      refl,
    )
ensure_lem fs i n a bytes q held file (inr (c, at, enough)) got =
    let page = alloc_z-length fs.ram fs.pmm q a bytes got in
    let lt = get_elem?-lt fs.pool i n held in
    let small : min63 n.size ≤ 63 = ground arith in
    let cp = memcpy_lem bytes c (min63 n.size) (omega arith) enough in
    let copy = take (min63 n.size) c ++ drop (min63 n.size) bytes in
    let m = record n { content = some (set copy (min63 n.size) 0) } in
    (
      put_node (record fs { pmm = q }) i m,
      m,
      set copy (min63 n.size) 0,
      rw (file, at, copy_content, got, cp, got),
      get_elem?-set_self fs.pool i m lt,
      refl,
      omega (
        arith,
        length-set copy (min63 n.size) 0,
        length-append (take (min63 n.size) c) (drop (min63 n.size) bytes),
        length-take_le (min63 n.size) c enough,
        length-drop_add (min63 n.size) bytes (omega arith),
        page,
      ),
      refl,
    )
