-- ===== src/Libc/Move.antt =====
-- memmove of lib/libc/string/memmove.c: both buffers lie in one memory, as offsets into it.
use myunixlikeos.Common.{
  ℕ, List, Option, none, some, zero, suc, ◌+◌, ◌-◌, ◌<◌, ◌≤◌, ◌≡◌, ◌&&◌, if◌then◌else◌, ltb, leb,
  arith, get_or, set, length, get_or-set, length-set, ◌∙◌, ◌||◌, Bool-cases, false, inl, inr, refl,
}

-- The loop that counts up, with `n` bytes left.
unfoldable pub move_up : (n d s : ℕ) → List ℕ → List ℕ
move_up zero d s m = m
move_up (suc n) d s m = move_up n (d + 1) (s + 1) (set m d (get_or m s 0))

-- The loop that counts down from `n`.
unfoldable pub move_down : (n d s : ℕ) → List ℕ → List ℕ
move_down zero d s m = m
move_down (suc n) d s m = move_down n d s (set m (d + n) (get_or m (s + n) 0))

-- `none` is an access outside the memory.
unfoldable pub memmove : (d s n : ℕ) → List ℕ → Option (List ℕ)
unfolding move_up move_down
memmove d s n m =
    if ltb (length m) (d + n) || ltb (length m) (s + n)
    then none
    else some (if ltb d s then move_up n d s m else if ltb s d then move_down n d s m else m)

-- What stands at `k` after `n` bytes from `s` have come to `d`.
abbrev pub moved_byte : (n d s : ℕ) → List ℕ → ℕ → ℕ
moved_byte n d s m k = if leb d k && ltb k (d + n) then get_or m (s + (k - d)) 0 else get_or m k 0

move_up-moved_byte :
    (n d s : ℕ) (m : List ℕ) (k : ℕ)
    → d < s
    → s + n ≤ length m
    → get_or (move_up n d s m) k 0 ≡ moved_byte n d s m k
unfolding move_up
move_up-moved_byte zero d s m k h fits = ground arith
move_up-moved_byte (suc n) d s m k h fits =
    let b = get_or m s 0 in
    let m' = set m d b in
    let rest =
      move_up-moved_byte n (d + 1) (s + 1) m' k (omega arith) (omega (arith, length-set m d b)) in
    rest
    ∙ ground (
      arith,
      get_or-set m d k b 0 (omega arith),
      get_or-set m d (s + 1 + (k - (d + 1))) b 0 (omega arith),
    )

move_down-moved_byte :
    (n d s : ℕ) (m : List ℕ) (k : ℕ)
    → s < d
    → d + n ≤ length m
    → get_or (move_down n d s m) k 0 ≡ moved_byte n d s m k
unfolding move_down
move_down-moved_byte zero d s m k h fits = ground arith
move_down-moved_byte (suc n) d s m k h fits =
    let b = get_or m (s + n) 0 in
    let m' = set m (d + n) b in
    let rest = move_down-moved_byte n d s m' k h (omega (arith, length-set m (d + n) b)) in
    rest
    ∙ ground (
      arith,
      get_or-set m (d + n) k b 0 (omega arith),
      get_or-set m (d + n) (s + (k - d)) b 0 (omega arith),
    )

-- `memmove` of buffers that lie in the memory, however they overlap: afterwards the target holds the
-- bytes that the source held before, and every other byte is as it was.
pub memmove_lem :
    (d s n : ℕ) (m : List ℕ)
    → d + n ≤ length m
    → s + n ≤ length m
    → (m' : List ℕ) × (memmove d s n m ≡ some m') × ((k : ℕ) → get_or m' k 0 ≡ moved_byte n d s m k)
unfolding memmove
memmove_lem d s n m h j =
    let inside : (ltb (length m) (d + n) || ltb (length m) (s + n)) ≡ false = ground arith in
    elim (Bool-cases (ltb d s)) [
      | inl up ↦
          rw (inside, up)
            (move_up n d s m, refl, λ k. move_up-moved_byte n d s m k (ground arith) j)
      | inr not_up ↦ elim (Bool-cases (ltb s d)) [
        | inl down ↦
            rw (inside, not_up, down)
              (move_down n d s m, refl, λ k. move_down-moved_byte n d s m k (ground arith) h)
        | inr same ↦ rw (inside, not_up, same) (m, refl, λ k. ground arith)
      ]
    ]

move_up-length : (n d s : ℕ) (m : List ℕ) → length (move_up n d s m) ≡ length m
unfolding move_up
move_up-length zero d s m = refl
move_up-length (suc n) d s m =
    move_up-length n (d + 1) (s + 1) (set m d (get_or m s 0)) ∙ length-set m d (get_or m s 0)

move_down-length : (n d s : ℕ) (m : List ℕ) → length (move_down n d s m) ≡ length m
unfolding move_down
move_down-length zero d s m = refl
move_down-length (suc n) d s m =
    move_down-length n d s (set m (d + n) (get_or m (s + n) 0))
    ∙ length-set m (d + n) (get_or m (s + n) 0)

pub memmove-length : (d s n : ℕ) (m m' : List ℕ) → memmove d s n m ≡ some m' → length m' ≡ length m
unfolding memmove
memmove-length d s n m m' e = ground (arith, move_up-length n d s m, move_down-length n d s m)
