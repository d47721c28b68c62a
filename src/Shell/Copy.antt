-- ===== src/Shell/Copy.antt =====
-- The copies of strings into the arrays of bin/sh/sh.c.
use myunixlikeos.Shell.{copy_string}
use myunixlikeos.Common.{
  ℕ, List, [], some, suc, zero, ◌∷◌, set, length, take, ◌≡◌, arith, refl, AllBelow, AllBelow-set,
  Bool-cases, ap, inl, inr, length-set, ◌-◌, ◌<◌, ◌==◌,
}
use myunixlikeos.Libc.Str.{strncpy, strncpy_fill}
use myunixlikeos.Libc.StrLaws.{c_str}

-- A copy into an array of `n + 1` bytes.
record Copied (n : ℕ) (s d : List ℕ) : Type 0 where
  chars : c_str (set d n 0) ≡ take n (c_str s)
  sized : length d ≡ suc n
  bytes : AllBelow 256 d

filled :
    (n : ℕ) (dst : List ℕ)
    → length dst ≡ suc n
    → AllBelow 256 dst
    → (d : List ℕ) × (strncpy_fill n dst ≡ some d) × (length d ≡ suc n) × AllBelow 256 d
unfolding strncpy_fill
filled zero dst e b = (dst, refl, e, b)
filled (suc n) [] e b = absurd (omega arith)
filled (suc n) (x ∷ dst) e b =
    let (d, run, len, below) = filled n dst (omega (arith, e)) b.1 in
    (0 ∷ d, rw run refl, omega (arith, len), (omega arith, below))

strncpy-Copied :
    (n : ℕ) (s dst : List ℕ)
    → length dst ≡ suc n
    → AllBelow 256 dst
    → AllBelow 256 s
    → (d : List ℕ) × (strncpy dst s n ≡ some d) × Copied n s d
unfolding strncpy c_str
strncpy-Copied zero s [] e b k = absurd (omega arith)
strncpy-Copied zero s (x ∷ dst) e b k =
    (x ∷ dst, refl, record { chars = refl; sized = e; bytes = b })
strncpy-Copied (suc n) s [] e b k = absurd (omega arith)
strncpy-Copied (suc n) [] (x ∷ dst) e b k =
    let (d, run, len, below) = filled n dst (omega (arith, e)) b.1 in
    (
      0 ∷ d,
      rw run refl,
      record { chars = refl; sized = omega (arith, len); bytes = (omega arith, below) },
    )
strncpy-Copied (suc n) (c ∷ s) (x ∷ dst) e b k = elim (Bool-cases (c == 0)) [
  | inl ends ↦
      let (d, run, len, below) = filled n dst (omega (arith, e)) b.1 in
      rw ends (
        0 ∷ d,
        rw run refl,
        record { chars = rw ends refl; sized = omega (arith, len); bytes = (omega arith, below) },
      )
  | inr goes ↦
      let (d, run, m) = strncpy-Copied n s dst (omega (arith, e)) b.1 k.1 in
      rw goes (
        c ∷ d,
        rw run refl,
        record {
          chars = rw goes (ap (λ t. c ∷ t) m.chars);
          sized = omega (arith, m.sized);
          bytes = (k.0, m.bytes);
        },
      )
]

-- A string in an array of `size` bytes: its first `size - 1` characters, with a terminator.
pub record Held (size : ℕ) (s d : List ℕ) : Type 0 where
  pub chars : c_str d ≡ take (size - 1) (c_str s)
  pub sized : length d ≡ size
  pub bytes : AllBelow 256 d

pub copy_string-Held :
    (size : ℕ) (s dst : List ℕ)
    → 0 < size
    → length dst ≡ size
    → AllBelow 256 dst
    → AllBelow 256 s
    → (d : List ℕ) × (copy_string size s dst ≡ some d) × Held size s d
unfolding copy_string
copy_string-Held size s dst h e b k =
    let (d, run, m) = strncpy-Copied (size - 1) s dst (omega (arith, e)) b k in
    (
      set d (size - 1) 0,
      rw run refl,
      record {
        chars = m.chars;
        sized = omega (arith, m.sized, length-set d (size - 1) 0);
        bytes = AllBelow-set 256 d (size - 1) 0 (omega arith) m.bytes;
      },
    )
