-- ===== src/Libc/StrLaws.antt =====
-- What the functions of lib/libc/string do to the string that a buffer holds.
use native.Mathlib.Numerals.{towards_suc}
use myunixlikeos.Common.{
  set, ◌<◌, ℕ, AllBelow, List, [], arith, drop, if◌then◌else◌, length, none, refl, some, true, ◌++◌,
  ◌<◌, ◌==◌, ◌↔◌, ◌∷◌, ◌≡◌, ◌≤◌, Bool-cases, inl, inr, replicate, suc, take, zero, ◌%◌, ◌+◌, ◌-◌,
  false,
}
use myunixlikeos.Common.Int.{pos}
use myunixlikeos.Libc.Str.{
  strlen, str_eq, strcmp, strcpy, memcpy, memset, strcat, strncmp, strncpy, strcat_copy,
  strncmp_loop, strncpy_fill,
}

-- The string that starts at a pointer: the bytes before the terminator.
unfoldable pub c_str : List ℕ → List ℕ
c_str [] = []
c_str (c ∷ s) = if c == 0 then [] else c ∷ c_str s

-- `strlen` counts the characters of the string.
pub strlen-c_str : (s : List ℕ) → strlen s ≡ length (c_str s)
unfolding strlen c_str
strlen-c_str [] = refl
strlen-c_str (c ∷ s) = ground (arith, strlen-c_str s)

-- `strcmp` is 0 exactly for equal strings, whatever stands behind the terminators.
pub strcmp_iff :
    (s t : List ℕ) → AllBelow 256 s → AllBelow 256 t → (strcmp s t ≡ pos 0) ↔ (c_str s ≡ c_str t)
unfolding strcmp c_str
strcmp_iff [] [] hs ht = (λ e. refl, λ e. refl)
strcmp_iff [] (b ∷ t) hs ht = ground (arith, ht.0)
strcmp_iff (a ∷ s) [] hs ht = ground (arith, hs.0)
strcmp_iff (a ∷ s) (b ∷ t) hs ht = ground (arith, hs.0, ht.0, strcmp_iff s t hs.1 ht.1)

pub str_eq_iff :
    (s t : List ℕ) → AllBelow 256 s → AllBelow 256 t → (str_eq s t ≡ true) ↔ (c_str s ≡ c_str t)
unfolding str_eq
str_eq_iff s t hs ht = ground (arith, strcmp_iff s t hs ht)

-- `strcpy` writes the characters of the source over the start of the target and keeps the rest of
-- the target, also the byte behind the copy; it writes past the end exactly when the target is
-- shorter than the string.
pub strcpy_lem :
    (dst s : List ℕ)
    → (strlen s ≤ length dst → strcpy dst s ≡ some (c_str s ++ drop (strlen s) dst))
      × (length dst < strlen s → strcpy dst s ≡ none)
unfolding strcpy strlen c_str
strcpy_lem dst [] = (λ h. refl, λ h. absurd (omega arith))
strcpy_lem [] (c ∷ s) = ground arith
strcpy_lem (d ∷ dst) (c ∷ s) = ground (arith, strcpy_lem dst s)

pub memcpy_lem :
    (dst src : List ℕ) (n : ℕ)
    → n ≤ length dst
    → n ≤ length src
    → memcpy dst src n ≡ some (take n src ++ drop n dst)
unfolding memcpy
memcpy_lem dst src zero h k = refl
memcpy_lem [] src (suc n) h k = absurd (omega arith)
memcpy_lem (d ∷ dst) [] (suc n) h k = absurd (omega arith)
memcpy_lem (d ∷ dst) (s ∷ src) (suc n) h k = rw (memcpy_lem dst src n (omega arith) (omega arith))

-- Of a buffer, `memset` fills the first byte only, whatever the count is.
pub memset_lem :
    (dst : List ℕ) (c n : ℕ) → 0 < n → 0 < length dst → memset dst c n ≡ some (set dst 0 (c % 256))
unfolding memset
memset_lem dst c zero h k = absurd (omega arith)
memset_lem [] c (suc n) h k = absurd (omega arith)
memset_lem (d ∷ dst) c (suc zero) h k = refl
memset_lem (d ∷ dst) c (suc (suc n)) h k =
    memset_lem (c % 256 ∷ dst) c (suc n) (omega arith) (omega arith)

fill_lem :
    (n : ℕ) (dst : List ℕ)
    → n ≤ length dst
    → strncpy_fill n dst ≡ some (replicate n 0 ++ drop n dst)
unfolding strncpy_fill
fill_lem zero dst h = refl
fill_lem (suc n) [] h = absurd (omega arith)
fill_lem (suc n) (d ∷ dst) h = rw (fill_lem n dst (omega arith))

zero-sub : (n : ℕ) → 0 - n ≡ 0
zero-sub n = omega arith

sub-zero : (n : ℕ) → n - 0 ≡ n
sub-zero n = omega arith

sub-suc-suc : (m n : ℕ) → suc m - suc n ≡ m - n
sub-suc-suc m n = omega arith

-- `strncpy` writes exactly `n` bytes: the first `n` characters of the source, then zeros; so the
-- copy is terminated only if the source has fewer than `n` characters.
pub strncpy_lem :
    (dst s : List ℕ) (n : ℕ)
    → n ≤ length dst
    → strncpy dst s n ≡ some (take n (c_str s) ++ (replicate (n - strlen s) 0 ++ drop n dst))
unfolding strncpy strlen c_str
strncpy_lem dst s zero h = rw (zero-sub (strlen s))
strncpy_lem dst [] (suc n) h = rw (sub-zero (suc n)) (fill_lem (suc n) dst h)
strncpy_lem [] (c ∷ s) (suc n) h = absurd (omega arith)
strncpy_lem (d ∷ dst) (c ∷ s) (suc n) h = elim (Bool-cases (c == 0)) [
  | inl z ↦ rw (z, sub-zero (suc n)) (fill_lem (suc n) (d ∷ dst) h)
  | inr nz ↦ rw (nz, strncpy_lem dst s n (omega arith), sub-suc-suc n (strlen s))
]

strcat_copy_lem :
    (dst s : List ℕ)
    → strlen s < length dst
    → strcat_copy dst s ≡ some (c_str s ++ (0 ∷ drop (suc (strlen s)) dst))
unfolding strcat_copy strlen c_str
strcat_copy_lem [] s h = absurd (omega arith)
strcat_copy_lem (d ∷ dst) [] h = refl
strcat_copy_lem (d ∷ dst) (c ∷ s) h = ground (arith, strcat_copy_lem dst s)

-- `strcat` appends the source string and the terminator, if both fit, and keeps what stands behind.
pub strcat_lem :
    (dst s : List ℕ)
    → strlen dst + strlen s < length dst
    → strcat dst s ≡ some (c_str dst ++ (c_str s ++ (0 ∷ drop (suc (strlen dst + strlen s)) dst)))
unfolding strcat strlen c_str
strcat_lem [] s h = absurd (omega arith)
strcat_lem (d ∷ dst) s h = ground (arith, strcat_lem dst s, strcat_copy_lem (d ∷ dst) s)

-- The first `n` bytes agree, as far as both strings go on.
abbrev pub Agree : ℕ → List ℕ → List ℕ → Type 0
Agree n s t = take n (c_str s) ≡ take n (c_str t)

strncmp_loop_iff : (n : ℕ) (s t : List ℕ) → (strncmp_loop n s t ≡ pos 0) ↔ Agree (suc n) s t
unfolding strncmp_loop c_str
strncmp_loop_iff zero [] [] = ground arith
strncmp_loop_iff zero [] (b ∷ t) = ground arith
strncmp_loop_iff zero (a ∷ s) [] = ground arith
strncmp_loop_iff zero (a ∷ s) (b ∷ t) = ground arith
strncmp_loop_iff (suc n) [] [] = ground arith
strncmp_loop_iff (suc n) [] (b ∷ t) = ground arith
strncmp_loop_iff (suc n) (a ∷ s) [] = ground arith
strncmp_loop_iff (suc n) (a ∷ s) (b ∷ t) = ground (arith, strncmp_loop_iff n s t)

-- `strncmp` with a bound of `n > 0` is 0 exactly when the first `n + 1` characters agree: one more
-- than the bound allows.
pub strncmp_iff : (n : ℕ) (s t : List ℕ) → 0 < n → (strncmp s t n ≡ pos 0) ↔ Agree (n + 1) s t
unfolding strncmp
strncmp_iff n s t h =
    let nz : (n == 0) ≡ false = ground arith in rw nz (simp towards_suc (strncmp_loop_iff n s t))

pub c_str-c_str_append : (s r : List ℕ) → c_str (c_str s ++ r) ≡ c_str s ++ c_str r
unfolding c_str
c_str-c_str_append [] r = refl
c_str-c_str_append (c ∷ s) r = ground (arith, c_str-c_str_append s r)

pub AllBelow-c_str : (s : List ℕ) → AllBelow 256 s → AllBelow 256 (c_str s)
unfolding c_str
AllBelow-c_str [] h = tt
AllBelow-c_str (c ∷ s) h = ground (arith, AllBelow-c_str s h.1)

pub length-c_str : (s : List ℕ) → length (c_str s) ≤ length s
unfolding c_str
length-c_str [] = omega arith
length-c_str (c ∷ s) = ground (arith, length-c_str s)
