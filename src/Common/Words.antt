-- ===== src/Common/Words.antt =====
-- `&` and `|` on words, as far as page table entries need them: with a mask of high bits, with a
-- single low bit, and of fields that do not overlap.
use native.Mathlib.Nat.{pow-succ', div-div-eq-div-mul, pow-suc, one-le-pow}
use Prim.Native.Nat.{bit_and-bitwise, bit_or-bitwise, bitwise, digits, max}
use myunixlikeos.Common.{
  ℕ, zero, suc, ◌+◌, ◌*◌, ◌/◌, ◌%◌, ◌≤◌, ◌≡◌, min, bit_and, bit_or, refl, arith, ap, sym, ◌-◌, ◌<◌,
  ◌^◌,
}

-- More rounds than digits change nothing.
module _ (rest : ℕ → ℕ) (op : ℕ → ℕ → ℕ) where
  enough_rounds : (a b m n : ℕ) → a ≤ m → a ≤ n → digits rest op m a b ≡ digits rest op n a b
  enough_rounds zero b zero zero h k = refl
  enough_rounds zero b zero (suc n) h k = refl
  enough_rounds zero b (suc m) zero h k = refl
  enough_rounds zero b (suc m) (suc n) h k = refl
  enough_rounds (suc a) b zero n h k = absurd (omega arith)
  enough_rounds (suc a) b (suc m) zero h k = absurd (omega arith)
  enough_rounds (suc a) b (suc m) (suc n) h k =
      rw (enough_rounds (suc a / 2) (b / 2) m n (omega arith) (omega arith))

  last_digit :
      (a b : ℕ)
      → bitwise rest op (suc a) b ≡ bitwise rest op (suc a / 2) (b / 2) * 2 + op (suc a % 2) (b % 2)
  last_digit a b =
      omega (arith, enough_rounds (suc a / 2) (b / 2) a (suc a / 2) (omega arith) (omega arith))

and_last : (a b : ℕ) → bit_and a b ≡ bit_and (a / 2) (b / 2) * 2 + min (a % 2) (b % 2)
and_last zero b = omega (arith, bit_and-bitwise 0 b, bit_and-bitwise 0 (b / 2))
and_last (suc a) b = simp bit_and-bitwise (last_digit (λ y. 0) min a b)

or_last : (a b : ℕ) → bit_or a b ≡ bit_or (a / 2) (b / 2) * 2 + max (a % 2) (b % 2)
or_last zero b = omega (arith, bit_or-bitwise 0 b, bit_or-bitwise 0 (b / 2))
or_last (suc a) b = simp bit_or-bitwise (last_digit (λ y. y) max a b)

halves : (a k : ℕ) → a / 2 ^ suc k ≡ a / 2 / 2 ^ k
halves a k = rw (pow-succ' 2 k) (sym (div-div-eq-div-mul a 2 (2 ^ k)))

doubled : (m k : ℕ) → m * 2 ^ suc k ≡ m * 2 ^ k * 2
doubled m k = omega (arith, ap (λ (t : ℕ). m * t) (pow-suc 2 k))

-- Zeros at the end of the mask cut the digits off.
and_shifted : (k a m : ℕ) → bit_and a (m * 2 ^ k) ≡ bit_and (a / 2 ^ k) m * 2 ^ k
and_shifted zero a m =
    let one : m * 1 ≡ m = omega arith in
    let same : a / 1 ≡ a = omega arith in rw (one, same) (omega arith)
and_shifted (suc k) a m =
    let half : m * 2 ^ suc k / 2 ≡ m * 2 ^ k = omega (arith, doubled m k) in
    let last = rw half at (and_last a (m * 2 ^ suc k)) in
    rw (halves a k) (
      omega
        (arith, last, and_shifted k (a / 2) m, doubled m k, doubled (bit_and (a / 2 / 2 ^ k) m) k))

and_zero : (a : ℕ) → a < 1 → bit_and a 0 ≡ a
and_zero zero h = refl
and_zero (suc a) h = absurd (omega arith)

-- A mask of ones keeps a word that fits.
and_ones : (k a : ℕ) → a < 2 ^ k → bit_and a (2 ^ k - 1) ≡ a
and_ones zero a h = and_zero a h
and_ones (suc k) a h =
    ground (arith, pow-suc 2 k, and_last a (2 ^ suc k - 1), one-le-pow k 2, and_ones k (a / 2))

or_none : (a : ℕ) → a < 1 → bit_or a 0 ≡ a
or_none zero h = refl
or_none (suc a) h = absurd (omega arith)

or_zero : (k a : ℕ) → a < 2 ^ k → bit_or a 0 ≡ a
or_zero zero a h = or_none a h
or_zero (suc k) a h = ground (arith, pow-suc 2 k, or_last a 0, or_zero k (a / 2))

or_shifted : (k q f : ℕ) → f < 2 ^ k → bit_or (q * 2 ^ k) f ≡ bit_or q 0 * 2 ^ k + f
or_shifted zero q f h =
    let none_left : f ≡ 0 = omega arith in
    let one : q * 1 ≡ q = omega arith in rw (none_left, one) (omega arith)
or_shifted (suc k) q f h =
    let half : q * 2 ^ suc k / 2 ≡ q * 2 ^ k = omega (arith, doubled q k) in
    let last = rw half at (or_last (q * 2 ^ suc k) f) in
    omega (
      arith,
      last,
      or_shifted k q (f / 2) (omega (arith, pow-suc 2 k)),
      doubled q k,
      doubled (bit_or q 0) k,
    )

-- What page table entries are made of: the address of a page and flags below 4096.
pub high_part : (e : ℕ) → e < 2 ^ 32 → bit_and e 0xfffff000 ≡ e / 4096 * 4096
high_part e h = omega (arith, and_shifted 12 e 0xfffff, and_ones 20 (e / 4096) (omega arith))

pub with_flags : (a f : ℕ) → a < 2 ^ 32 → f < 4096 → a % 4096 ≡ 0 → bit_or a f ≡ a + f
with_flags a f h k aligned =
    let q : a / 4096 * 4096 ≡ a = omega arith in
    let sum : bit_or (a / 4096 * 4096) f ≡ a / 4096 * 4096 + f =
      omega (arith, or_shifted 12 (a / 4096) f k, or_zero 20 (a / 4096) (omega arith)) in
    rw q at sum

pub low_bit : (a : ℕ) → a < 2 ^ 32 → bit_and a 1 ≡ a % 2
low_bit a h =
    let none_left : a / 2 / 2 ^ 32 ≡ 0 = omega arith in
    let rest = rw none_left at (and_shifted 32 (a / 2) 0) in
    omega (arith, and_last a 1, rest, and_zero 0 (omega arith))

-- A mask of ones cuts a word.
and_nothing : (a : ℕ) → a < 2 ^ 32 → bit_and a 0 ≡ 0
and_nothing a h =
    let none_left : a / 2 ^ 32 ≡ 0 = omega arith in
    let rest = rw none_left at (and_shifted 32 a 0) in omega (arith, rest, and_zero 0 (omega arith))

and_rest : (k q r : ℕ) → q < 2 ^ 32 → r < 2 ^ k → bit_and (q * 2 ^ k + r) (2 ^ k - 1) ≡ r
and_rest zero q r h j =
    let only : q * 1 + r ≡ q = omega arith in
    let nil : r ≡ 0 = omega arith in rw (only, nil) (and_nothing q h)
and_rest (suc k) q r h j =
    let half : (q * 2 ^ suc k + r) / 2 ≡ q * 2 ^ k + r / 2 = omega (arith, doubled q k) in
    let mask : (2 ^ suc k - 1) / 2 ≡ 2 ^ k - 1 = omega (arith, pow-suc 2 k) in
    let last = rw (half, mask) at (and_last (q * 2 ^ suc k + r) (2 ^ suc k - 1)) in
    let rest = and_rest k q (r / 2) h (omega (arith, pow-suc 2 k)) in
    omega (arith, last, rest, doubled q k, pow-suc 2 k, one-le-pow k 2)

pub low_ten : (a : ℕ) → a < 2 ^ 32 → bit_and a 0x3ff ≡ a % 1024
low_ten a h =
    let parts : a / 1024 * 1024 + a % 1024 ≡ a = omega arith in
    rw parts at (and_rest 10 (a / 1024) (a % 1024) (omega arith) (omega arith))

pub low_twelve : (a : ℕ) → a < 2 ^ 32 → bit_and a 0xfff ≡ a % 4096
low_twelve a h =
    let parts : a / 4096 * 4096 + a % 4096 ≡ a = omega arith in
    rw parts at (and_rest 12 (a / 4096) (a % 4096) (omega arith) (omega arith))

-- The flags above the lowest three.
pub high_flags : (f : ℕ) → f < 2 ^ 32 → bit_and f 0xfffffff8 ≡ f / 8 * 8
high_flags f h = omega (arith, and_shifted 3 f 0x1fffffff, and_ones 29 (f / 8) (omega arith))
