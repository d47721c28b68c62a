-- ===== src/Common/Bytes.antt =====
-- Single bits of a byte, as `|=`, `&= ~` and `>> & 1` read and write them.
use myunixlikeos.Common.{
  ℕ, zero, suc, ◌-◌, ◌/◌, ◌^◌, ◌<◌, ◌≡◌, refl, Bool, true, ◌&&◌, arith, bit_and, bit_or, ltb, ◌==◌,
  if◌then◌else◌, ==_iff,
}

-- `b | (1 << k)`, `b & ~(1 << k)` and `(b >> k) & 1` on a `uint8_t`.
unfoldable pub set_bit : ℕ → ℕ → ℕ
set_bit b k = bit_or b (2 ^ k)

unfoldable pub clear_bit : ℕ → ℕ → ℕ
clear_bit b k = bit_and b (255 - 2 ^ k)

unfoldable pub bit_at : ℕ → ℕ → ℕ
bit_at b k = bit_and (b / 2 ^ k) 1

-- Over a small range, check every value by evaluation.
unfoldable pub every_less : ℕ → (ℕ → Bool) → Bool
every_less zero test = true
every_less (suc m) test = every_less m test && test m

pub every_less_sound :
    (m : ℕ) (test : ℕ → Bool) (a : ℕ) → every_less m test ≡ true → a < m → test a ≡ true
unfolding every_less
every_less_sound zero test a t h = absurd (omega arith)
every_less_sound (suc m) test a t h = ground (arith, every_less_sound m test a)

abbrev byte_bit : (ℕ → ℕ → Bool) → ℕ → Bool
byte_bit p b = every_less 8 (p b)

byte_bit_sound :
    (p : ℕ → ℕ → Bool)
    → every_less 256 (byte_bit p) ≡ true
    → (b k : ℕ) → b < 256
    → k < 8
    → p b k ≡ true
byte_bit_sound p t b k hb hk =
    every_less_sound 8 (p b) k (every_less_sound 256 (byte_bit p) b t hb) hk

abbrev set_law : ℕ → ℕ → Bool
set_law b k =
    ltb (set_bit b k) 256
    && every_less 8 (λ j. bit_at (set_bit b k) j == (if k == j then 1 else bit_at b j))

set_table : every_less 256 (byte_bit set_law) ≡ true
unfolding every_less set_bit bit_at
set_table = refl

abbrev clear_law : ℕ → ℕ → Bool
clear_law b k =
    ltb (clear_bit b k) 256
    && every_less 8 (λ j. bit_at (clear_bit b k) j == (if k == j then 0 else bit_at b j))

clear_table : every_less 256 (byte_bit clear_law) ≡ true
unfolding every_less clear_bit bit_at
clear_table = refl

module _ (b k : ℕ) (hb : b < 256) (hk : k < 8) where
  pub set_bit-lt : set_bit b k < 256
  set_bit-lt = ground (arith, byte_bit_sound set_law set_table b k hb hk)

  pub bit_at-set_bit : (j : ℕ) → j < 8 → bit_at (set_bit b k) j ≡ (if k == j then 1 else bit_at b j)
  bit_at-set_bit j hj = (==_iff _ _).0 (
      every_less_sound 8 (λ j. bit_at (set_bit b k) j == (if k == j then 1 else bit_at b j)) j
        (ground (arith, byte_bit_sound set_law set_table b k hb hk)) hj)

  pub clear_bit-lt : clear_bit b k < 256
  clear_bit-lt = ground (arith, byte_bit_sound clear_law clear_table b k hb hk)

  pub bit_at-clear_bit :
      (j : ℕ) → j < 8 → bit_at (clear_bit b k) j ≡ (if k == j then 0 else bit_at b j)
  bit_at-clear_bit j hj = (==_iff _ _).0 (
      every_less_sound 8 (λ j. bit_at (clear_bit b k) j == (if k == j then 0 else bit_at b j)) j
        (ground (arith, byte_bit_sound clear_law clear_table b k hb hk)) hj)
