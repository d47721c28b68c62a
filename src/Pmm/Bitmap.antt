-- ===== src/Pmm/Bitmap.antt =====
-- `bitmap_set`, `bitmap_clear` and `bitmap_test` of kernel/kernel.c as updates of a set of pages.
use myunixlikeos.Common.{
  ℕ, ◌*◌, ◌/◌, ◌%◌, ◌≤◌, ◌<◌, ◌≡◌, arith, length, get_or, get_or-set, length-set, AllBelow,
  AllBelow-get_or, AllBelow-set, ◌==◌, if◌then◌else◌,
}
use myunixlikeos.Common.Bytes.{
  set_bit, clear_bit, set_bit-lt, clear_bit-lt, bit_at-set_bit, bit_at-clear_bit,
}
use myunixlikeos.Pmm.{Pmm, bitmap_set, bitmap_clear, bitmap_test}

-- The bytes of the bitmap stand for exactly `8 * bitmap_size` bits, and cover every page.
pub record IsBitmap (p : Pmm) : Type 0 where
  pub bytes : AllBelow 256 p.bitmap
  pub sized : length p.bitmap ≡ p.bitmap_size
  pub covers : p.total_pages ≤ 8 * p.bitmap_size

module _ {p : Pmm} (v : IsBitmap p) (i : ℕ) where
  pub bitmap_test-bitmap_set :
      (j : ℕ)
      → i / 8 < p.bitmap_size
      → bitmap_test (bitmap_set p i) j ≡ (if i == j then 1 else bitmap_test p j)
  unfolding bitmap_test bitmap_set
  bitmap_test-bitmap_set j h =
      let b = get_or p.bitmap (i / 8) 0 in
      ground (
        arith,
        get_or-set p.bitmap (i / 8) (j / 8) (set_bit b (i % 8)) 0,
        bit_at-set_bit b (i % 8) (AllBelow-get_or 256 p.bitmap (i / 8) (omega arith) v.bytes)
            (omega arith) (j % 8) (omega arith),
      )

  pub bitmap_test-bitmap_clear :
      (j : ℕ)
      → i / 8 < p.bitmap_size
      → bitmap_test (bitmap_clear p i) j ≡ (if i == j then 0 else bitmap_test p j)
  unfolding bitmap_test bitmap_clear
  bitmap_test-bitmap_clear j h =
      let b = get_or p.bitmap (i / 8) 0 in
      ground (
        arith,
        get_or-set p.bitmap (i / 8) (j / 8) (clear_bit b (i % 8)) 0,
        bit_at-clear_bit b (i % 8) (AllBelow-get_or 256 p.bitmap (i / 8) (omega arith) v.bytes)
            (omega arith) (j % 8) (omega arith),
      )

  pub bitmap_set-IsBitmap : IsBitmap (bitmap_set p i)
  unfolding bitmap_set
  bitmap_set-IsBitmap =
      let b = get_or p.bitmap (i / 8) 0 in
      let c = set_bit b (i % 8) in
      ground (
        arith,
        length-set p.bitmap (i / 8) c,
        AllBelow-set 256 p.bitmap (i / 8) c
            (set_bit-lt b (i % 8) (AllBelow-get_or 256 p.bitmap (i / 8) (omega arith) v.bytes)
              (omega arith))
            v.bytes,
      )

  pub bitmap_clear-IsBitmap : IsBitmap (bitmap_clear p i)
  unfolding bitmap_clear
  bitmap_clear-IsBitmap =
      let b = get_or p.bitmap (i / 8) 0 in
      let c = clear_bit b (i % 8) in
      ground (
        arith,
        length-set p.bitmap (i / 8) c,
        AllBelow-set 256 p.bitmap (i / 8) c
            (clear_bit-lt b (i % 8) (AllBelow-get_or 256 p.bitmap (i / 8) (omega arith) v.bytes)
              (omega arith))
            v.bytes,
      )
