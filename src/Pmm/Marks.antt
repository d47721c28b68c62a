-- ===== src/Pmm/Marks.antt =====
-- One page taken or given back, with the counter, in the allocator of kernel/kernel.c.
use myunixlikeos.Pmm.Bitmap.{
  IsBitmap, bitmap_set-IsBitmap, bitmap_test-bitmap_set, bitmap_clear-IsBitmap,
  bitmap_test-bitmap_clear,
}
use myunixlikeos.Pmm.{
  Pmm, bitmap_set, bitmap_test, bitmap_clear, dec_available, add_word, release, sub_word,
}
use myunixlikeos.Pmm.Count.{
  Marks, IsValid, free_count, free_count_taken, free_count-le, free_count_freed,
}
use myunixlikeos.Common.{
  ℕ, arith, ◌+◌, ◌<◌, ◌≡◌, refl, suc, zero, ◌∙◌, false, ◌/◌, ◌==◌, ◌≢◌, ap, sym,
}

-- What `q` is, if it is `p` with the page `i` taken.
pub record Took (p : Pmm) (i : ℕ) (q : Pmm) : Type 0 where
  pub in_range : i < p.total_pages
  pub was_free : bitmap_test p i ≡ 0
  pub marks : Marks p i 1 q
  pub valid : IsValid q
  pub one_less : q.available + 1 ≡ p.available
  pub same_start : q.memory_start ≡ p.memory_start
  pub same_total : q.total_pages ≡ p.total_pages

-- What `q` is, if it is `p` with the page `i` given back.
pub record Freed (p : Pmm) (i : ℕ) (q : Pmm) : Type 0 where
  pub in_range : i < p.total_pages
  pub was_taken : bitmap_test p i ≢ 0
  pub marks : Marks p i 0 q
  pub valid : IsValid q
  pub one_more : q.available ≡ p.available + 1
  pub same_start : q.memory_start ≡ p.memory_start
  pub same_total : q.total_pages ≡ p.total_pages

-- Only the bytes of the bitmap change.
pub record SameShape (p q : Pmm) : Type 0 where
  pub start : q.memory_start ≡ p.memory_start
  pub total : q.total_pages ≡ p.total_pages
  pub size : q.bitmap_size ≡ p.bitmap_size

pub bitmap_set-SameShape :
    (p : Pmm) (i : ℕ) → SameShape p (bitmap_set p i) × ((bitmap_set p i).available ≡ p.available)
unfolding bitmap_set
bitmap_set-SameShape p i = ground arith

pub bitmap_clear-SameShape :
    (p : Pmm) (i : ℕ)
    → SameShape p (bitmap_clear p i) × ((bitmap_clear p i).available ≡ p.available)
unfolding bitmap_clear
bitmap_clear-SameShape p i = ground arith

-- A change of the counter alone.
pub free_count_of_available :
    (p : Pmm) (a n : ℕ) → free_count (record p { available = a }) n ≡ free_count p n
unfolding free_count bitmap_test
free_count_of_available p a zero = refl
free_count_of_available p a (suc n) = ground (arith, free_count_of_available p a n)

pub bitmap_test_of_available :
    (p : Pmm) (a j : ℕ) → bitmap_test (record p { available = a }) j ≡ bitmap_test p j
unfolding bitmap_test
bitmap_test_of_available p a j = refl

pub IsBitmap-of_available : (p : Pmm) (a : ℕ) → IsBitmap p → IsBitmap (record p { available = a })
IsBitmap-of_available p a v = record { bytes = v.bytes; sized = v.sized; covers = v.covers }

module _ {p : Pmm} (v : IsValid p) where
  -- What keeps the shape keeps the invariant, if its counter is right.
  pub IsValid-of_shape :
      {q : Pmm} → IsBitmap q → SameShape p q → q.available ≡ free_count q p.total_pages → IsValid q
  IsValid-of_shape {q} b s c = record {
    is_bitmap = b;
    not_null = omega (arith, s.start, v.not_null);
    fits = rw (s.start, s.total) v.fits;
    counted = c ∙ ap (free_count q) (sym s.total);
  }

  module _ (i : ℕ) (h : i < p.total_pages) where
    in_bitmap : i / 8 < p.bitmap_size
    in_bitmap = omega (arith, v.is_bitmap.covers)

    pub take-Took : bitmap_test p i ≡ 0 → Took p i (dec_available (bitmap_set p i))
    take-Took f =
        let q = bitmap_set p i in
        let m : Marks p i 1 q = λ j. bitmap_test-bitmap_set v.is_bitmap i j in_bitmap in
        let (s, e) = bitmap_set-SameShape p i in
        let c = free_count_taken p q i 1 p.total_pages h f (omega arith) m in
        let le = free_count-le p p.total_pages in
        let d = free_count_of_available q (sub_word q.available 1) p.total_pages in
        let b =
          IsBitmap-of_available q (sub_word q.available 1) (bitmap_set-IsBitmap v.is_bitmap i) in
        record {
          in_range = h;
          was_free = f;
          marks = λ j. bitmap_test_of_available q _ j ∙ m j;
          valid =
              IsValid-of_shape b (record { start = s.start; total = s.total; size = s.size })
                (omega (arith, v.counted, v.fits, v.not_null, d, c, le, e));
          one_less = omega (arith, v.counted, v.fits, v.not_null, c, le, e);
          same_start = s.start;
          same_total = s.total;
        }

    pub release-Freed : bitmap_test p i ≢ 0 → Freed p i (release p i)
    unfolding release
    release-Freed ne =
        let q = bitmap_clear p i in
        let m : Marks p i 0 q = λ j. bitmap_test-bitmap_clear v.is_bitmap i j in_bitmap in
        let (s, e) = bitmap_clear-SameShape p i in
        let c = free_count_freed p q i p.total_pages h ne m in
        let le = free_count-le q p.total_pages in
        let d = free_count_of_available q (add_word q.available 1) p.total_pages in
        let b =
          IsBitmap-of_available q (add_word q.available 1) (bitmap_clear-IsBitmap v.is_bitmap i) in
        let t : (bitmap_test p i == 0) ≡ false = ground arith in
        rw t (record {
          in_range = h;
          was_taken = ne;
          marks = λ j. bitmap_test_of_available q _ j ∙ m j;
          valid =
              IsValid-of_shape b (record { start = s.start; total = s.total; size = s.size })
                (omega (arith, v.counted, v.fits, v.not_null, d, c, le, e));
          one_more = omega (arith, v.counted, v.fits, v.not_null, c, le, e);
          same_start = s.start;
          same_total = s.total;
        })

pub release_free : (p : Pmm) (i : ℕ) → bitmap_test p i ≡ 0 → release p i ≡ p
unfolding release
release_free p i f = ground arith
