-- ===== src/Pmm/Boot.antt =====
-- What `pmm_init` of kernel/kernel.c establishes.
use myunixlikeos.Pmm.Bitmap.{IsBitmap}
use myunixlikeos.Pmm.Blocks.{set_range-Marked}
use myunixlikeos.Pmm.Scan.{FreeRun}
use myunixlikeos.Pmm.Marks.{bitmap_test_of_available, IsBitmap-of_available}
use native.Mathlib.Numerals.{towards_suc}
use myunixlikeos.Common.Bytes.{bit_at, set_bit}
use myunixlikeos.Common.{
  ℕ, arith, refl, suc, zero, ◌+◌, ◌<◌, ◌∙◌, ◌≡◌, Bool-cases, ap, if◌then◌else◌, inl, inr, ◌==◌,
  dec_lt, min, ◌-◌, ◌↔◌, ◌≤◌,
}
use myunixlikeos.Pmm.{Pmm, word, bitmap_set, bitmap_test, set_range, sub_word, add_word}
use myunixlikeos.Pmm.Count.{IsValid, free_count, free_count-le, free_count-zero}
use myunixlikeos.Pmm.Init.{fallback, count_available, reserve_kernel, finish}

-- Without a memory map the allocator starts valid: its counter is the number of free pages.
pub fallback-IsValid : IsValid fallback
unfolding fallback bitmap_test free_count set_range bitmap_set set_bit bit_at
fallback-IsValid = record {
  is_bitmap = record { bytes = omega arith; sized = refl; covers = omega arith };
  not_null = omega arith;
  fits = omega arith;
  counted = refl;
}

abbrev with : Pmm → ℕ → Pmm
with p a = record p { available = a }

bitmap_set-with : (p : Pmm) (a i : ℕ) → bitmap_set (with p a) i ≡ with (bitmap_set p i) a
unfolding bitmap_set
bitmap_set-with p a i = ground arith

-- `n` decrements of a 32-bit number
unfoldable pub fall : ℕ → ℕ → ℕ
fall zero a = a
fall (suc n) a = fall n (sub_word a 1)

fall_lem : (n a : ℕ) → a < word → n < word → fall n a ≡ sub_word a n
unfolding fall
fall_lem zero a h k = omega arith
fall_lem (suc n) a h k = fall_lem n (sub_word a 1) (omega arith) (omega arith) ∙ omega arith

reserve_kernel-set_range :
    (n i a : ℕ) (p : Pmm) → reserve_kernel n i (with p a) ≡ with (set_range n i p) (fall n a)
unfolding reserve_kernel set_range fall
reserve_kernel-set_range zero i a p = refl
reserve_kernel-set_range (suc n) i a p =
    rw (bitmap_set-with p a i) (reserve_kernel-set_range n (i + 1) (sub_word a 1) (bitmap_set p i))

free_count-add_one :
    (p : Pmm) (i : ℕ)
    → free_count p (i + 1) ≡ (if bitmap_test p i == 0 then 1 else 0) + free_count p i
unfolding free_count
free_count-add_one p i = simp towards_suc

-- the free pages among the `n` from page `i` on, as the loop meets them
free_from : Pmm → ℕ → ℕ → ℕ
free_from p i zero = 0
free_from p i (suc n) = (if bitmap_test p i == 0 then 1 else 0) + free_from p (i + 1) n

free_from-free_count :
    (p : Pmm) (n i j : ℕ) → i + n ≡ j → free_from p i n + free_count p i ≡ free_count p j
unfolding free_from
free_from-free_count p zero i j e = let e' : i ≡ j = omega arith in rw e' (omega arith)
free_from-free_count p (suc n) i j e =
    omega (arith, free_from-free_count p n (i + 1) j (omega arith), free_count-add_one p i)

count_available-free_from :
    (n i a : ℕ) (p : Pmm)
    → a + free_from p i n < word
    → count_available n i (with p a) ≡ with p (a + free_from p i n)
unfolding count_available free_from
count_available-free_from zero i a p h = ap (with p) (omega arith)
count_available-free_from (suc n) i a p h = elim (Bool-cases (bitmap_test p i == 0)) [
  | inl f ↦
      let h' : a + (1 + free_from p (i + 1) n) < word = rw f at h in
      let e : add_word a 1 ≡ a + 1 = omega arith in
      rw (bitmap_test_of_available p a i, f, e)
        (count_available-free_from n (i + 1) (a + 1) p (omega arith) ∙ ap (with p) (omega arith))
  | inr u ↦
      let h' : a + (0 + free_from p (i + 1) n) < word = rw u at h in
      rw (bitmap_test_of_available p a i, u)
        (count_available-free_from n (i + 1) a p (omega arith) ∙ ap (with p) (omega arith))
]

free_from_eq :
    (p q : Pmm) (n i : ℕ)
    → ((j : ℕ) → i ≤ j → bitmap_test q j ≡ bitmap_test p j)
    → free_from q i n ≡ free_from p i n
unfolding free_from
free_from_eq p q zero i same = refl
free_from_eq p q (suc n) i same =
    rw (same i (omega arith), free_from_eq p q n (i + 1) (λ j h. same j (omega arith)))

-- Taking the pages below `k` removes those among them that were free.
free_count_below :
    (p q : Pmm) (k n : ℕ)
    → k ≤ n
    → ((j : ℕ) → j < k → bitmap_test q j ≡ 1)
    → ((j : ℕ) → k ≤ j → bitmap_test q j ≡ bitmap_test p j)
    → free_count q n + free_count p k ≡ free_count p n
free_count_below p q k n h taken kept = omega (
  arith,
  free_from-free_count q (n - k) k n (omega arith),
  free_from-free_count p (n - k) k n (omega arith),
  free_from_eq p q (n - k) k kept,
  free_count-zero q k (λ i l. omega (arith, taken i l)),
)

free_count_full : (p : Pmm) (n : ℕ) → free_count p n ≡ n → (j : ℕ) → j < n → bitmap_test p j ≡ 0
unfolding free_count
free_count_full p zero e j h = absurd (omega arith)
free_count_full p (suc n) e j h =
    let le = free_count-le p n in
    elim (dec_lt j n) [
      | yes l ↦ free_count_full p n (ground arith) j l
      | no l ↦ let i : j ≡ n = omega arith in rw i (ground arith)
    ]

free_count_all : (p : Pmm) (n : ℕ) → FreeRun p 0 n → free_count p n ≡ n
unfolding free_count
free_count_all p zero run = refl
free_count_all p (suc n) run =
    ground (
      arith,
      run n (omega arith) (omega arith),
      free_count_all p n (λ j l h. run j l (omega arith)),
    )

-- How many pages the kernel keeps.
abbrev pub kept_pages : Pmm → ℕ
kept_pages p = min 2048 p.total_pages

pub record Finished (p q : Pmm) : Type 0 where
  pub is_bitmap : IsBitmap q
  pub reserved : (j : ℕ) → j < kept_pages p → bitmap_test q j ≡ 1
  pub others : (j : ℕ) → kept_pages p ≤ j → bitmap_test q j ≡ bitmap_test p j
  pub same_total : q.total_pages ≡ p.total_pages
  pub counter : q.available ≡ sub_word (free_count p p.total_pages) (kept_pages p)

finish_eq :
    (p : Pmm)
    → p.total_pages < word
    → finish p
      ≡ with (set_range (kept_pages p) 0 p) (fall (kept_pages p) (free_count p p.total_pages))
unfolding finish
finish_eq p small =
    let c = free_from-free_count p p.total_pages 0 p.total_pages (omega arith) in
    let le = free_count-le p p.total_pages in
    let z : free_count p 0 ≡ 0 = omega (arith, free_count-le p 0) in
    let e : 0 + free_from p 0 p.total_pages ≡ free_count p p.total_pages = omega arith in
    rw (count_available-free_from p.total_pages 0 0 p (omega arith), e)
      (reserve_kernel-set_range (kept_pages p) 0 (free_count p p.total_pages) p)

finish-Finished : {p : Pmm} → IsBitmap p → p.total_pages < word → Finished p (finish p)
finish-Finished {p} b small =
    let k = kept_pages p in
    let m = set_range-Marked k 0 b (omega arith) in
    let le = free_count-le p p.total_pages in
    let a = fall k (free_count p p.total_pages) in
    rw (finish_eq p small) (record {
      is_bitmap = IsBitmap-of_available (set_range k 0 p) a m.bitmap;
      reserved = λ j h.
          bitmap_test_of_available (set_range k 0 p) a j ∙ m.taken j (omega arith) (omega arith);
      others = λ j h. bitmap_test_of_available (set_range k 0 p) a j ∙ m.kept j (inr (omega arith));
      same_total = m.shape.total;
      counter = fall_lem k (free_count p p.total_pages) (omega arith) (omega arith);
    })

-- `pmm_init` ends by counting the free pages and then reserving the first 8 MB. On any bitmap the
-- reserved pages are taken and the others keep their marks; and `pmm_available_pages` is the number
-- of free pages exactly when none of the reserved pages was marked before.
pub finish_lem :
    {p : Pmm}
    → IsBitmap p
    → p.total_pages < word
    → Finished p (finish p)
      × (((finish p).available ≡ free_count (finish p) p.total_pages) ↔ FreeRun p 0 (kept_pages p))
finish_lem {p} b small =
    let f = finish-Finished b small in
    let k = kept_pages p in
    let c = free_count_below p (finish p) k p.total_pages (omega arith) f.reserved f.others in
    let le = free_count-le p p.total_pages in
    let lk = free_count-le p k in
    (
      f,
      (
        (λ e j l h. free_count_full p k (omega (arith, c, le, lk, f.counter)) j (omega arith)),
        (λ run. omega (arith, c, le, f.counter, free_count_all p k run)),
      ),
    )
