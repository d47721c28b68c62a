-- ===== src/Pmm/Count.antt =====
-- The number of free pages, and the invariant that `pmm_available_pages` is that number.
use myunixlikeos.Pmm.{Pmm, word, page_size, bitmap_test}
use myunixlikeos.Pmm.Bitmap.{IsBitmap}
use myunixlikeos.Common.{
  ℕ, arith, if◌then◌else◌, refl, suc, zero, ◌*◌, ◌+◌, ◌<◌, ◌==◌, ◌≡◌, ◌≢◌, ◌≤◌,
}

-- How many of the pages below `n` are free.
unfoldable pub free_count : Pmm → ℕ → ℕ
free_count p zero = 0
free_count p (suc n) = (if bitmap_test p n == 0 then 1 else 0) + free_count p n

-- `q` is `p` with the page `i` marked by `v`.
abbrev pub Marks : Pmm → ℕ → ℕ → Pmm → Type 0
Marks p i v q = (j : ℕ) → bitmap_test q j ≡ (if i == j then v else bitmap_test p j)

pub free_count_outside :
    (p q : Pmm) (i v n : ℕ) → n ≤ i → Marks p i v q → free_count q n ≡ free_count p n
unfolding free_count
free_count_outside p q i v zero h m = refl
free_count_outside p q i v (suc n) h m =
    ground (arith, m n, free_count_outside p q i v n (omega arith) m)

pub free_count_taken :
    (p q : Pmm) (i v n : ℕ)
    → i < n
    → bitmap_test p i ≡ 0
    → v ≢ 0
    → Marks p i v q
    → free_count q n + 1 ≡ free_count p n
unfolding free_count
free_count_taken p q i v zero h f ne m = absurd (omega arith)
free_count_taken p q i v (suc n) h f ne m =
    ground (arith, m n, free_count_outside p q i v n, free_count_taken p q i v n)

pub free_count_freed :
    (p q : Pmm) (i n : ℕ)
    → i < n
    → bitmap_test p i ≢ 0
    → Marks p i 0 q
    → free_count q n ≡ free_count p n + 1
unfolding free_count
free_count_freed p q i zero h f m = absurd (omega arith)
free_count_freed p q i (suc n) h f m =
    ground (arith, m n, free_count_outside p q i 0 n, free_count_freed p q i n)

pub free_count-le : (p : Pmm) (n : ℕ) → free_count p n ≤ n
unfolding free_count
free_count-le p zero = omega arith
free_count-le p (suc n) = ground (arith, free_count-le p n)

pub free_count_pos : (p : Pmm) (n i : ℕ) → i < n → bitmap_test p i ≡ 0 → 0 < free_count p n
unfolding free_count
free_count_pos p zero i h f = absurd (omega arith)
free_count_pos p (suc n) i h f = ground (arith, free_count_pos p n i)

pub free_count-zero :
    (p : Pmm) (n : ℕ) → ((i : ℕ) → i < n → bitmap_test p i ≢ 0) → free_count p n ≡ 0
unfolding free_count
free_count-zero p zero h = refl
free_count-zero p (suc n) h =
    ground (arith, h n (omega arith), free_count-zero p n (λ i k. h i (omega arith)))

-- The managed memory is not at address 0 and does not reach the top of the address space, and the
-- counter is the number of free pages.
pub record IsValid (p : Pmm) : Type 0 where
  pub is_bitmap : IsBitmap p
  pub not_null : 0 < p.memory_start
  pub fits : p.memory_start + p.total_pages * page_size < word
  pub counted : p.available ≡ free_count p p.total_pages
