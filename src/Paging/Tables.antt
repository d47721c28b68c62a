-- ===== src/Paging/Tables.antt =====
-- What must hold of the page directory and the tables of kernel/kernel.c, and the view of them as
-- one array of entries, by the number of a virtual page.
use myunixlikeos.Paging.{Paging, base, is_present}
use myunixlikeos.Pmm.{Pmm, bitmap_test}
use myunixlikeos.Pmm.Count.{IsValid}
use myunixlikeos.Common.{
  replicate, List, ℕ, ◌*◌, ◌+◌, ◌/◌, ◌%◌, ◌<◌, ◌≡◌, ◌≢◌, ◌^◌, if◌then◌else◌, get_or, length, true,
  arith,
}
use myunixlikeos.Common.Words.{low_bit, high_part}

abbrev pub slot : Paging → ℕ → ℕ
slot p i = get_or p.directory i 0

-- The entry for the virtual page `n`; without a table it is 0.
unfoldable pub entry_at : Paging → ℕ → ℕ
entry_at p n =
    if is_present (slot p (n / 1024))
    then get_or (p.table_at (base (slot p (n / 1024)))) (n % 1024) 0
    else 0

-- The table of a present slot is a page that the allocator has given away.
abbrev pub OwnsPage : Paging → ℕ → Type 0
OwnsPage p a =
    (j : ℕ) × (a ≡ p.pmm.memory_start + j * 4096)
    × (j < p.pmm.total_pages)
    × (bitmap_test p.pmm j ≢ 0)

-- The free pages hold zeros, as memory that was never written does. The code relies on it, since its
-- `memset` does not clear the pages that become tables.
abbrev pub Blank : Pmm → (ℕ → List ℕ) → Type 0
Blank p tables =
    (i : ℕ)
    → i < p.total_pages
    → bitmap_test p i ≡ 0
    → tables (p.memory_start + i * 4096) ≡ replicate 1024 0

pub record IsPaging (p : Paging) : Type 0 where
  pub valid : IsValid p.pmm
  pub aligned : p.pmm.memory_start % 4096 ≡ 0
  pub sized : length p.directory ≡ 1024
  pub words : (i : ℕ) → slot p i < 2 ^ 32
  pub tables : (i : ℕ) → is_present (slot p i) ≡ true → length (p.table_at (base (slot p i))) ≡ 1024
  pub owned : (i : ℕ) → is_present (slot p i) ≡ true → OwnsPage p (base (slot p i))
  pub blank : Blank p.pmm p.table_at
  pub apart :
      (i j : ℕ)
      → is_present (slot p i) ≡ true
      → is_present (slot p j) ≡ true
      → base (slot p i) ≡ base (slot p j)
      → i ≡ j

-- An entry made of the address of a page and flags.
module _ (a f : ℕ) (aligned : a % 4096 ≡ 0) (small : f < 4096) (fits : a < 2 ^ 32) where
  pub base_flags : base (a + f) ≡ a
  base_flags = omega (arith, high_part (a + f) (omega arith))

  pub present_flags : f % 2 ≡ 1 → is_present (a + f) ≡ true
  present_flags odd = ground (arith, low_bit (a + f) (omega arith))
