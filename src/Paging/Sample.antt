-- ===== src/Paging/Sample.antt =====
-- A small allocator and an empty directory over it, for the tests.
use myunixlikeos.Common.{ℕ, [], arith, refl, ◌∷◌, List, replicate}
use myunixlikeos.Common.Bytes.{bit_at}
use myunixlikeos.Paging.{Paging}
use myunixlikeos.Paging.Tables.{IsPaging}
use myunixlikeos.Paging.Boot.{empty_directory-IsPaging}
use myunixlikeos.Pmm.{Pmm, bitmap_test}
use myunixlikeos.Pmm.Count.{IsValid, free_count}

-- ten pages from 1 MB on, of which 0, 1, 2 and 5 are taken
abbrev pub six_free : Pmm
six_free = record {
  bitmap = 0x27 ∷ 0 ∷ [];
  bitmap_size = 2;
  memory_start = 0x100000;
  total_pages = 10;
  available = 6;
}

pub six_free-IsValid : IsValid six_free
unfolding free_count bitmap_test bit_at
six_free-IsValid = record {
  is_bitmap = record { bytes = omega arith; sized = refl; covers = omega arith };
  not_null = omega arith;
  fits = omega arith;
  counted = refl;
}

abbrev pub no_tables : ℕ → List ℕ
no_tables b = replicate 1024 0

abbrev pub empty_paging : Paging
empty_paging = record { pmm = six_free; directory = replicate 1024 0; table_at = no_tables }

pub empty_paging-IsPaging : IsPaging empty_paging
empty_paging-IsPaging =
    empty_directory-IsPaging six_free no_tables six_free-IsValid refl (λ i h free. refl)
