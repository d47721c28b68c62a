-- ===== src/Pmm/Tests.antt =====
-- The page allocator of kernel/kernel.c at concrete inputs.
use myunixlikeos.Common.Bytes.{bit_at, set_bit}
use myunixlikeos.Pmm.Scan.{FreeRun}
use myunixlikeos.Common.{[], arith, refl, some, ◌*◌, ◌+◌, ◌↔◌, ◌∷◌, ◌≡◌}
use myunixlikeos.Pmm.{
  Pmm, bitmap_test, alloc_page, alloc_blocks, free_blocks, page_size, alloc_page_loop, bitmap_set,
  set_range,
}
use myunixlikeos.Pmm.Count.{IsValid, free_count}
use myunixlikeos.Pmm.Blocks.{AllocatesBlocks, alloc_blocks_lem}
use myunixlikeos.Pmm.Free.{FreedRun, clipped, free_blocks_lem}
use myunixlikeos.Pmm.Init.{fallback, finish}
use myunixlikeos.Pmm.Boot.{Finished, kept_pages, finish_lem}

-- ten pages from 1 MB on, of which 0, 1, 2 and 5 are taken
abbrev small : Pmm
small = record {
  bitmap = 0x27 ∷ 0 ∷ [];
  bitmap_size = 2;
  memory_start = 0x100000;
  total_pages = 10;
  available = 6;
}

small-IsValid : IsValid small
unfolding free_count bitmap_test bit_at
small-IsValid = record {
  is_bitmap = record { bytes = omega arith; sized = refl; covers = omega arith };
  not_null = omega arith;
  fits = omega arith;
  counted = refl;
}

abbrev small_taken : Pmm
small_taken = record small { bitmap = 0x2f ∷ 0 ∷ []; available = 5 }

alloc_page_runs : alloc_page small ≡ (some 0x103000, small_taken)
unfolding alloc_page alloc_page_loop bitmap_test bit_at bitmap_set set_bit
alloc_page_runs = refl

-- no run of five pages from page 3 on, but from page 6 on there are only four
alloc_blocks_runs : (alloc_blocks 4 small).0 ≡ some 0x106000
unfolding alloc_blocks bitmap_test bit_at set_range bitmap_set set_bit
alloc_blocks_runs = refl

alloc_blocks_lem_example : AllocatesBlocks 4 small (alloc_blocks 4 small)
alloc_blocks_lem_example = alloc_blocks_lem 4 small-IsValid

free_blocks_lem_example :
    FreedRun small 1 (clipped small 1 3) (free_blocks (0x100000 + 1 * page_size + 5) 3 small)
free_blocks_lem_example =
    free_blocks_lem 1 5 3 small-IsValid (omega arith) (omega arith) (omega arith) (omega arith)

finish_lem_example :
    Finished small (finish small)
    × (((finish small).available ≡ free_count (finish small) 10)
        ↔ FreeRun small 0 (kept_pages small))
finish_lem_example = finish_lem small-IsValid.is_bitmap (omega arith)

-- Without a memory map page 512 is reserved for the bitmap, which stands in page 256.
fallback_reserves : (bitmap_test fallback 256 ≡ 0) × (bitmap_test fallback 512 ≡ 1)
unfolding fallback bitmap_test set_range bitmap_set set_bit bit_at
fallback_reserves = (refl, refl)
