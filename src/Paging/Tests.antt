-- ===== src/Paging/Tests.antt =====
-- The page tables of kernel/kernel.c at concrete inputs.
use myunixlikeos.Common.{replicate, get_or, ◌∷◌, [], ℕ, arith, refl, some, ◌<◌, ◌≡◌, ◌^◌}
use myunixlikeos.Paging.Stale.{map_page-translate}
use myunixlikeos.Pmm.{alloc_page, alloc_page_loop, bitmap_set, bitmap_test}
use myunixlikeos.Common.Bytes.{set_bit, bit_at}
use myunixlikeos.Paging.{pt_index, Paging, get_physical_address, map_page, paging_init}
use myunixlikeos.Paging.Sample.{
  six_free, six_free-IsValid, no_tables, empty_paging, empty_paging-IsPaging,
}
use myunixlikeos.Paging.Tables.{IsPaging}
use myunixlikeos.Paging.Boot.{paging_init_lem}
use myunixlikeos.Paging.View.{translate, Maps, map_page_lem, get_physical_address-map_page}

map_page_lem_example :
    Maps empty_paging 0x8048000 0x900007 (map_page 0x8048000 0x900000 7 empty_paging)
map_page_lem_example =
    map_page_lem empty_paging-IsPaging 0x8048000 7 (omega arith) 0x900000 (omega arith)
      (omega arith)

get_physical_address-map_page_example :
    get_physical_address 0x8048123 (map_page 0x8048000 0x900000 7 empty_paging) ≡ 0x900123
get_physical_address-map_page_example =
    get_physical_address-map_page empty_paging-IsPaging 0x8048000 0x8048123 (omega arith)
      (omega arith) 0x900000 7 (omega arith) (omega arith) refl (omega arith)

paging_init_lem_example :
    (p : Paging) × (paging_init six_free no_tables ≡ some p)
    × IsPaging p
    × ((v : ℕ) → v < 2 ^ 24 → get_physical_address v p ≡ v)
paging_init_lem_example =
    paging_init_lem no_tables six_free six_free-IsValid refl (omega arith) (λ i h free. refl)

-- a memory that is full of words that say present, writable and for the user
abbrev stale_paging : Paging
stale_paging = record empty_paging { table_at = λ b. replicate 1024 7 }

first_free :
    alloc_page six_free ≡ (some 0x103000, record six_free { bitmap = 0x2f ∷ 0 ∷ []; available = 5 })
unfolding alloc_page alloc_page_loop bitmap_set bitmap_test set_bit bit_at
first_free = refl

map_page-translate_example :
    (get_physical_address 0x8049000 stale_paging ≡ 0)
    × (get_physical_address 0x8049000 (map_page 0x8048000 0x900000 7 stale_paging)
        ≡ translate (get_or (replicate 1024 7) (pt_index 0x8049000) 0) 0x8049000)
map_page-translate_example =
    map_page-translate stale_paging 0x8048000 0x8049000 0x900000 7 0x103000
      (record six_free { bitmap = 0x2f ∷ 0 ∷ []; available = 5 }) refl (omega arith) refl first_free
      (omega arith) (omega arith) refl (omega arith) (omega arith)
