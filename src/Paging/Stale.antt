-- ===== src/Paging/Stale.antt =====
-- What a new page table of kernel/kernel.c maps where the page that becomes the table was not blank.
use myunixlikeos.Common.{
  ℕ, List, [], ◌∷◌, ◌+◌, ◌<◌, ◌≡◌, ◌≢◌, ◌%◌, ◌^◌, zero, suc, some, false, arith, refl, get_or, set,
  length, get_or-set, ap, bit_or, true, ◌==◌, ◌∙◌,
}
use myunixlikeos.Common.Words.{with_flags}
use myunixlikeos.Paging.{
  Paging, alloc_page_table, clear_first, directory_entry, get_physical_address, is_present,
  map_page, need_table, pd_flags, pd_index, pt_index, base,
}
use myunixlikeos.Paging.Tables.{base_flags, present_flags}
use myunixlikeos.Paging.View.{translate}
use myunixlikeos.Pmm.{Pmm, alloc_page}

get_or-set_ne : (xs : List ℕ) (i j v : ℕ) → i ≢ j → get_or (set xs i v) j 0 ≡ get_or xs j 0
get_or-set_ne [] i j v ne = refl
get_or-set_ne (x ∷ xs) zero zero v ne = absurd (ne refl)
get_or-set_ne (x ∷ xs) zero (suc j) v ne = refl
get_or-set_ne (x ∷ xs) (suc i) zero v ne = refl
get_or-set_ne (x ∷ xs) (suc i) (suc j) v ne = get_or-set_ne xs i j v (λ e. ne (ap suc e))

get_or-clear_first : (xs : List ℕ) (k : ℕ) → k ≢ 0 → get_or (clear_first xs) k 0 ≡ get_or xs k 0
get_or-clear_first [] k ne = refl
get_or-clear_first (x ∷ xs) zero ne = absurd (ne refl)
get_or-clear_first (x ∷ xs) (suc k) ne = refl

-- In a directory of 1024 entries, where `map_page` needs a new table for an address below 2^32 and
-- gets a page-aligned page below 2^32 for it, an address below the same table but in another page
-- than the mapped one and the first led nowhere before, and leads afterwards where the word says
-- that the page of the table happened to hold.
pub map_page-translate :
    (p : Paging) (v w physical flags a : ℕ) (pmm' : Pmm)
    → length p.directory ≡ 1024
    → v < 2 ^ 32
    → is_present (directory_entry p v) ≡ false
    → alloc_page p.pmm ≡ (some a, pmm')
    → a % 4096 ≡ 0
    → a < 2 ^ 32
    → pd_index w ≡ pd_index v
    → pt_index v ≢ pt_index w
    → pt_index w ≢ 0
    → (get_physical_address w p ≡ 0)
      × (get_physical_address w (map_page v physical flags p)
          ≡ translate (get_or (p.table_at a) (pt_index w) 0) w)
unfolding get_physical_address map_page need_table alloc_page_table
map_page-translate p v w physical flags a pmm' sized fits absent got aligned whole same other
      first =
    let odd : pd_flags flags % 2 ≡ 1 = ground arith in
    let small : pd_flags flags < 4096 = ground arith in
    let sum = with_flags a (pd_flags flags) whole small aligned in
    let entry =
      get_or-set p.directory (pd_index v) (pd_index v) (a + pd_flags flags) 0 (omega arith) in
    let new : get_or (set p.directory (pd_index v) (a + pd_flags flags)) (pd_index v) 0
        ≡ a + pd_flags flags =
      ground (arith, entry) in
    let at = base_flags a (pd_flags flags) aligned small whole in
    let there = present_flags a (pd_flags flags) aligned small whole odd in
    let self : (a == a) ≡ true = ground arith in
    let kept =
      get_or-set_ne (clear_first (p.table_at a)) (pt_index v) (pt_index w)
        (bit_or (base physical) flags) other
      ∙ get_or-clear_first (p.table_at a) (pt_index w) first in
    (rw (same, absent) refl, rw (absent, got, sum, same, new, there, at, self, kept) refl)
