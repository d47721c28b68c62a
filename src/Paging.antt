-- ===== src/Paging.antt =====
-- The page directory and the page tables of kernel/kernel.c. The directory is a list of 1024 words,
-- and a page table is the 1024 words at a physical address, those of pages not yet in use included; the caches of the processor are left out.
mod Boot
pub mod Entries
pub mod Grow
pub mod Sample
mod Stale
pub mod Tables
pub mod View
mod Tests
use myunixlikeos.Common.{
  ℕ, Bool, List, Option, [], bit_and, bit_or, get_or, if◌then◌else◌, none, not, set, some, suc,
  zero, ◌*◌, ◌+◌, ◌/◌, ◌==◌, ◌∷◌, ◌^◌, false, true,
}
use myunixlikeos.Pmm.{Pmm, alloc_page}

abbrev pub page_present : ℕ
page_present = 1

abbrev pub page_write : ℕ
page_write = 2

abbrev pub page_user : ℕ
page_user = 4

-- `table_at` is the page tables in physical memory.
pub record Paging : Type 0 where
  pub pmm : Pmm
  pub directory : List ℕ
  pub table_at : ℕ → List ℕ

abbrev pub put_table : Paging → ℕ → List ℕ → Paging
put_table p a t = record p { table_at = λ b. if a == b then t else p.table_at b }

abbrev pub is_present : ℕ → Bool
is_present e = not (bit_and e page_present == 0)

-- `virtual >> 22` and `(virtual >> 12) & 0x3FF`
abbrev pub pd_index : ℕ → ℕ
pd_index v = v / 2 ^ 22

abbrev pub pt_index : ℕ → ℕ
pt_index v = bit_and (v / 2 ^ 12) 0x3ff

abbrev pub base : ℕ → ℕ
base e = bit_and e 0xfffff000

-- `memset(page, 0, 4096)` of lib/libc/string/memset.c, which clears the first byte only: the lowest
-- byte of the first word.
abbrev pub clear_first : List ℕ → List ℕ
clear_first [] = []
clear_first (w ∷ ws) = w / 256 * 256 ∷ ws

-- The table is what the page holds, but for `memset(table, 0, sizeof(page_table_t))`; `none` is NULL.
abbrev pub cleared_table : Paging → Option ℕ × Pmm → Option ℕ × Paging
cleared_table p (none, pmm) = (none, record p { pmm = pmm })
cleared_table p (some t, pmm) =
    (some t, put_table (record p { pmm = pmm }) t (clear_first (p.table_at t)))

unfoldable pub alloc_page_table : Paging → Option ℕ × Paging
alloc_page_table p = cleared_table p (alloc_page p.pmm)

abbrev pub directory_entry : Paging → ℕ → ℕ
directory_entry p v = get_or p.directory (pd_index v) 0

abbrev pub put_entry : Paging → ℕ → ℕ → Paging
put_entry p v e =
    let t = base (directory_entry p v) in put_table p t (set (p.table_at t) (pt_index v) e)

abbrev pub pd_flags : ℕ → ℕ
pd_flags flags = if bit_and flags page_user == 0 then 3 else 7

-- `false` is the return when there is no memory for the table.
abbrev pub enter_table : ℕ → ℕ → Option ℕ × Paging → Bool × Paging
enter_table v flags (none, p) = (false, p)
enter_table v flags (some t, p) =
    (true, record p { directory = set p.directory (pd_index v) (bit_or t (pd_flags flags)) })

-- The table for an address, allocated if needed.
unfoldable pub need_table : ℕ → ℕ → Paging → Bool × Paging
unfolding alloc_page_table
need_table v flags p =
    if is_present (directory_entry p v) then (true, p) else enter_table v flags (alloc_page_table p)

abbrev pub write_entry : ℕ → ℕ → Bool × Paging → Paging
write_entry v e (false, p) = p
write_entry v e (true, p) = put_entry p v e

unfoldable pub map_page : ℕ → ℕ → ℕ → Paging → Paging
unfolding need_table
map_page v physical flags p = write_entry v (bit_or (base physical) flags) (need_table v flags p)

unfoldable pub unmap_page : ℕ → Paging → Paging
unmap_page v p = if is_present (directory_entry p v) then put_entry p v 0 else p

unfoldable pub get_physical_address : ℕ → Paging → ℕ
get_physical_address v p =
    if is_present (directory_entry p v)
    then (let e = get_or (p.table_at (base (directory_entry p v))) (pt_index v) 0 in
        if is_present e then base e + bit_and v 0xfff else 0)
    else 0

-- `n` entries from index `i` on of the identity mapping of table `table`.
unfoldable pub identity_entries : (table n i : ℕ) → List ℕ
identity_entries table zero i = []
identity_entries table (suc n) i =
    bit_or ((table * 1024 + i) * 4096) 3 ∷ identity_entries table n (i + 1)

-- One round of the first loop; `false` is the early return.
abbrev pub enter_low : ℕ → Option ℕ × Paging → Bool × Paging
enter_low i (none, p) = (false, p)
enter_low i (some t, p) = (
  true,
  record (put_table p t (identity_entries i 1024 0)) { directory = set p.directory i (bit_or t 3) },
)

-- The first loop, with `n` tables left.
unfoldable pub map_low : (n i : ℕ) → Paging → Bool × Paging
unfolding identity_entries alloc_page_table
map_low zero i p = (true, p)
map_low (suc n) i p =
    let (done, q) = enter_low i (alloc_page_table p) in
    let rest = map_low n (i + 1) q in if done then rest else (false, q)

-- One round of the second loop: `i` is the index of the directory that `addr` leads to.
abbrev pub enter_heap : ℕ → Option ℕ × Paging → Paging
enter_heap i (none, p) = p
enter_heap i (some t, p) = record p { directory = set p.directory i (bit_or t 3) }

unfoldable pub map_heap : (n i : ℕ) → Paging → Paging
unfolding alloc_page_table
map_heap zero i p = p
map_heap (suc n) i p = map_heap n (i + 1) (enter_heap i (alloc_page_table p))

abbrev pub map_all : Bool × Paging → Paging
map_all (false, p) = p
map_all (true, p) = map_heap 64 768 p

-- `memset(kernel_page_directory, 0, ...)`; `tables` is what the memory holds. `none` is that there is
-- no page for the directory.
unfoldable pub with_directory : (ℕ → List ℕ) → Option ℕ × Pmm → Option Paging
unfolding map_low map_heap
with_directory tables (none, pmm) = none
with_directory tables (some a, pmm) = some (
    map_all
      (map_low 4 0 (record { pmm = pmm; directory = clear_first (tables a); table_at = tables })))

unfoldable pub paging_init : Pmm → (ℕ → List ℕ) → Option Paging
unfolding with_directory
paging_init pmm tables = with_directory tables (alloc_page pmm)
