-- ===== src/Paging/View.antt =====
-- `map_page`, `unmap_page` and `get_physical_address` of kernel/kernel.c, as operations on one array
-- of entries.
use myunixlikeos.Paging.Entries.{Updates, put_entry-IsPaging, put_entry-Updates}
use myunixlikeos.Common.Words.{with_flags, high_part, low_ten, low_twelve}
use myunixlikeos.Paging.{
  Paging, directory_entry, is_present, alloc_page_table, cleared_table, enter_table, need_table,
  pd_flags, pd_index, base, get_physical_address, map_page, unmap_page, pt_index, write_entry,
}
use myunixlikeos.Paging.Tables.{IsPaging, entry_at, base_flags, present_flags}
use myunixlikeos.Paging.Grow.{
  Grows, Grows-refl, add_table-IsPaging, Grows-of_Took, add_table-is_present, add_table_of_zeros,
}
use myunixlikeos.Pmm.{Pmm, alloc_page}
use myunixlikeos.Pmm.Pages.{AllocatesPage, alloc_page_lem}
use myunixlikeos.Common.{
  ℕ, ◌<◌, ◌≡◌, ◌^◌, get_or, true, Bool, refl, false, Option, replicate, suc, zero, Bool-cases, ap,
  arith, bit_or, inl, inr, length-replicate, none, some, ◌%◌, ◌*◌, ◌+◌, List, ℕ_discrete, ◌/◌, ◌⊎◌,
  bit_and, if◌then◌else◌, sym, ◌==◌, ◌∙◌,
}

pub get_or-replicate : (n i : ℕ) → get_or (replicate {A = ℕ} n 0) i 0 ≡ 0
get_or-replicate zero i = refl
get_or-replicate (suc n) zero = refl
get_or-replicate (suc n) (suc i) = get_or-replicate n i

-- What the search for a table leaves: with one, nothing else that can be seen changes; without one,
-- no page is free and nothing changes.
abbrev Needs : Paging → ℕ → Bool × Paging → Type 0
Needs p v (false, q) = (q ≡ p) × (p.pmm.available ≡ 0) × (is_present (directory_entry p v) ≡ false)
Needs p v (true, q) =
    IsPaging q
    × (is_present (directory_entry q v) ≡ true)
    × Grows p.pmm q.pmm
    × ((n : ℕ) → entry_at q n ≡ entry_at p n)

-- The outcome of `map_page` for the entry `e`.
abbrev pub Maps : Paging → ℕ → ℕ → Paging → Type 0
Maps p v e q =
    (IsPaging q × Updates p (v / 4096) e q × Grows p.pmm q.pmm)
    ⊎ ((q ≡ p) × (p.pmm.available ≡ 0) × (is_present (directory_entry p v) ≡ false))

-- Where an entry leads the address `v`.
abbrev pub translate : ℕ → ℕ → ℕ
translate e v = if is_present e then base e + bit_and v 0xfff else 0

module _ {p : Paging} (g : IsPaging p) (v flags : ℕ) (fits : v < 2 ^ 32) where
  pd_flags-odd : (pd_flags flags % 2 ≡ 1) × (pd_flags flags < 4096)
  pd_flags-odd = ground arith

  -- The table for a slot that had none, at the page that the allocator gave.
  new_table :
      (r : Option ℕ × Pmm)
      → AllocatesPage p.pmm r
      → is_present (directory_entry p v) ≡ false
      → Needs p v (enter_table v flags (cleared_table p r))
  unfolding entry_at
  new_table (none, pmm') (same, full) absent = (ap (λ m. record p { pmm = m }) same, full, absent)
  new_table (some a, pmm') (i, at, t, first) absent =
      let (odd, small) = pd_flags-odd in
      let zeros : List ℕ = replicate 1024 0 in
      let full = length-replicate {A = ℕ} 1024 0 in
      let e : bit_or a (pd_flags flags) ≡ p.pmm.memory_start + i * 4096 + pd_flags flags = omega (
        arith,
        at,
        with_flags a (pd_flags flags) (omega (arith, at, t.in_range, g.valid.fits)) small
            (omega (arith, at, g.aligned)),
      ) in
      let within : pd_index v < 1024 = omega arith in
      let zero_entry = get_or-replicate 1024 in
      rw (e, at, g.blank i t.in_range t.was_free)
        (
          add_table-IsPaging g t (pd_index v) absent within zeros full (pd_flags flags) odd small,
          add_table-is_present g t (pd_index v) absent within zeros full (pd_flags flags) odd small,
          Grows-of_Took t,
          add_table_of_zeros g t (pd_index v) absent within zeros full (pd_flags flags) odd small
              zero_entry,
        )

  pub need_table-Needs : Needs p v (need_table v flags p)
  unfolding need_table alloc_page_table
  need_table-Needs = elim (Bool-cases (is_present (directory_entry p v))) [
    | inl there ↦ rw there (g, there, Grows-refl p.pmm, λ n. refl)
    | inr absent ↦ rw absent (new_table (alloc_page p.pmm) (alloc_page_lem g.valid) absent)
  ]

  write_entry-Maps : (e : ℕ) (r : Bool × Paging) → Needs p v r → Maps p v e (write_entry v e r)
  write_entry-Maps e (false, q) (same, full, absent) = inr (same, full, absent)
  write_entry-Maps e (true, q) (h, there, grows, view) = inl (
    put_entry-IsPaging h v e fits there,
    λ n. ground (arith, put_entry-Updates h v e fits there n, view n),
    grows,
  )

  -- What `map_page` does where the free pages hold zeros: the entry of the virtual page becomes the page of the physical address with
  -- the flags, no other entry changes and the invariant holds; or, if the page needs a new table and
  -- no page is free, nothing changes at all.
  pub map_page_lem :
      (physical : ℕ)
      → physical < 2 ^ 32
      → flags < 4096
      → Maps p v (physical / 4096 * 4096 + flags) (map_page v physical flags p)
  unfolding map_page
  map_page_lem physical whole small =
      let high = high_part physical whole in
      let sum : bit_or (base physical) flags ≡ physical / 4096 * 4096 + flags = omega (
        arith,
        high,
        with_flags (base physical) flags (omega (arith, high)) small (omega (arith, high)),
      ) in
      rw sum (write_entry-Maps _ (need_table v flags p) need_table-Needs)

module _ {p : Paging} (g : IsPaging p) (v : ℕ) (fits : v < 2 ^ 32) where
  -- What `unmap_page` does, with a table for the page or without one: the entry of the page becomes
  -- 0, no other changes, the invariant holds, and no page is given back.
  pub unmap_page_lem :
      IsPaging (unmap_page v p)
      × Updates p (v / 4096) 0 (unmap_page v p)
      × ((unmap_page v p).pmm ≡ p.pmm)
  unfolding unmap_page entry_at
  unmap_page_lem = elim (Bool-cases (is_present (directory_entry p v))) [
    | inl there ↦
        rw there (put_entry-IsPaging g v 0 fits there, put_entry-Updates g v 0 fits there, refl)
    | inr absent ↦ rw absent (
      g,
      λ n. elim (ℕ_discrete n (v / 4096)) [
        | yes same ↦
            let d : n / 1024 ≡ pd_index v = omega (arith, same) in rw (d, absent) (ground arith)
        | no ne ↦ ground arith
      ],
      refl,
    )
  ]

  -- The entry decides where an address leads.
  pub get_physical_address-entry_at : get_physical_address v p ≡ translate (entry_at p (v / 4096)) v
  unfolding get_physical_address entry_at
  get_physical_address-entry_at =
      let low = low_ten (v / 2 ^ 12) (omega arith) in
      let k : pt_index v ≡ v / 4096 % 1024 = omega (arith, low) in
      let d : v / 4096 / 1024 ≡ pd_index v = omega arith in
      rw (d, k)
        (elim (Bool-cases (is_present (directory_entry p v))) [
          | inl there ↦ rw there refl
          | inr absent ↦ rw absent refl
        ])

module _ {p : Paging} (g : IsPaging p) (v w : ℕ) (fits : v < 2 ^ 32) (whole : w < 2 ^ 32) where
  -- Where the free pages hold zeros, after `map_page` with a present page and a free page left for the
  -- table, an address in the virtual page leads to the same offset of the physical page, and every other address leads where
  -- it led.
  pub get_physical_address-map_page :
      (physical flags : ℕ)
      → physical < 2 ^ 32
      → flags < 4096
      → flags % 2 ≡ 1
      → 0 < p.pmm.available
      → get_physical_address w (map_page v physical flags p) ≡ (
          if w / 4096 == v / 4096
          then physical / 4096 * 4096 + w % 4096
          else get_physical_address w p)
  get_physical_address-map_page physical flags k small odd free =
      elim (map_page_lem g v flags fits physical k small) [
        | inl (h, view, _) ↦
            let a = physical / 4096 * 4096 in
            let b = base_flags a flags (omega arith) small (omega arith) in
            let on = present_flags a flags (omega arith) small (omega arith) odd in
            let low = low_twelve w whole in
            get_physical_address-entry_at h w whole
            ∙ rw (view (w / 4096)) (elim (Bool-cases (w / 4096 == v / 4096)) [
              | inl same ↦ rw (same, on, b, low) refl
              | inr other ↦ rw other (sym (get_physical_address-entry_at g w whole))
            ])
        | inr (_, full, _) ↦ absurd (omega (arith, full))
      ]

  -- After `unmap_page` no address in the virtual page leads anywhere, and every other address leads
  -- where it led.
  pub get_physical_address-unmap_page :
      get_physical_address w (unmap_page v p)
      ≡ (if w / 4096 == v / 4096 then 0 else get_physical_address w p)
  get_physical_address-unmap_page =
      let (h, view, _) = unmap_page_lem g v fits in
      get_physical_address-entry_at h w whole
      ∙ rw (view (w / 4096)) (elim (Bool-cases (w / 4096 == v / 4096)) [
        | inl same ↦ rw same refl
        | inr other ↦ rw other (sym (get_physical_address-entry_at g w whole))
      ])

-- With a free page left `map_page` does not fail.
pub map_page-success :
    {p : Paging} (v e : ℕ) {q : Paging}
    → Maps p v e q
    → 0 < p.pmm.available
    → IsPaging q × Grows p.pmm q.pmm
map_page-success v e (inl (h, view, grows)) free = (h, grows)
map_page-success v e (inr (same, full, absent)) free = absurd (omega (arith, full))
