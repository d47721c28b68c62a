-- ===== src/Paging/Entries.antt =====
-- One entry written, and what `unmap_page` of kernel/kernel.c does.
use myunixlikeos.Paging.{Paging, base, directory_entry, is_present, put_entry, pd_index, pt_index}
use myunixlikeos.Paging.Tables.{IsPaging, entry_at, slot}
use myunixlikeos.Common.{
  ℕ, ◌/◌, ◌<◌, ◌≡◌, ◌^◌, ◌==◌, if◌then◌else◌, true, arith, Bool-cases, inl, inr, false, get_or-set,
  length-set, refl, sym, ℕ_discrete, ◌%◌, ◌∙◌, ◌≢◌, ◌*◌, ◌+◌,
}
use myunixlikeos.Common.Words.{low_ten}

-- The entry of the virtual page `k` is now `e`, and every other is as it was.
abbrev pub Updates : Paging → ℕ → ℕ → Paging → Type 0
Updates p k e q = (n : ℕ) → entry_at q n ≡ (if n == k then e else entry_at p n)

module _ {p : Paging} (g : IsPaging p) (v e : ℕ) (fits : v < 2 ^ 32)
    (there : is_present (directory_entry p v) ≡ true) where
  pub put_entry-IsPaging : IsPaging (put_entry p v e)
  put_entry-IsPaging = record {
    valid = g.valid;
    aligned = g.aligned;
    sized = g.sized;
    words = g.words;
    tables = λ i h. elim (Bool-cases (base (directory_entry p v) == base (slot p i))) [
      | inl same ↦ rw same (length-set (p.table_at _) (pt_index v) e ∙ g.tables (pd_index v) there)
      | inr other ↦ rw other (g.tables i h)
    ];
    owned = g.owned;
    blank = λ i h free.
        elim (Bool-cases (base (directory_entry p v) == p.pmm.memory_start + i * 4096)) [
          | inl same ↦
              let (j, at, inside, taken) = g.owned (pd_index v) there in
              let e : j ≡ i = ground arith in absurd (taken (rw e free))
          | inr other ↦ rw other (g.blank i h free)
        ];
    apart = g.apart;
  }

  -- The entry in another table.
  elsewhere :
      (n : ℕ)
      → n / 1024 ≢ pd_index v
      → is_present (slot p (n / 1024)) ≡ true
      → (base (directory_entry p v) == base (slot p (n / 1024))) ≡ false
  elsewhere n ne h = elim (Bool-cases (base (directory_entry p v) == base (slot p (n / 1024)))) [
    | inl same ↦ absurd (ne (sym (g.apart (pd_index v) (n / 1024) there h (ground arith))))
    | inr other ↦ other
  ]

  -- The entry in the same table.
  here :
      (n : ℕ)
      → n / 1024 ≡ pd_index v
      → entry_at (put_entry p v e) n ≡ (if n == v / 4096 then e else entry_at p n)
  unfolding entry_at
  here n same =
      let low = low_ten (v / 2 ^ 12) (omega arith) in
      let t = g.tables (pd_index v) there in
      let got =
        get_or-set (p.table_at (base (directory_entry p v))) (pt_index v) (n % 1024) e 0
          (omega (arith, low, t)) in
      rw (same, there) (ground (arith, low, got))

  pub put_entry-Updates : Updates p (v / 4096) e (put_entry p v e)
  unfolding entry_at
  put_entry-Updates n = elim (ℕ_discrete (n / 1024) (pd_index v)) [
    | yes same ↦ here n same
    | no ne ↦
        let other : (n == v / 4096) ≡ false = ground arith in
        elim (Bool-cases (is_present (slot p (n / 1024)))) [
          | inl h ↦ rw (other, h, elsewhere n ne h) refl
          | inr absent ↦ rw (other, absent) refl
        ]
  ]
