-- ===== src/Pmm/Free.antt =====
-- `pmm_free_blocks` of kernel/kernel.c.
use myunixlikeos.Pmm.Marks.{release-Freed, release_free}
use myunixlikeos.Pmm.Scan.{FreeRun}
use myunixlikeos.Common.{
  ℕ, arith, dec_lt, inl, min, refl, suc, zero, ℕ_discrete, ◌*◌, ◌+◌, ◌-◌, ◌<◌, ◌∙◌, ◌≡◌, ◌≤◌, ◌⊎◌,
}
use myunixlikeos.Pmm.{
  Pmm, release_range, free_blocks, page_index, clip, bitmap_test, page_size, release, word,
}
use myunixlikeos.Pmm.Count.{IsValid, Marks}

-- What stays when pages are given back one after another.
record Kept (p q : Pmm) : Type 0 where
  valid : IsValid q
  start : q.memory_start ≡ p.memory_start
  total : q.total_pages ≡ p.total_pages

module _ {p : Pmm} (v : IsValid p) (i : ℕ) (h : i < p.total_pages) where
  release-Kept : Kept p (release p i)
  release-Kept = elim (ℕ_discrete (bitmap_test p i) 0) [
    | yes f ↦ rw (release_free p i f) (record { valid = v; start = refl; total = refl })
    | no t ↦
        let f = release-Freed v i h t in
        record { valid = f.valid; start = f.same_start; total = f.same_total }
  ]

  release-Marks : Marks p i 0 (release p i)
  release-Marks j = elim (ℕ_discrete (bitmap_test p i) 0) [
    | yes f ↦ rw (release_free p i f) (ground arith)
    | no t ↦ (release-Freed v i h t).marks j
  ]

-- `q` is `p` with the pages from `s` on, `n` of them, free.
pub record FreedRun (p : Pmm) (s n : ℕ) (q : Pmm) : Type 0 where
  pub freed : FreeRun q s n
  pub kept : (j : ℕ) → (j < s) ⊎ (s + n ≤ j) → bitmap_test q j ≡ bitmap_test p j
  pub valid : IsValid q
  pub same_start : q.memory_start ≡ p.memory_start
  pub same_total : q.total_pages ≡ p.total_pages

FreedRun-cons :
    {p : Pmm}
    → IsValid p
    → (s n : ℕ) (r : Pmm) → s < p.total_pages
    → FreedRun (release p s) (s + 1) n r
    → FreedRun p s (suc n) r
FreedRun-cons {p} v s n r h f =
    let k = release-Kept v s h in
    let m : Marks p s 0 (release p s) = release-Marks v s h in
    record {
      freed = λ j l o. elim (dec_lt s j) [
        | yes x ↦ f.freed j (omega arith) (omega arith)
        | no x ↦ ground (arith, f.kept j (inl (omega arith)), m j)
      ];
      kept = λ j out. ground (arith, f.kept j, m j);
      valid = f.valid;
      same_start = f.same_start ∙ k.start;
      same_total = f.same_total ∙ k.total;
    }

release_range-FreedRun :
    (n s : ℕ) {p : Pmm} → IsValid p → s + n ≤ p.total_pages → FreedRun p s n (release_range n s p)
unfolding release_range
release_range-FreedRun zero s v h = record {
  freed = λ j l o. absurd (omega arith);
  kept = λ j o. refl;
  valid = v;
  same_start = refl;
  same_total = refl;
}
release_range-FreedRun (suc n) s {p} v h =
    let k = release-Kept v s (omega arith) in
    FreedRun-cons v s n (release_range n (s + 1) (release p s)) (omega arith)
      (release_range-FreedRun n (s + 1) k.valid (rw k.total (omega arith)))

-- How many pages `pmm_free_blocks` gives back: `count`, but none past the last page.
abbrev pub clipped : Pmm → ℕ → ℕ → ℕ
clipped p i count = min count (p.total_pages - i)

free_blocks_inside :
    {p : Pmm}
    → IsValid p
    → (i off count : ℕ) → i < p.total_pages
    → off < page_size
    → 0 < count
    → i + count < word
    → free_blocks (p.memory_start + i * page_size + off) count p
      ≡ release_range (clipped p i count) i p
unfolding free_blocks
free_blocks_inside {p} v i off count h o pos small =
    let addr = p.memory_start + i * page_size + off in
    let k : page_index p addr ≡ i = omega arith in
    let below : i * page_size + page_size ≤ p.total_pages * page_size = omega arith in
    let c : clip p i count ≡ clipped p i count = ground (arith, v.fits, v.not_null) in
    ground (arith, k, c, v.fits, v.not_null)

-- On a valid allocator, for a pointer to the page `i` and a count that does not wrap, all pages of
-- the range that lie in the memory are free afterwards, whether they were taken or not, every other
-- page keeps its mark, and the invariant holds, so the counter rises by the pages that were taken.
pub free_blocks_lem :
    {p : Pmm} (i off count : ℕ)
    → IsValid p
    → i < p.total_pages
    → off < page_size
    → 0 < count
    → i + count < word
    → FreedRun p i (clipped p i count) (free_blocks (p.memory_start + i * page_size + off) count p)
free_blocks_lem {p} i off count v h o pos small =
    rw (free_blocks_inside v i off count h o pos small)
      (release_range-FreedRun (clipped p i count) i v (omega arith))
