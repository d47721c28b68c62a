-- ===== src/Pmm/Scan.antt =====
-- The scan of `pmm_alloc_blocks` of kernel/kernel.c for a run of free pages.
use myunixlikeos.Common.{
  ℕ, Bool-cases, Option, arith, dec_lt, inl, inr, none, some, suc, zero, ◌+◌, ◌<◌, ◌==◌, ◌≡◌, ◌≢◌,
  ◌≤◌, if◌then◌else◌, leb, refl,
}
use myunixlikeos.Pmm.{Pmm, bitmap_test, find_run}

-- The pages from `s` on, `n` of them, are free.
abbrev pub FreeRun : Pmm → ℕ → ℕ → Type 0
FreeRun p s n = (j : ℕ) → s ≤ j → j < s + n → bitmap_test p j ≡ 0

-- Before page `i` the scan has seen `free` free pages in a row, from `low` on, too few.
pub record Scan (p : Pmm) (count i low start free : ℕ) : Type 0 where
  pub few : free < count
  pub seen : low + free ≡ i
  pub run : FreeRun p low free
  pub starts : free ≢ 0 → start ≡ low

-- What the scan answers: a run inside the pages, or that no run of `count` pages fits.
abbrev pub Answer : Pmm → ℕ → ℕ → ℕ → Option ℕ → Type 0
Answer p count low high (some s) = (s + count ≤ high) × FreeRun p s count
Answer p count low high none = (s : ℕ) → low ≤ s → s + count ≤ high → ¬ FreeRun p s count

FreeRun-suc :
    (p : Pmm) (s n i : ℕ) → s + n ≡ i → FreeRun p s n → bitmap_test p i ≡ 0 → FreeRun p s (n + 1)
FreeRun-suc p s n i e run f j low high = elim (dec_lt j i) [
  | yes l ↦ run j low (omega arith)
  | no l ↦ let e : j ≡ i = omega arith in rw e f
]

module _ {p : Pmm} {count i low start free : ℕ} (t : Scan p count i low start free) where
  Answer-after_used :
      (high : ℕ) (r : Option ℕ)
      → bitmap_test p i ≢ 0
      → Answer p count (i + 1) high r
      → Answer p count low high r
  Answer-after_used high (some s) used a = a
  Answer-after_used high none used a = λ s l fits run. elim (dec_lt i s) [
    | yes later ↦ a s (omega arith) fits run
    | no here ↦ used (run i (omega (arith, t.few, t.seen)) (omega (arith, t.few, t.seen)))
  ]

  -- where the run starts, once page `i` is free too
  abbrev first : ℕ
  first = if free == 0 then i else start

  first-low : first ≡ low
  first-low = ground (arith, t.seen, t.starts)

  Scan-after_free :
      bitmap_test p i ≡ 0 → free + 1 < count → Scan p count (i + 1) low first (free + 1)
  Scan-after_free f few = record {
    few = few;
    seen = omega (arith, t.seen);
    run = FreeRun-suc p low free i t.seen t.run f;
    starts = λ _. first-low;
  }

  Answer-found :
      (high : ℕ)
      → bitmap_test p i ≡ 0
      → i < high
      → count ≤ free + 1
      → Answer p count low high (some first)
  Answer-found high f h enough =
      let e : count ≡ free + 1 = omega (arith, t.few) in
      rw first-low (omega (arith, t.seen), rw e (FreeRun-suc p low free i t.seen t.run f))

pub Scan-after_used : (p : Pmm) (count i start : ℕ) → 0 < count → Scan p count i i start 0
Scan-after_used p count i start h = record {
  few = h;
  seen = omega arith;
  run = λ j l k. absurd (omega arith);
  starts = λ ne. absurd (ne refl);
}

pub find_run-Answer :
    (p : Pmm) (count n i low start free high : ℕ)
    → i + n ≡ high
    → Scan p count i low start free
    → Answer p count low high (find_run count n i start free p)
unfolding find_run
find_run-Answer p count zero i low start free high e t =
    λ s l fits run. omega (arith, t.few, t.seen)
find_run-Answer p count (suc n) i low start free high e t =
    elim (Bool-cases (bitmap_test p i == 0)) [
      | inl f ↦ rw f (elim (Bool-cases (leb count (free + 1))) [
        | inl enough ↦ rw enough (Answer-found t high (ground arith) (omega arith) (ground arith))
        | inr more ↦ rw more (
            find_run-Answer p count n (i + 1) low (first t) (free + 1) high (omega arith)
              (Scan-after_free t (ground arith) (ground arith)))
      ])
      | inr u ↦ rw u (
          Answer-after_used t high (find_run count n (i + 1) start 0 p) (ground arith) (
            find_run-Answer p count n (i + 1) (i + 1) start 0 high (omega arith)
              (Scan-after_used p count (i + 1) start (omega (arith, t.few)))))
    ]
