-- ===== src/Pmm/Blocks.antt =====
-- `pmm_alloc_blocks` of kernel/kernel.c: taking a run of free pages.
use myunixlikeos.Pmm.Bitmap.{IsBitmap, bitmap_test-bitmap_set, bitmap_set-IsBitmap}
use myunixlikeos.Pmm.Marks.{
  SameShape, bitmap_set-SameShape, IsValid-of_shape, bitmap_test_of_available,
  free_count_of_available, IsBitmap-of_available,
}
use myunixlikeos.Pmm.Count.{IsValid, Marks, free_count, free_count-le, free_count_taken}
use myunixlikeos.Common.{
  ℕ, Bool-cases, Option, arith, dec_lt, inl, inr, none, some, suc, zero, ◌+◌, ◌<◌, ◌==◌, ◌≡◌, ◌≤◌,
  refl, ◌⊎◌, ◌∙◌, ◌*◌, ltb, true, ℕ_discrete, ◌||◌,
}
use myunixlikeos.Pmm.{
  Pmm, bitmap_test, find_run, bitmap_set, alloc_blocks, page_size, set_range, sub_word, take_run,
}
use myunixlikeos.Pmm.Scan.{FreeRun, Answer, Scan-after_used, find_run-Answer}

-- `q` is `p` with the pages from `s` on, `n` of them, taken.
pub record TookRun (p : Pmm) (s n : ℕ) (q : Pmm) : Type 0 where
  pub taken : (j : ℕ) → s ≤ j → j < s + n → bitmap_test q j ≡ 1
  pub kept : (j : ℕ) → (j < s) ⊎ (s + n ≤ j) → bitmap_test q j ≡ bitmap_test p j
  pub valid : IsValid q
  pub fewer : q.available + n ≡ p.available
  pub same_start : q.memory_start ≡ p.memory_start
  pub same_total : q.total_pages ≡ p.total_pages

-- `set_range` marks the pages one after another; the counter is left to the end.
pub record Marked (p : Pmm) (s n : ℕ) (q : Pmm) : Type 0 where
  pub taken : (j : ℕ) → s ≤ j → j < s + n → bitmap_test q j ≡ 1
  pub kept : (j : ℕ) → (j < s) ⊎ (s + n ≤ j) → bitmap_test q j ≡ bitmap_test p j
  pub bitmap : IsBitmap q
  pub shape : SameShape p q
  pub counter : q.available ≡ p.available
  pub count : (m : ℕ) → s + n ≤ m → FreeRun p s n → free_count q m + n ≡ free_count p m

module _ {p : Pmm} (b : IsBitmap p) where
  Marked-nil : (s : ℕ) → Marked p s 0 p
  Marked-nil s = record {
    taken = λ j l h. absurd (omega arith);
    kept = λ j h. refl;
    bitmap = b;
    shape = record { start = refl; total = refl; size = refl };
    counter = refl;
    count = λ m h run. omega arith;
  }

  Marked-cons :
      (s n : ℕ) (r : Pmm)
      → s < p.total_pages
      → Marked (bitmap_set p s) (s + 1) n r
      → Marked p s (suc n) r
  Marked-cons s n r h m =
      let q = bitmap_set p s in
      let mk : Marks p s 1 q = λ j. bitmap_test-bitmap_set b s j (omega (arith, b.covers)) in
      let (sh, e) = bitmap_set-SameShape p s in
      record {
        taken = λ j l k. elim (dec_lt s j) [
          | yes x ↦ m.taken j (omega arith) (omega arith)
          | no x ↦ ground (arith, m.kept j (inl (omega arith)), mk j)
        ];
        kept = λ j out. ground (arith, m.kept j, mk j);
        bitmap = m.bitmap;
        shape = record {
          start = m.shape.start ∙ sh.start;
          total = m.shape.total ∙ sh.total;
          size = m.shape.size ∙ sh.size;
        };
        counter = m.counter ∙ e;
        count = λ k fits run.
            let rest : FreeRun q (s + 1) n =
              λ j l o. ground (arith, mk j, run j (omega arith) (omega arith)) in
            let f = run s (omega arith) (omega arith) in
            omega (
              arith,
              m.count k (omega arith) rest,
              free_count_taken p q s 1 k (omega arith) f (omega arith) mk,
            );
      }

pub set_range-Marked :
    (n s : ℕ) {p : Pmm} → IsBitmap p → s + n ≤ p.total_pages → Marked p s n (set_range n s p)
unfolding set_range
set_range-Marked zero s b h = Marked-nil b s
set_range-Marked (suc n) s {p} b h =
    let (sh, _) = bitmap_set-SameShape p s in
    Marked-cons b s n (set_range n (s + 1) (bitmap_set p s)) (omega arith)
      (set_range-Marked n (s + 1) (bitmap_set-IsBitmap b s) (rw sh.total (omega arith)))

-- NULL leaves everything as it was and means that `count` is 0 or that no run of `count` free pages
-- exists; an address is that of the first page of such a run, which is then taken.
abbrev pub AllocatesBlocks : ℕ → Pmm → Option ℕ × Pmm → Type 0
AllocatesBlocks count p (none, q) =
    (q ≡ p) × ((count ≡ 0) ⊎ ((s : ℕ) → s + count ≤ p.total_pages → ¬ FreeRun p s count))
AllocatesBlocks count p (some a, q) =
    (s : ℕ) × (a ≡ p.memory_start + s * page_size)
    × (0 < count)
    × (s + count ≤ p.total_pages)
    × FreeRun p s count
    × TookRun p s count q

free_count_run : (p : Pmm) (s n m : ℕ) → s + n ≤ m → FreeRun p s n → n ≤ free_count p m
unfolding free_count
free_count_run p s n zero h run = omega arith
free_count_run p s zero (suc m) h run = omega arith
free_count_run p s (suc n) (suc m) h run = elim (dec_lt m (s + suc n)) [
  | yes last ↦
      let f = run m (omega arith) last in
      let i = free_count_run p s n m (omega arith) (λ j l k. run j l (omega arith)) in
      ground (arith, f, i)
  | no more ↦ omega (arith, free_count_run p s (suc n) m (omega arith) run)
]

module _ {p : Pmm} (v : IsValid p) (count s : ℕ) (fits : s + count ≤ p.total_pages)
    (run : FreeRun p s count) where
  take_run-TookRun : TookRun p s count (take_run count s p).1
  unfolding take_run
  take_run-TookRun =
      let q = set_range count s p in
      let m = set_range-Marked count s v.is_bitmap fits in
      let c = m.count p.total_pages fits run in
      let a = sub_word q.available count in
      let le = free_count-le p p.total_pages in
      let eq : a + count ≡ p.available =
        omega (arith, m.counter, c, v.counted, le, v.fits, v.not_null) in
      record {
        taken = λ j l h. bitmap_test_of_available q a j ∙ m.taken j l h;
        kept = λ j h. bitmap_test_of_available q a j ∙ m.kept j h;
        valid =
            IsValid-of_shape v (IsBitmap-of_available q a m.bitmap)
              (record { start = m.shape.start; total = m.shape.total; size = m.shape.size })
              (omega (arith, eq, c, v.counted, free_count_of_available q a p.total_pages));
        fewer = eq;
        same_start = m.shape.start;
        same_total = m.shape.total;
      }

  take_run-AllocatesBlocks : 0 < count → AllocatesBlocks count p (take_run count s p)
  unfolding take_run
  take_run-AllocatesBlocks pos = (s, omega (arith, fits, v.fits), pos, fits, run, take_run-TookRun)

AllocatesBlocks-of_Answer :
    {p : Pmm}
    → IsValid p
    → (count : ℕ) → 0 < count
    → (r : Option ℕ) → Answer p count 0 p.total_pages r
    → AllocatesBlocks count p (elim r [ none ↦ (none, p) | some s ↦ take_run count s p ])
AllocatesBlocks-of_Answer v count pos none no_run = (refl, inr (λ s. no_run s (omega arith)))
AllocatesBlocks-of_Answer v count pos (some s) (fits, run) =
    take_run-AllocatesBlocks v count s fits run pos

AllocatesBlocks_refused :
    {p : Pmm}
    → IsValid p
    → (count : ℕ) → (count == 0 || ltb p.available count) ≡ true
    → (count ≡ 0) ⊎ ((s : ℕ) → s + count ≤ p.total_pages → ¬ FreeRun p s count)
AllocatesBlocks_refused {p} v count t = elim (ℕ_discrete count 0) [
  | yes z ↦ inl z
  | no nz ↦
      let short : p.available < count = ground arith in
      inr (λ s fits run. omega (arith, free_count_run p s count p.total_pages fits run, v.counted))
]

-- On a valid allocator `pmm_alloc_blocks` finds a run of `count` free pages whenever there is one:
-- the address is that of its first page, exactly the pages of the run become taken, the counter
-- falls by `count` and the invariant holds. Otherwise, and at count 0, it returns NULL and changes
-- nothing.
pub alloc_blocks_lem :
    {p : Pmm} (count : ℕ) → IsValid p → AllocatesBlocks count p (alloc_blocks count p)
unfolding alloc_blocks
alloc_blocks_lem {p} count v = elim (Bool-cases (count == 0 || ltb p.available count)) [
  | inl t ↦ rw t (refl, AllocatesBlocks_refused v count t)
  | inr u ↦
      let pos : 0 < count = ground arith in
      rw u (
        AllocatesBlocks-of_Answer v count pos (find_run count p.total_pages 0 0 0 p) (
          find_run-Answer p count p.total_pages 0 0 0 0 p.total_pages (omega arith)
            (Scan-after_used p count 0 0 pos)))
]
