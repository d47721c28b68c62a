-- ===== src/KernelHeap/Settle.antt =====
-- The two steps of kfree on a chain of blocks: the block with the one behind, then the one before it
-- with both.
use myunixlikeos.Common.{
  subst, sym, sym, ℕ, ◌+◌, ◌<◌, ◌≤◌, ◌≡◌, ◌≢◌, ◌==◌, true, false, List, [], ◌∷◌, refl, sym, arith,
  if◌then◌else◌, ◌∙◌, Bool,
}
use myunixlikeos.KernelHeap.{
  Memory, next_at, prev_at, heap_start, heap_end, put_word, merge_next, merge_prev, is_free,
  release_block,
}
use myunixlikeos.KernelHeap.Chain.{Block, Chain, Chain-Same, Header-Same}
use myunixlikeos.KernelHeap.Release.{joined, merge_next-Chain, merge_next-before, put_far}

abbrev pub freed : Block → Block
freed b = record { size = b.size; free = true }

-- A block with the one behind it, if that is free.
abbrev pub take_in : Block → List Block → List Block
take_in b [] = b ∷ []
take_in b (c ∷ cs) = if c.free then joined b c ∷ cs else b ∷ c ∷ cs

abbrev pub settle_blocks : Block → List Block → List Block
settle_blocks q [] = q ∷ []
settle_blocks q (x ∷ xs) = if q.free then joined q x ∷ xs else q ∷ x ∷ xs

-- The blocks of a page when `b`, which stands between `bs` and `cs`, becomes free.
abbrev pub release_blocks : List Block → Block → List Block → List Block
release_blocks [] b cs = take_in (freed b) cs
release_blocks (q ∷ []) b cs = settle_blocks q (take_in (freed b) cs)
release_blocks (q ∷ r ∷ bs) b cs = q ∷ release_blocks (r ∷ bs) b cs

-- The first part of the function, up to the block behind.
abbrev pub freed_memory : Memory → ℕ → Memory
freed_memory m a =
    let m1 = put_word m (a + 16) 1 in if is_free m1 (next_at m1 a) then merge_next m1 a else m1

module _ (page prev a : ℕ) (b : Block) (from : heap_start ≤ page) (to : page + 4096 ≤ heap_end)
    (lo : page ≤ a) where
  freed_Chain :
      (m : Memory) (cs : List Block)
      → Chain m page prev a (b ∷ cs)
      → Chain (put_word m (a + 16) 1) page prev a (freed b ∷ cs)
  freed_Chain m cs h = (
    ground arith,
    Chain-Same page a (a + 24 + b.size) cs
        (λ x l u. put_far m (a + 16) 1 x (λ e. absurd (omega arith))) h.1,
  )

  link_is_free :
      (m : Memory) (b : Block) (c : Block) (cs : List Block)
      → Chain m page prev a (b ∷ c ∷ cs)
      → is_free m (next_at m a) ≡ c.free
  link_is_free m b c cs h = rw (h.0.next) (ground (arith, h.1.0.free))

  merged_Chain :
      (m : Memory) (b : Block) (cs : List Block)
      → Chain m page prev a (b ∷ cs)
      → Chain (if is_free m (next_at m a) then merge_next m a else m) page prev a (take_in b cs)
        × ((x : ℕ) → x < a → (if is_free m (next_at m a) then merge_next m a else m) x ≡ m x)
  merged_Chain m b [] h = rw (h.0.next) (h, λ x l. refl)
  merged_Chain m b (c ∷ cs) h = rw (link_is_free m b c cs h) (chosen c.free)
    where
      chosen :
          (t : Bool)
          → Chain
              (if t then merge_next m a else m)
              page
              prev
              a
              (if t then joined b c ∷ cs else b ∷ c ∷ cs)
            × ((x : ℕ) → x < a → (if t then merge_next m a else m) x ≡ m x)
      chosen true = (
        merge_next-Chain m page prev a b c from to lo cs h,
        merge_next-before m page prev a b c from to lo cs h,
      )
      chosen false = (h, λ x l. refl)

  pub taken_in :
      (m : Memory) (cs : List Block)
      → Chain m page prev a (b ∷ cs)
      → Chain (freed_memory m a) page prev a (take_in (freed b) cs)
        × ((x : ℕ) → x < a → freed_memory m a x ≡ m x)
  taken_in m cs h =
      let (c, k) = merged_Chain (put_word m (a + 16) 1) (freed b) cs (freed_Chain m cs h) in
      (c, λ x l. k x l ∙ put_far m (a + 16) 1 x (λ e. absurd (omega arith)))

-- The last part is the same step at the block before.
merge_prev-merge_next :
    (m : Memory) (p a : ℕ)
    → next_at m p ≡ a
    → prev_at m a ≡ p
    → p + 24 ≤ a
    → p ≢ 0
    → merge_prev m a ≡ merge_next m p
unfolding merge_prev merge_next
merge_prev-merge_next m p a e f l nz =
    let x1 : (p + 4 == a + 8) ≡ false = ground arith in
    let x2 : (p + 8 == a + 8) ≡ false = ground arith in
    let x3 : (p + 4 == a + 12) ≡ false = ground arith in
    let x4 : (p + 8 == a + 12) ≡ false = ground arith in
    let x5 : (p + 8 == p + 8) ≡ true = ground arith in rw (f, e, x1, x2, x3, x4, x5) refl

pub last_step : Memory → ℕ → Memory
last_step m a = if is_free m (prev_at m a) then merge_prev m a else m

pub release_block-eq : (m : Memory) (a : ℕ) → release_block m a ≡ last_step (freed_memory m a) a
unfolding release_block last_step
release_block-eq m a = refl

pub take_in-cons :
    (b : Block) (cs : List Block) → (x : Block) × (xs : List Block) × (take_in b cs ≡ x ∷ xs)
take_in-cons b [] = (b, [], refl)
take_in-cons b (c ∷ cs) = chosen c.free
  where
    chosen :
        (t : Bool)
        → (x : Block) × (xs : List Block) × ((if t then joined b c ∷ cs else b ∷ c ∷ cs) ≡ x ∷ xs)
    chosen true = (joined b c, cs, refl)
    chosen false = (b, c ∷ cs, refl)

module _ (page prev p : ℕ) (q : Block) (from : heap_start ≤ page) (to : page + 4096 ≤ heap_end)
    (lo : page ≤ p) where
  settled :
      (m : Memory) (x : Block) (xs : List Block)
      → Chain m page prev p (q ∷ x ∷ xs)
      → Chain (last_step m (p + 24 + q.size)) page prev p (settle_blocks q (x ∷ xs))
        × ((y : ℕ) → y < p → last_step m (p + 24 + q.size) y ≡ m y)
  unfolding last_step
  settled m x xs h = rw (h.1.0.prev, same_test) (chosen q.free)
    where
      same_test : is_free m p ≡ q.free
      same_test = ground (arith, h.0.free)

      same_merge : merge_prev m (p + 24 + q.size) ≡ merge_next m p
      same_merge =
          merge_prev-merge_next m p (p + 24 + q.size) h.0.next h.1.0.prev (omega arith)
            (λ e. absurd (omega arith))

      chosen :
          (t : Bool)
          → Chain
              (if t then merge_prev m (p + 24 + q.size) else m)
              page
              prev
              p
              (if t then joined q x ∷ xs else q ∷ x ∷ xs)
            × ((y : ℕ) → y < p → (if t then merge_prev m (p + 24 + q.size) else m) y ≡ m y)
      chosen true =
          subst (λ w. Chain w page prev p (joined q x ∷ xs) × ((y : ℕ) → y < p → w y ≡ m y))
            (sym same_merge)
            (
              merge_next-Chain m page prev p q x from to lo xs h,
              merge_next-before m page prev p q x from to lo xs h,
            )
      chosen false = (h, λ y l. refl)

  pub released_after :
      (m : Memory) (b : Block) (cs : List Block)
      → Chain m page prev p (q ∷ b ∷ cs)
      → Chain
          (release_block m (p + 24 + q.size))
          page
          prev
          p
          (settle_blocks q (take_in (freed b) cs))
        × ((y : ℕ) → y < p → release_block m (p + 24 + q.size) y ≡ m y)
  released_after m b cs h =
      let a = p + 24 + q.size in
      let (c, k) = taken_in page p a b from to (omega arith) m cs h.1 in
      let (x, xs, e) = take_in-cons (freed b) cs in
      let head = Header-Same {a = p} (λ y l u. k y (omega arith)) h.0 in
      let (r, s) = settled (freed_memory m a) x xs (head, rw e at c) in
      rw (release_block-eq m a, e) (r, λ y l. s y l ∙ k y (omega arith))

pub last_step_first : (m : Memory) (a : ℕ) → prev_at m a ≡ 0 → last_step m a ≡ m
unfolding last_step
last_step_first m a e = rw e refl
