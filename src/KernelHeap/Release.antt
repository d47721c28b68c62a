-- ===== src/KernelHeap/Release.antt =====
-- What kfree makes of the blocks of a page: the block is free, and one with its free neighbours.
use myunixlikeos.Common.{
  ℕ, ◌+◌, ◌≤◌, List, [], ◌∷◌, arith, ◌<◌, ◌≡◌, false, refl, true, ◌%◌, ◌==◌, ◌^◌, inl, inr, ◌⊎◌,
  ◌≢◌,
}
use myunixlikeos.KernelHeap.{Memory, heap_start, heap_end, merge_next, put_prev, put_word}
use myunixlikeos.KernelHeap.Chain.{Block, Chain, Chain-le, Chain-Same, Header, link, Header-Same}

abbrev pub joined : Block → Block → Block
joined b c = record { size = b.size + (24 + c.size); free = b.free }

pub put_far : (m : Memory) (x v y : ℕ) → x ≢ y → put_word m x v y ≡ m y
put_far m x v y h = ground arith

-- A word that lies in no field of a header.
Header-put :
    {m : Memory} {page prev a next : ℕ} {b : Block} (x v : ℕ)
    → (x < a) ⊎ (a + 24 ≤ x)
    → Header m page prev a b next
    → Header (put_word m x v) page prev a b next
Header-put {m} {a = a} x v (inl l) h =
    Header-Same {a = a} (λ y lo hi. put_far m x v y (λ e. absurd (omega arith))) h
Header-put {m} {a = a} x v (inr l) h =
    Header-Same {a = a} (λ y lo hi. put_far m x v y (λ e. absurd (omega arith))) h

pub resized :
    {m : Memory} {page prev a next : ℕ} {b : Block} (c : Block) (behind : ℕ)
    → Header m page prev a b next
    → c.size % 8 ≡ 0
    → Header
        (put_word (put_word m (a + 4) (b.size + (24 + c.size))) (a + 8) behind)
        page
        prev
        a
        (joined b c)
        behind
resized c behind h al = ground arith

relinked :
    {m : Memory} {page prev a next : ℕ} {b : Block} (before : ℕ)
    → Header m page prev a b next
    → Header (put_word m (a + 12) before) page before a b next
relinked before h = ground arith

module _ (m : Memory) (page prev a : ℕ) (b c : Block) (from : heap_start ≤ page)
    (to : page + 4096 ≤ heap_end) (lo : page ≤ a) where
  -- Where the block behind the two stands.
  behind_both : a + 24 + (b.size + (24 + c.size)) ≡ a + 24 + b.size + 24 + c.size
  behind_both = omega arith

  room :
      (cs : List Block)
      → Chain m page prev a (b ∷ c ∷ cs)
      → a + 24 + b.size + 24 + c.size ≤ page + 4096
  room cs h = Chain-le m page (a + 24 + b.size) (a + 24 + b.size + 24 + c.size) cs h.1.1

  -- The two words that merging changes, and the third if there is a block behind both.
  abbrev joined_memory : ℕ → Memory
  joined_memory behind = put_word (put_word m (a + 4) (b.size + (24 + c.size))) (a + 8) behind

  merged_memory :
      (cs : List Block)
      → Chain m page prev a (b ∷ c ∷ cs)
      → merge_next m a
        ≡ put_prev
            (joined_memory (link (a + 24 + b.size + 24 + c.size) cs))
            (link (a + 24 + b.size + 24 + c.size) cs)
            a
  unfolding merge_next
  merged_memory cs h =
      let le = room cs h in
      let sum : (b.size + (24 + c.size) % 2 ^ 32) % 2 ^ 32 ≡ b.size + (24 + c.size) = omega arith in
      let apart : (a + 4 == a + 24 + b.size + 8) ≡ false = ground arith in
      let same : (a + 8 == a + 8) ≡ true = ground arith in
      rw (h.0.next, h.0.size, h.1.0.size, sum, apart, h.1.0.next, same) refl

  joined-Header :
      (cs : List Block)
      → Chain m page prev a (b ∷ c ∷ cs)
      → Header (merge_next m a) page prev a (joined b c) (link (a + 24 + b.size + 24 + c.size) cs)
  joined-Header [] h = rw (merged_memory [] h) (resized c 0 h.0 h.1.0.aligned)
  joined-Header (d ∷ ds) h =
      let nonzero : (a + 24 + b.size + 24 + c.size == 0) ≡ false = ground arith in
      rw (merged_memory (d ∷ ds) h, nonzero)
        (Header-put (a + 24 + b.size + 24 + c.size + 12) a (inr (omega arith))
          (resized c (a + 24 + b.size + 24 + c.size) h.0 h.1.0.aligned))

  behind-Header :
      (d : Block) (ds : List Block)
      → Chain m page prev a (b ∷ c ∷ d ∷ ds)
      → Header
          (merge_next m a)
          page
          a
          (a + 24 + b.size + 24 + c.size)
          d
          (link (a + 24 + b.size + 24 + c.size + 24 + d.size) ds)
  behind-Header d ds h =
      let n2 = a + 24 + b.size + 24 + c.size in
      let nonzero : (a + 24 + b.size + 24 + c.size == 0) ≡ false = ground arith in
      rw (merged_memory (d ∷ ds) h, nonzero)
        (relinked a (
          Header-put (a + 8) n2 (inl (omega arith))
            (Header-put (a + 4) (b.size + (24 + c.size)) (inl (omega arith)) h.1.1.0)))

  far_same :
      (d : Block) (ds : List Block)
      → Chain m page prev a (b ∷ c ∷ d ∷ ds)
      → (x : ℕ) → a + 24 + b.size + 24 + c.size + 24 ≤ x
      → merge_next m a x ≡ m x
  unfolding merge_next
  far_same d ds h x lo = ground (arith, room (d ∷ ds) h)

  pub merge_next-before :
      (cs : List Block)
      → Chain m page prev a (b ∷ c ∷ cs)
      → (x : ℕ) → x < a
      → merge_next m a x ≡ m x
  unfolding merge_next
  merge_next-before [] h x lt = ground (arith, room [] h)
  merge_next-before (d ∷ ds) h x lt = ground (arith, room (d ∷ ds) h)

  -- A block takes in the one behind it.
  pub merge_next-Chain :
      (cs : List Block)
      → Chain m page prev a (b ∷ c ∷ cs)
      → Chain (merge_next m a) page prev a (joined b c ∷ cs)
  merge_next-Chain [] h = (joined-Header [] h, omega (arith, h.1.1))
  merge_next-Chain (d ∷ ds) h =
      let n2 = a + 24 + b.size + 24 + c.size in
      rw behind_both (
        joined-Header (d ∷ ds) h,
        (
          behind-Header d ds h,
          Chain-Same page n2 (n2 + 24 + d.size) ds (λ x l u. far_same d ds h x (omega arith))
              h.1.1.1,
        ),
      )
