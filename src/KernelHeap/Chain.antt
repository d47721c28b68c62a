-- ===== src/KernelHeap/Chain.antt =====
-- What must hold of a page of the kernel heap: it is a list of blocks, one behind the other up to the
-- end of the page, each with a header that names its neighbours.
use myunixlikeos.Common.{
  ℕ, ◌+◌, ◌%◌, ◌<◌, ◌≤◌, ◌≡◌, Bool, true, false, List, [], ◌∷◌, ◌++◌, refl, arith,
}
use myunixlikeos.KernelHeap.{Memory, block_magic, page_magic, heap_start, heap_end}

pub record Block : Type 0 where
  pub size : ℕ
  pub free : Bool

abbrev pub flag : Bool → ℕ
flag true = 1
flag false = 0

pub record Header (m : Memory) (page_of before a : ℕ) (b : Block) (behind : ℕ) : Type 0 where
  pub magic : m a ≡ block_magic
  pub size : m (a + 4) ≡ b.size
  pub next : m (a + 8) ≡ behind
  pub prev : m (a + 12) ≡ before
  pub free : m (a + 16) ≡ flag b.free
  pub page : m (a + 20) ≡ page_of
  pub positive : 0 < b.size
  pub aligned : b.size % 8 ≡ 0

-- Where a block stands, or NULL if there is none.
abbrev pub link : ℕ → List Block → ℕ
link a [] = 0
link a (b ∷ bs) = a

-- The blocks from address `a` to the end of the page.
abbrev pub Chain : Memory → (page prev a : ℕ) → List Block → Type 0
Chain m page prev a [] = a ≡ page + 4096
Chain m page prev a (b ∷ bs) =
    Header m page prev a b (link (a + 24 + b.size) bs) × Chain m page a (a + 24 + b.size) bs

-- Blocks from address `a` on that have a block behind them, where that is, and the last of them.
abbrev pub Segment : Memory → (page prev a : ℕ) → List Block → Type 0
Segment m page prev a [] = Unit
Segment m page prev a (b ∷ bs) =
    Header m page prev a b (a + 24 + b.size) × Segment m page a (a + 24 + b.size) bs

abbrev pub end_of : ℕ → List Block → ℕ
end_of a [] = a
end_of a (b ∷ bs) = end_of (a + 24 + b.size) bs

abbrev pub last_of : (prev a : ℕ) → List Block → ℕ
last_of prev a [] = prev
last_of prev a (b ∷ bs) = last_of a (a + 24 + b.size) bs

-- The two memories agree from `lo` up to `hi`.
abbrev pub Same : Memory → Memory → (lo hi : ℕ) → Type 0
Same m m' lo hi = (x : ℕ) → lo ≤ x → x < hi → m' x ≡ m x

pub Header-Same :
    {m m' : Memory} {page prev a next : ℕ} {b : Block}
    → Same m m' a (a + 24)
    → Header m page prev a b next
    → Header m' page prev a b next
Header-Same {a = a} s h =
    ground (arith, s a, s (a + 4), s (a + 8), s (a + 12), s (a + 16), s (a + 20))

pub Chain-le :
    (m : Memory) (page prev a : ℕ) (bs : List Block) → Chain m page prev a bs → a ≤ page + 4096
Chain-le m page prev a [] h = omega arith
Chain-le m page prev a (b ∷ bs) h = omega (arith, Chain-le m page a (a + 24 + b.size) bs h.1)

pub Chain-Same :
    {m m' : Memory} (page prev a : ℕ) (bs : List Block)
    → Same m m' a (page + 4096)
    → Chain m page prev a bs
    → Chain m' page prev a bs
Chain-Same page prev a [] s h = h
Chain-Same {m} {m'} page prev a (b ∷ bs) s h =
    let le = Chain-le m page a (a + 24 + b.size) bs h.1 in
    (
      Header-Same (λ x l u. s x l (omega arith)) h.0,
      Chain-Same page a (a + 24 + b.size) bs (λ x l u. s x (omega arith) u) h.1,
    )

pub end_of-ge : (a : ℕ) (bs : List Block) → a ≤ end_of a bs
end_of-ge a [] = omega arith
end_of-ge a (b ∷ bs) = omega (arith, end_of-ge (a + 24 + b.size) bs)

pub Segment-Same :
    {m m' : Memory} (page prev a : ℕ) (bs : List Block)
    → Same m m' a (end_of a bs)
    → Segment m page prev a bs
    → Segment m' page prev a bs
Segment-Same page prev a [] s h = h
Segment-Same {m} {m'} page prev a (b ∷ bs) s h =
    let le = end_of-ge (a + 24 + b.size) bs in
    (
      Header-Same (λ x l u. s x l (omega arith)) h.0,
      Segment-Same page a (a + 24 + b.size) bs (λ x l u. s x (omega arith) u) h.1,
    )

link-append : (a : ℕ) (bs : List Block) (c : Block) (cs : List Block) → link a (bs ++ c ∷ cs) ≡ a
link-append a [] c cs = refl
link-append a (b ∷ bs) c cs = refl

-- The blocks before one, and those from it on, are the blocks of the page.
pub Chain-join :
    (m : Memory) (page prev a : ℕ) (bs : List Block) (c : Block) (cs : List Block)
    → Segment m page prev a bs
    → Chain m page (last_of prev a bs) (end_of a bs) (c ∷ cs)
    → Chain m page prev a (bs ++ c ∷ cs)
Chain-join m page prev a [] c cs s h = h
Chain-join m page prev a (b ∷ bs) c cs s h = (
  rw (link-append (a + 24 + b.size) bs c cs) s.0,
  Chain-join m page a (a + 24 + b.size) bs c cs s.1 h,
)

pub Chain-split :
    (m : Memory) (page prev a : ℕ) (bs : List Block) (c : Block) (cs : List Block)
    → Chain m page prev a (bs ++ c ∷ cs)
    → Segment m page prev a bs × Chain m page (last_of prev a bs) (end_of a bs) (c ∷ cs)
Chain-split m page prev a [] c cs h = (tt, h)
Chain-split m page prev a (b ∷ bs) c cs h =
    let (s, k) = Chain-split m page a (a + 24 + b.size) bs c cs h.1 in
    ((rw (link-append (a + 24 + b.size) bs c cs) at h.0, s), k)

-- A page of the heap that holds the blocks `bs`.
pub record IsHeapPage (m : Memory) (page : ℕ) (bs : List Block) : Type 0 where
  pub magic : m page ≡ page_magic
  pub virt : m (page + 8) ≡ page
  pub first : m (page + 20) ≡ page + 24
  pub from : heap_start ≤ page
  pub to : page + 4096 ≤ heap_end
  pub aligned : page % 8 ≡ 0
  pub chain : Chain m page 0 (page + 24) bs

-- What changes no more than the blocks keeps the page's own header.
pub IsHeapPage-Same :
    {m m' : Memory} {page : ℕ} {bs bs' : List Block}
    → IsHeapPage m page bs
    → Same m m' page (page + 24)
    → Chain m' page 0 (page + 24) bs'
    → IsHeapPage m' page bs'
IsHeapPage-Same {page = page} p s c = record {
  magic = ground (arith, s page, p.magic);
  virt = ground (arith, s (page + 8), p.virt);
  first = ground (arith, s (page + 20), p.first);
  from = p.from;
  to = p.to;
  aligned = p.aligned;
  chain = c;
}
