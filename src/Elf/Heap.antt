-- ===== src/Elf/Heap.antt =====
-- The heap of the user program in kernel/elf.c: user_heap_init, user_sbrk and user_brk. A pointer is
-- its address, and an increment is the word that stands for it.
use myunixlikeos.Common.{
  ℕ, Bool, bit_and, false, if◌then◌else◌, ltb, none, not, some, suc, true, zero, ◌%◌, ◌*◌, ◌+◌, ◌-◌,
  ◌/◌, ◌==◌, ◌^◌, ◌||◌, ◌≡◌, ◌≤◌, ◌⊎◌, Bool-cases, arith, inl, inr, refl, ◌<◌, ◌≢◌,
}
use myunixlikeos.Common.Int.{ℤ, negsuc, pos}
use myunixlikeos.Common.Words.{high_part}
use myunixlikeos.Elf.{user_base}
use myunixlikeos.Paging.{Paging, get_physical_address, map_page, unmap_page}
use myunixlikeos.Pmm.{alloc_page, free_page}

abbrev pub user_heap_limit : ℕ
user_heap_limit = 0xBFFFF000

-- `(void *)-1`
abbrev pub failed : ℕ
failed = 2 ^ 32 - 1

abbrev pub page_align_up : ℕ → ℕ
page_align_up a = bit_and ((a + 4095) % 2 ^ 32) 0xfffff000

pub record UserHeap : Type 0 where
  pub paging : Paging
  pub base : ℕ
  pub brk : ℕ
  pub initialized : Bool

unfoldable pub user_heap_init : ℕ → UserHeap → UserHeap
user_heap_init address h =
    let from = page_align_up address in
    let base = if ltb from user_base then user_base else from in
    record h { base = base; brk = base; initialized = true }

-- One page taken away from the user.
unfoldable pub release_page : ℕ → Paging → Paging
release_page addr p =
    let phys = get_physical_address addr p in
    if phys == 0 then p else (let q = unmap_page addr p in record q { pmm = free_page q.pmm phys })

-- `n` pages from `addr` on.
unfoldable pub release_pages : (n addr : ℕ) → Paging → Paging
unfolding release_page
release_pages zero addr p = p
release_pages (suc n) addr p = release_pages n (addr + 4096) (release_page addr p)

-- The loop with `n` pages left and `done` pages behind it; `false` is the return behind the roll back.
unfoldable pub grow : (n done start : ℕ) → Paging → Bool × Paging
unfolding release_pages
grow zero done start p = (true, p)
grow (suc n) done start p =
    let (a, pmm') = alloc_page p.pmm in
    let q = record p { pmm = pmm' } in
    elim a [
      | none ↦ (false, release_pages done start q)
      | some phys ↦ grow n (done + 1) start (map_page (start + done * 4096) phys 7 q)
    ]

-- How often the loops over `addr` from `start` up to `end` run.
abbrev pub rounds : (start end : ℕ) → ℕ
rounds start end = (end - start) / 4096

-- The change of the pages between two breaks, in the direction of the increment.
unfoldable pub move_pages : (increment old new : ℕ) → Paging → Bool × Paging
unfolding grow release_pages
move_pages increment old new p =
    if ltb increment (2 ^ 31)
    then grow (rounds (page_align_up old) (page_align_up new)) 0 (page_align_up old) p
    else (
      true,
      release_pages (rounds (page_align_up new) (page_align_up old)) (page_align_up new) p,
    )

abbrev pub set_break : ℕ → UserHeap → Bool × Paging → ℕ × UserHeap
set_break new h (false, p) = (failed, record h { paging = p })
set_break new h (true, p) = (h.brk, record h { paging = p; brk = new })

unfoldable pub user_sbrk : ℕ → UserHeap → ℕ × UserHeap
unfolding move_pages
user_sbrk increment h =
    let new = (h.brk + increment) % 2 ^ 32 in
    if not h.initialized
    then (failed, h)
    else if increment == 0
    then (h.brk, h)
    else if ltb new h.base || ltb user_heap_limit new
    then (failed, h)
    else set_break new h (move_pages increment h.brk new h.paging)

abbrev pub code_of : ℕ × UserHeap → ℤ × UserHeap
code_of (r, h) = (if r == failed then negsuc 0 else pos 0, h)

unfoldable pub user_brk : ℕ → UserHeap → ℤ × UserHeap
user_brk addr h =
    let target = if addr == 0 then h.brk else addr in
    if not h.initialized
    then (negsuc 0, h)
    else if ltb target h.base || ltb user_heap_limit target
    then (negsuc 0, h)
    else if ltb h.brk target || ltb target h.brk
    then code_of (user_sbrk ((target + 2 ^ 32 - h.brk) % 2 ^ 32) h)
    else (pos 0, h)

-- The heap of a program that fits below the stack.
pub record IsHeap (h : UserHeap) : Type 0 where
  pub started : h.initialized ≡ true
  pub from : user_base ≤ h.base
  pub above : h.base ≤ h.brk
  pub below : h.brk ≤ user_heap_limit

-- A call of sbrk that fails leaves the break alone.
pub record Failed (h : UserHeap) (r : ℕ × UserHeap) : Type 0 where
  pub result : r.0 ≡ failed
  pub same_brk : r.1.brk ≡ h.brk

pub record Moved (h : UserHeap) (increment : ℕ) (r : ℕ × UserHeap) : Type 0 where
  pub result : r.0 ≡ h.brk
  pub new_brk : r.1.brk ≡ (h.brk + increment) % 2 ^ 32

abbrev pub Breaks : UserHeap → ℕ → ℕ × UserHeap → Type 0
Breaks h increment r = IsHeap r.1 × (Failed h r ⊎ Moved h increment r)

module _ (increment : ℕ) {h : UserHeap} (g : IsHeap h) where
  failed-Breaks : (p : Paging) → Breaks h increment (failed, record h { paging = p })
  failed-Breaks p = (
    record { started = g.started; from = g.from; above = g.above; below = g.below },
    inl (record { result = refl; same_brk = refl }),
  )

  set_break-Breaks :
      (m : Bool × Paging)
      → h.base ≤ (h.brk + increment) % 2 ^ 32
      → (h.brk + increment) % 2 ^ 32 ≤ user_heap_limit
      → Breaks h increment (set_break ((h.brk + increment) % 2 ^ 32) h m)
  set_break-Breaks (false, p) lo hi = failed-Breaks p
  set_break-Breaks (true, p) lo hi = (
    record { started = g.started; from = g.from; above = lo; below = hi },
    inr (record { result = refl; new_brk = refl }),
  )

  stays-Breaks : increment ≡ 0 → Breaks h increment (h.brk, h)
  stays-Breaks e = (g, inr (record { result = refl; new_brk = omega (arith, e, g.below) }))

  -- For any increment, `user_sbrk` keeps the break between the base of the heap and the stack. It
  -- returns the old break and adds the increment to it, as words, or returns -1 and leaves it alone.
  pub user_sbrk_lem : Breaks h increment (user_sbrk increment h)
  unfolding user_sbrk
  user_sbrk_lem =
      let new = (h.brk + increment) % 2 ^ 32 in
      let on : not h.initialized ≡ false = ground (arith, g.started) in
      rw on (elim (Bool-cases (increment == 0)) [
        | inl none_asked ↦ rw none_asked (stays-Breaks (ground arith))
        | inr asked ↦ elim (Bool-cases (ltb new h.base || ltb user_heap_limit new)) [
          | inl out ↦ rw (asked, out) (failed-Breaks h.paging)
          | inr inside ↦
              rw (asked, inside)
                (set_break-Breaks (move_pages increment h.brk new h.paging) (ground arith)
                  (ground arith))
        ]
      ])

-- The result of `user_brk` for the break `target`.
abbrev pub SetsBreak : UserHeap → ℕ → ℤ × UserHeap → Type 0
SetsBreak h target (r, h') =
    IsHeap h' × (((r ≡ pos 0) × (h'.brk ≡ target)) ⊎ ((r ≡ negsuc 0) × (h'.brk ≡ h.brk)))

module _ {h : UserHeap} (g : IsHeap h) (addr : ℕ) (w : addr < 2 ^ 32) where
  code_of-SetsBreak :
      (increment target : ℕ) (r : ℕ × UserHeap)
      → (h.brk + increment) % 2 ^ 32 ≡ target
      → Breaks h increment r
      → SetsBreak h target (code_of r)
  code_of-SetsBreak increment target (r, h') e (g', inl f) =
      let t : (r == failed) ≡ true = ground (arith, f.result) in rw t (g', inr (refl, f.same_brk))
  code_of-SetsBreak increment target (r, h') e (g', inr m) =
      let t : (r == failed) ≡ false = ground (arith, m.result, g.below) in
      rw t (g', inl (refl, omega (arith, m.new_brk, e)))

  -- `user_brk` of an address sets the break to it and returns 0, or returns -1 and leaves the break
  -- alone; the break stays between the base of the heap and the stack.
  pub user_brk_lem : addr ≢ 0 → SetsBreak h addr (user_brk addr h)
  unfolding user_brk
  user_brk_lem ne =
      let on : not h.initialized ≡ false = ground (arith, g.started) in
      let given : (addr == 0) ≡ false = ground arith in
      rw (on, given)
        (elim (Bool-cases (ltb addr h.base || ltb user_heap_limit addr)) [
          | inl out ↦ rw out (g, inr (refl, refl))
          | inr inside ↦ elim (Bool-cases (ltb h.brk addr || ltb addr h.brk)) [
            | inl moves ↦
                rw (inside, moves)
                  (code_of-SetsBreak ((addr + 2 ^ 32 - h.brk) % 2 ^ 32) addr
                    (user_sbrk ((addr + 2 ^ 32 - h.brk) % 2 ^ 32) h) (omega (arith, g.below))
                    (user_sbrk_lem _ g))
            | inr same ↦ rw (inside, same) (g, inl (refl, ground arith))
          ]
        ])

  sbrk_far :
      h.brk + 2 ^ 31 ≤ addr
      → addr ≤ user_heap_limit
      → user_sbrk (addr - h.brk) h ≡ (h.brk, record h { brk = addr })
  unfolding user_sbrk move_pages release_pages
  sbrk_far far below =
      let new : (h.brk + (addr - h.brk)) % 2 ^ 32 ≡ addr = omega (arith, far, below) in
      let on : not h.initialized ≡ false = ground (arith, g.started) in
      let asked : (addr - h.brk == 0) ≡ false = ground arith in
      let inside : (ltb addr h.base || ltb user_heap_limit addr) ≡ false =
        ground (arith, g.above) in
      let negative : ltb (addr - h.brk) (2 ^ 31) ≡ false = ground arith in
      let none_down : rounds (page_align_up addr) (page_align_up h.brk) ≡ 0 = omega (
        arith,
        high_part ((addr + 4095) % 2 ^ 32) (omega arith),
        high_part ((h.brk + 4095) % 2 ^ 32) (omega arith),
      ) in
      rw (on, new, asked, inside, negative, none_down) refl

  -- An address at least 2 GB above the break: the difference is taken for a negative increment, so
  -- `user_brk` returns 0 and sets the break, but maps no page at all.
  pub user_brk_far :
      h.brk + 2 ^ 31 ≤ addr
      → addr ≤ user_heap_limit
      → user_brk addr h ≡ (pos 0, record h { brk = addr })
  unfolding user_brk
  user_brk_far far below =
      let diff : (addr + 2 ^ 32 - h.brk) % 2 ^ 32 ≡ addr - h.brk = omega (arith, far) in
      let on : not h.initialized ≡ false = ground (arith, g.started) in
      let given : (addr == 0) ≡ false = ground arith in
      let inside : (ltb addr h.base || ltb user_heap_limit addr) ≡ false =
        ground (arith, g.above) in
      let moves : (ltb h.brk addr || ltb addr h.brk) ≡ true = ground arith in
      let valid : (h.brk == failed) ≡ false = ground (arith, g.below) in
      rw (on, given, inside, moves, diff, sbrk_far far below, valid) refl
