-- ===== src/Paging/Grow.antt =====
-- A new page table in the directory of kernel/kernel.c, at a page that was free.
use myunixlikeos.Paging.{Paging, base, is_present, put_table}
use myunixlikeos.Paging.Tables.{
  IsPaging, Blank, slot, OwnsPage, base_flags, present_flags, entry_at,
}
use myunixlikeos.Pmm.{Pmm, bitmap_test}
use myunixlikeos.Pmm.Marks.{Took}
use myunixlikeos.Common.{
  ℕ, ◌*◌, ◌+◌, ◌%◌, ◌<◌, ◌≡◌, ◌≢◌, ◌^◌, ◌==◌, if◌then◌else◌, set, length, true, arith, get_or-set,
  length-set, List, ℕ_discrete, refl, false, ◌∙◌, ◌≤◌, Bool-cases, get_or, inl, inr, sym, ◌/◌,
}

-- Taken pages stay taken, at most one more is taken, and the managed memory is the same.
pub record Grows (p q : Pmm) : Type 0 where
  pub stays : (j : ℕ) → bitmap_test p j ≢ 0 → bitmap_test q j ≢ 0
  pub start : q.memory_start ≡ p.memory_start
  pub total : q.total_pages ≡ p.total_pages
  pub no_more : q.available ≤ p.available
  pub at_most_one : p.available ≤ q.available + 1

pub Grows-of_Took : {p q : Pmm} {i : ℕ} → Took p i q → Grows p q
Grows-of_Took t = record {
  stays = λ j. ground (arith, t.marks j);
  start = t.same_start;
  total = t.same_total;
  no_more = omega (arith, t.one_less);
  at_most_one = omega (arith, t.one_less);
}

pub Grows-refl : (p : Pmm) → Grows p p
Grows-refl p = record {
  stays = λ j h. h;
  start = refl;
  total = refl;
  no_more = omega arith;
  at_most_one = omega arith;
}

-- Page `i` becomes the table of slot `d`, with the flags `f`.
module _ {p : Paging} (g : IsPaging p) {i : ℕ} {pmm' : Pmm} (t : Took p.pmm i pmm') (d : ℕ)
    (absent : is_present (slot p d) ≡ false) (in_directory : d < 1024) (table : List ℕ)
    (full : length table ≡ 1024) (f : ℕ) (odd : f % 2 ≡ 1) (small : f < 4096) where
  abbrev address : ℕ
  address = p.pmm.memory_start + i * 4096

  abbrev pub add_table : Paging
  add_table = record (put_table (record p { pmm = pmm' }) address table) {
    directory = set p.directory d (address + f);
  }

  fits : address + 4096 ≤ 2 ^ 32
  fits = omega (arith, t.in_range, g.valid.fits)

  slot_after : (j : ℕ) → slot add_table j ≡ (if d == j then address + f else slot p j)
  slot_after j = get_or-set p.directory d j (address + f) 0 (omega (arith, g.sized))

  slot_new : slot add_table d ≡ address + f
  slot_new = ground (arith, slot_after d)

  pub slot_old : (j : ℕ) → j ≢ d → slot add_table j ≡ slot p j
  slot_old j ne = ground (arith, slot_after j)

  base_new : base (address + f) ≡ address
  base_new = base_flags address f (omega (arith, g.aligned)) small (omega (arith, fits))

  present_new : is_present (address + f) ≡ true
  present_new = present_flags address f (omega (arith, g.aligned)) small (omega (arith, fits)) odd

  fresh : (a : ℕ) → OwnsPage p a → address ≢ a
  fresh a (j, at, _, taken) e = let same : j ≡ i = omega arith in taken (rw same t.was_free)

  -- A property of the slots, from the new one and the old ones.
  slots :
      (Q : ℕ → ℕ → Type 0)
      → Q d (address + f)
      → ((j : ℕ) → j ≢ d → Q j (slot p j))
      → (j : ℕ) → Q j (slot add_table j)
  slots Q new old j = elim (ℕ_discrete j d) [
    | yes same ↦ rw (same, slot_new) new
    | no ne ↦ rw (slot_old j ne) (old j ne)
  ]

  owned_after : (a : ℕ) → OwnsPage p a → OwnsPage add_table a
  owned_after a (j, at, inside, taken) =
      (j, omega (arith, t.same_start), omega (arith, t.same_total), ground (arith, t.marks j))

  new_table : add_table.table_at (base (address + f)) ≡ table
  new_table = rw base_new (ground arith)

  old_table : (a : ℕ) → address ≢ a → add_table.table_at a ≡ p.table_at a
  old_table a ne = ground arith

  tables_after :
      (j : ℕ)
      → is_present (slot add_table j) ≡ true
      → length (add_table.table_at (base (slot add_table j))) ≡ 1024
  tables_after =
      slots (λ j e. is_present e ≡ true → length (add_table.table_at (base e)) ≡ 1024)
        (λ h. rw new_table full)
        (λ j ne h. rw (old_table (base (slot p j)) (fresh _ (g.owned j h))) (g.tables j h))

  owned_new : is_present (address + f) ≡ true → OwnsPage add_table (base (address + f))
  owned_new h = rw base_new (
    i,
    omega (arith, t.same_start),
    omega (arith, t.in_range, t.same_total),
    ground (arith, t.marks i),
  )

  -- Another slot has another table.
  alone : (j : ℕ) → j ≢ d → is_present (slot p j) ≡ true → base (slot p j) ≢ base (address + f)
  alone j ne h e = fresh (base (slot p j)) (g.owned j h) (sym (e ∙ base_new))

  apart_after :
      (j k : ℕ)
      → is_present (slot add_table j) ≡ true
      → is_present (slot add_table k) ≡ true
      → base (slot add_table j) ≡ base (slot add_table k)
      → j ≡ k
  apart_after j k hj hk e = elim (ℕ_discrete j d) [
    | yes a ↦ elim (ℕ_discrete k d) [
      | yes b ↦ a ∙ sym b
      | no b ↦
          absurd (alone k b (rw (slot_old k b) at hk) (rw (a, slot_new, slot_old k b) at (sym e)))
    ]
    | no a ↦ elim (ℕ_discrete k d) [
      | yes b ↦ absurd (alone j a (rw (slot_old j a) at hj) (rw (b, slot_new, slot_old j a) at e))
      | no b ↦
          g.apart j k (rw (slot_old j a) at hj) (rw (slot_old k b) at hk)
            (rw (slot_old j a, slot_old k b) at e)
    ]
  ]

  still_free : (j : ℕ) → bitmap_test pmm' j ≡ 0 → (j ≢ i) × (bitmap_test p.pmm j ≡ 0)
  still_free j free = ground (arith, t.marks j)

  pub add_table-IsPaging : IsPaging add_table
  add_table-IsPaging = record {
    valid = t.valid;
    aligned = omega (arith, t.same_start, g.aligned);
    sized = length-set p.directory d (address + f) ∙ g.sized;
    words = slots (λ j e. e < 2 ^ 32) (omega (arith, fits)) (λ j ne. g.words j);
    tables = tables_after;
    owned =
        slots (λ j e. is_present e ≡ true → OwnsPage add_table (base e)) owned_new
          (λ j ne h. owned_after (base (slot p j)) (g.owned j h));
    blank = λ j h free.
        let (ne, was) = still_free j free in
        let other : address ≢ p.pmm.memory_start + j * 4096 = λ e. ne (omega arith) in
        rw (t.same_start, old_table (p.pmm.memory_start + j * 4096) other)
          (g.blank j (omega (arith, h, t.same_total)) was);
    apart = apart_after;
  }

  -- The entries of the new table are there, and the others are as they were.
  pub add_table-entry_at :
      (n : ℕ)
      → entry_at add_table n ≡ (if n / 1024 == d then get_or table (n % 1024) 0 else entry_at p n)
  unfolding entry_at
  add_table-entry_at n = elim (ℕ_discrete (n / 1024) d) [
    | yes same ↦ rw (same, slot_new, present_new, new_table) (ground arith)
    | no ne ↦
        let other : (n / 1024 == d) ≡ false = ground arith in
        rw (slot_old (n / 1024) ne, other)
          (elim (Bool-cases (is_present (slot p (n / 1024)))) [
            | inl h ↦
                rw (h, old_table (base (slot p (n / 1024))) (fresh _ (g.owned (n / 1024) h))) refl
            | inr off ↦ rw off refl
          ])
  ]

  pub add_table-is_present : is_present (slot add_table d) ≡ true
  add_table-is_present = rw slot_new present_new

  -- A table of zeros looks like no table.
  pub add_table_of_zeros :
      ((k : ℕ) → get_or table k 0 ≡ 0) → (n : ℕ) → entry_at add_table n ≡ entry_at p n
  unfolding entry_at
  add_table_of_zeros zeros n = elim (ℕ_discrete (n / 1024) d) [
    | yes same ↦ add_table-entry_at n ∙ rw (same, absent) (ground (arith, zeros (n % 1024)))
    | no ne ↦ ground (arith, add_table-entry_at n)
  ]

pub Took-Blank :
    {p q : Pmm} {i : ℕ} (tables : ℕ → List ℕ) → Took p i q → Blank p tables → Blank q tables
Took-Blank tables t blank = λ j h free.
    rw t.same_start (blank j (omega (arith, h, t.same_total)) (ground (arith, t.marks j)))

-- A page taken for another use.
pub Took-IsPaging :
    {p : Paging} {i : ℕ} {pmm' : Pmm}
    → IsPaging p
    → Took p.pmm i pmm'
    → IsPaging (record p { pmm = pmm' })
Took-IsPaging {p} g t = record {
  valid = t.valid;
  aligned = omega (arith, t.same_start, g.aligned);
  sized = g.sized;
  words = g.words;
  tables = g.tables;
  owned = λ k h.
      let (j, at, inside, taken) = g.owned k h in
      (j, omega (arith, at, t.same_start), omega (arith, t.same_total), ground (arith, t.marks j));
  apart = g.apart;
  blank = Took-Blank p.table_at t g.blank;
}
