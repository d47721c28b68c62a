-- ===== src/Syscall/Descriptors.antt =====
-- The descriptor table of kernel/syscall.c.
use myunixlikeos.Common.{
  ℕ, List, arith, get_elem?, none, some, suc, zero, ◌+◌, ◌<◌, ◌≡◌, ◌≢◌, ◌≤◌, length, Option,
  Bool-cases, inl, inr, ◌==◌, dec_lt, get_elem?_total, subst, set, sym, false, get_elem?-set_ne,
  get_elem?-set_self, leb, true,
}
use myunixlikeos.Syscall.{FdEntry, allocate_fd_loop, allocate_fd, get_fd, max_fds}

-- Descriptor `i` of the table is in use.
abbrev pub InUse : List FdEntry → ℕ → Type 0
InUse fds i = (e : FdEntry) × (get_elem? fds i ≡ some e) × (e.used ≢ 0)

abbrev pub IsFree : List FdEntry → ℕ → Type 0
IsFree fds i = (e : FdEntry) × (get_elem? fds i ≡ some e) × (e.used ≡ 0)

-- From descriptor `i` on, `r` is the first free one of `n`.
abbrev FirstFree : List FdEntry → ℕ → ℕ → Option ℕ → Type 0
FirstFree fds n i none = (j : ℕ) → i ≤ j → j < i + n → InUse fds j
FirstFree fds n i (some f) =
    (i ≤ f) × (f < i + n) × IsFree fds f × ((j : ℕ) → i ≤ j → j < f → InUse fds j)

InUse-from :
    (fds : List FdEntry) (i b : ℕ)
    → InUse fds i
    → ((j : ℕ) → suc i ≤ j → j < b → InUse fds j)
    → (j : ℕ) → i ≤ j
    → j < b
    → InUse fds j
InUse-from fds i b u all j h l = elim (dec_lt i j) [
  | yes p ↦ all j p l
  | no p ↦ subst (InUse fds) (omega arith) u
]

FirstFree-suc :
    (fds : List FdEntry) (n i : ℕ) (r : Option ℕ)
    → InUse fds i
    → FirstFree fds n (suc i) r
    → FirstFree fds (suc n) i r
FirstFree-suc fds n i none u all = InUse-from fds i (i + suc n) u (λ j h l. all j h (omega arith))
FirstFree-suc fds n i (some f) u (a, b, free, all) =
    (omega arith, omega arith, free, InUse-from fds i f u all)

allocate_fd_loop_lem :
    (n i : ℕ) (fds : List FdEntry)
    → i + n ≤ length fds
    → FirstFree fds n i (allocate_fd_loop n i fds)
unfolding allocate_fd_loop
allocate_fd_loop_lem zero i fds h = λ j a b. absurd (omega arith)
allocate_fd_loop_lem (suc n) i fds h =
    let (e, at) = get_elem?_total fds i (omega arith) in
    elim (Bool-cases (e.used == 0)) [
      | inl t ↦
          let first : allocate_fd_loop (suc n) i fds ≡ some i = rw (allocate_fd_loop, at, t) in
          subst (FirstFree fds (suc n) i) (sym first)
            (omega arith, omega arith, (e, at, ground arith), λ j a b. absurd (omega arith))
      | inr t ↦
          let next : allocate_fd_loop (suc n) i fds ≡ allocate_fd_loop n (suc i) fds =
            rw (allocate_fd_loop, at, t) in
          subst (FirstFree fds (suc n) i) (sym next) (
            FirstFree-suc fds n i _ (e, at, ground arith)
              (allocate_fd_loop_lem n (suc i) fds (omega arith)))
    ]

abbrev pub Allocates : List FdEntry → Option ℕ → Type 0
Allocates fds none = (j : ℕ) → 3 ≤ j → j < max_fds → InUse fds j
Allocates fds (some f) =
    (3 ≤ f) × (f < max_fds) × IsFree fds f × ((j : ℕ) → 3 ≤ j → j < f → InUse fds j)

Allocates-FirstFree : (fds : List FdEntry) (r : Option ℕ) → FirstFree fds 29 3 r → Allocates fds r
Allocates-FirstFree fds none all = all
Allocates-FirstFree fds (some f) all = all

-- `allocate_fd` returns the first free descriptor from 3 on, or -1 when all of them are in use.
pub allocate_fd_lem : (fds : List FdEntry) → length fds ≡ 32 → Allocates fds (allocate_fd fds)
unfolding allocate_fd
allocate_fd_lem fds h = Allocates-FirstFree fds _ (allocate_fd_loop_lem 29 3 fds (omega arith))

pub get_fd-free : (fds : List FdEntry) (f : ℕ) → IsFree fds f → get_fd fds f ≡ none
unfolding get_fd
get_fd-free fds f (e, at, z) =
    let u : (e.used == 0) ≡ true = ground arith in
    elim (Bool-cases (leb 32 f)) [ inl b ↦ rw (b) | inr b ↦ rw (b, at, u) ]

pub get_fd-set :
    (fds : List FdEntry) (f : ℕ) (e : FdEntry)
    → f < length fds
    → f < 32
    → e.used ≢ 0
    → get_fd (set fds f e) f ≡ some e
unfolding get_fd
get_fd-set fds f e h b z =
    let u : (e.used == 0) ≡ false = ground arith in
    let l : leb 32 f ≡ false = ground arith in rw (l, get_elem?-set_self fds f e h, u)

pub get_fd-other :
    (fds : List FdEntry) (f j : ℕ) (e : FdEntry) → j ≢ f → get_fd (set fds f e) j ≡ get_fd fds j
unfolding get_fd
get_fd-other fds f j e ne = rw (get_elem?-set_ne fds {i = f} {j = j} e (λ q. ne (sym q)))

pub get_fd-lt : (fds : List FdEntry) (f : ℕ) (e : FdEntry) → get_fd fds f ≡ some e → f < 32
unfolding get_fd
get_fd-lt fds f e h = elim (Bool-cases (leb 32 f)) [
  | inl b ↦ let h' = rw b at h in cc
  | inr b ↦ ground arith
]
