-- ===== src/Syscall/Open.antt =====
-- Opening and closing descriptors in kernel/syscall.c.
use myunixlikeos.Common.{
  ℕ, none, some, ◌<◌, ◌≡◌, ◌≢◌, ◌≤◌, length, set, Option-cases, inl, inr, ◌⊎◌, arith, length-set,
  subst, Bool-cases, false, get_elem?-set_self, leb, refl, ◌^◌, ◌||◌,
}
use myunixlikeos.Syscall.{
  FdEntry, Kernel, allocate_fd, get_fd, release_fd, install_fd, sys_close, fail, empty_entry,
}
use myunixlikeos.Syscall.Descriptors.{
  get_fd-free, get_fd-set, get_fd-other, InUse, Allocates, allocate_fd_lem, get_fd-lt,
}

-- What installing a node gives: the first free descriptor leads to the node at offset 0, and all
-- others are as they were; without a free one the call fails and only sets `errno`.
abbrev pub Installs : Kernel → ℕ → ℕ → Type 0
Installs k i flags =
    ((fd : ℕ) × (g : Kernel) × (install_fd k i flags ≡ some (fd, g))
      × (3 ≤ fd)
      × (fd < 32)
      × (get_fd k.fds fd ≡ none)
      × (get_fd g.fds fd ≡ some (record { used = 1; node_at = some i; offset = 0; flags = flags }))
      × ((j : ℕ) → j ≢ fd → get_fd g.fds j ≡ get_fd k.fds j)
      × (length g.fds ≡ 32))
    ⊎ ((install_fd k i flags ≡ fail 24 k) × ((j : ℕ) → 3 ≤ j → j < 32 → InUse k.fds j))

abbrev opened : ℕ → ℕ → FdEntry
opened i flags = record { used = 1; node_at = some i; offset = 0; flags = flags }

-- The end of SYS_open.
pub install_fd_lem : (k : Kernel) (i flags : ℕ) → length k.fds ≡ 32 → Installs k i flags
unfolding install_fd
install_fd_lem k i flags h = elim (Option-cases (allocate_fd k.fds)) [
  | inl e ↦ inr (rw (install_fd, e), subst (Allocates k.fds) e (allocate_fd_lem k.fds h))
  | inr (f, e) ↦
      let (a, b, free, all) = subst (Allocates k.fds) e (allocate_fd_lem k.fds h) in
      inl (
        f,
        record k { fds = set k.fds f (opened i flags) },
        rw (install_fd, e),
        a,
        b,
        get_fd-free k.fds f free,
        get_fd-set k.fds f (opened i flags) (omega arith) b (omega arith),
        λ j ne. get_fd-other k.fds f j (opened i flags) ne,
        rw (length-set k.fds f (opened i flags)) h,
      )
]

-- Closing an open descriptor from 3 on returns 0 and frees it and no other.
pub sys_close_lem :
    (k : Kernel) (fd : ℕ) (e : FdEntry)
    → length k.fds ≡ 32
    → 3 ≤ fd
    → get_fd k.fds fd ≡ some e
    → (g : Kernel) × (sys_close k fd ≡ some (0, g))
      × (get_fd g.fds fd ≡ none)
      × ((j : ℕ) → j ≢ fd → get_fd g.fds j ≡ get_fd k.fds j)
unfolding sys_close release_fd
sys_close_lem k fd e h three held =
    let lt = get_fd-lt k.fds fd e held in
    let low : leb fd 2 ≡ false = ground arith in
    let high : leb (2 ^ 31) fd ≡ false = ground arith in
    let same : release_fd k.fds fd ≡ set k.fds fd empty_entry = ground arith in
    (
      record k { fds = release_fd k.fds fd },
      rw (sys_close, low, high, held),
      rw same (
          get_fd-free (set k.fds fd empty_entry) fd
            (empty_entry, get_elem?-set_self k.fds fd empty_entry (omega arith), refl)),
      λ j ne. rw same (get_fd-other k.fds fd j empty_entry ne),
    )

-- Closing a standard descriptor or one that is not open is refused with EBADF.
pub sys_close_refused :
    (k : Kernel) (fd : ℕ)
    → (fd ≤ 2) ⊎ (get_fd k.fds fd ≡ none)
    → sys_close k fd ≡ some (0xffffffff, record k { errno = 9 })
unfolding sys_close release_fd
sys_close_refused k fd bad = elim (Bool-cases (leb fd 2 || leb (2 ^ 31) fd)) [
  | inl t ↦ rw (sys_close, t)
  | inr t ↦ elim bad [ inl low ↦ absurd (ground arith) | inr closed ↦ rw (sys_close, t, closed) ]
]
