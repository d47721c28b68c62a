-- ===== src/Syscall/ReadWrite.antt =====
-- SYS_write and SYS_read of kernel/syscall.c on open files.
use myunixlikeos.Syscall.Descriptors.{get_fd-other}
use myunixlikeos.Vfs.Files.{write_text}
use myunixlikeos.Pmm.{Pmm, alloc_z}
use myunixlikeos.Syscall.{
  FdEntry, Kernel, get_fd, open_file, sys_read, sys_write, read_file, read_size, store_bytes,
  write_file, write_size, ensure_writable_content,
}
use myunixlikeos.Vfs.{Vnode, is_file, put_node, node, Fs}
use myunixlikeos.Common.{
  length-drop_add, length-drop_add, ℕ, List, some, ◌+◌, ◌<◌, ◌≡◌, ◌≤◌, ◌++◌, length, set, refl,
  arith, take, drop, leb, false, true, get_elem?-set_self, min, ◌-◌, ◌^◌, ◌%◌, ◌==◌, ◌||◌, ◌∙◌, ◌≢◌,
  ap,
}
use myunixlikeos.Libc.StrLaws.{memcpy_lem}
use myunixlikeos.Syscall.Transfer.{HasBytes, ensure_lem, write_text_lem, get_elem?-lt}

-- Descriptor `fd` is open on the file `n` of node `i`.
pub record IsOpen (k : Kernel) (fd : ℕ) (e : FdEntry) (i : ℕ) (n : Vnode) : Type 0 where
  pub held : get_fd k.fds fd ≡ some e
  pub leads : e.node_at ≡ some i
  pub stored : node k.fs i ≡ some n
  pub file : is_file n ≡ true

open_file-IsOpen :
    (k : Kernel) (fd : ℕ) (e : FdEntry) (i : ℕ) (n : Vnode)
    → IsOpen k fd e i n
    → open_file k fd ≡ some (some (e, i, n))
open_file-IsOpen k fd e i n o = simp (open_file, o.held, o.leads, o.stored, o.file)

write_file-store_bytes :
    (k : Kernel) (fd count : ℕ) (e : FdEntry) (i : ℕ) (n m : Vnode) (buf c : List ℕ) (fs' : Fs)
    → open_file k fd ≡ some (some (e, i, n))
    → ensure_writable_content k.fs i n ≡ some fs'
    → node fs' i ≡ some m
    → m.content ≡ some c
    → write_file k fd buf count ≡ store_bytes k fs' fd e i m c buf count
unfolding write_file
write_file-store_bytes k fd count e i n m buf c fs' opened made at content =
    simp (write_file, opened, made, at, content)

-- What a write at descriptor `fd` leaves: the offset moved on by `size`, a file that ends there, and
-- the written bytes at the old offset.
pub record Wrote (k g : Kernel) (fd : ℕ) (e : FdEntry) (i : ℕ) (buf : List ℕ) (size : ℕ)
    : Type 0 where
  pub m : Vnode
  pub c : List ℕ
  pub moved : g.fds ≡ set k.fds fd (record e { offset = e.offset + size })
  pub stored : node g.fs i ≡ some m
  pub file : is_file m ≡ true
  pub ends : m.size ≡ e.offset + size
  pub content : m.content ≡ some c
  pub page : length c ≡ 4096
  pub bytes : take size (drop e.offset c) ≡ take size buf

store_bytes-some :
    (k : Kernel) (fs : Fs) (fd : ℕ) (e : FdEntry) (i : ℕ) (m : Vnode) (c c' buf : List ℕ)
    (count size : ℕ)
    → write_size e.offset count ≡ size
    → write_text c e.offset buf size ≡ some c'
    → (e.offset + size) % 2 ^ 32 ≡ e.offset + size
    → store_bytes k fs fd e i m c buf count
      ≡ some (
        size,
        record k {
          fs = put_node fs i (record m { content = some c'; size = e.offset + size });
          fds = set k.fds fd (record e { offset = e.offset + size });
        },
      )
unfolding store_bytes
store_bytes-some k fs fd e i m c c' buf count size fits written end =
    rw (store_bytes, fits, written, end)

-- With memory for a buffer, SYS_write to an open file, which has the bytes its size says up to 63,
-- at an offset below 64 and with a count above 0 that the source holds, writes as many of the bytes
-- as fit below 63.
pub sys_write_lem :
    (k : Kernel) (fd count : ℕ) (e : FdEntry) (i : ℕ) (n : Vnode) (buf : List ℕ) (a : ℕ)
    (bytes : List ℕ) (q : Pmm)
    → 3 ≤ fd
    → IsOpen k fd e i n
    → HasBytes n
    → alloc_z 64 k.fs.ram k.fs.pmm ≡ (some (a, bytes), q)
    → e.offset ≤ 63
    → 0 < count
    → count ≤ length buf
    → (g : Kernel) × (sys_write k fd (some buf) count ≡ some (min count (63 - e.offset), g))
      × Wrote k g fd e i buf (min count (63 - e.offset))
unfolding sys_write
sys_write_lem k fd count e i n buf a bytes q three o has got low some_bytes enough =
    let (fs', m, c, made, at, content, page, same) =
      ensure_lem k.fs i n a bytes q o.stored o.file has got in
    let size = min count (63 - e.offset) in
    let (c', written, back, page') =
      write_text_lem c buf e.offset size (omega arith) (omega arith) in
    let stores =
      store_bytes-some k fs' fd e i m c c' buf count size (ground arith) written (omega arith) in
    let some_count : (count == 0) ≡ false = ground arith in
    let no_terminal : (fd == 1 || fd == 2) ≡ false = ground arith in
    let m' = record m { content = some c'; size = e.offset + size } in
    (
      record k {
        fs = put_node fs' i m';
        fds = set k.fds fd (record e { offset = e.offset + size });
      },
      rw (some_count, no_terminal)
          (write_file-store_bytes k fd count e i n m buf c fs' (open_file-IsOpen k fd e i n o) made
              at content
            ∙ stores),
      record {
        m = m';
        c = c';
        moved = refl;
        stored = get_elem?-set_self fs'.pool i m' (get_elem?-lt fs'.pool i m at);
        file = rw (same) o.file;
        ends = refl;
        content = refl;
        page = page' ∙ page;
        bytes = back;
      },
    )

-- Before the end of an open file that has the bytes its size says, SYS_read into a buffer that holds
-- the count, which is above 0, gives the bytes from the offset on up to the end of the file, and
-- moves the offset behind them, as long as size and count together stay below 2^32.
pub sys_read_lem :
    (k : Kernel) (fd count : ℕ) (e : FdEntry) (i : ℕ) (n : Vnode) (c target : List ℕ)
    → IsOpen k fd e i n
    → n.content ≡ some c
    → n.size ≤ length c
    → e.offset < n.size
    → n.size + count < 2 ^ 32
    → 0 < count
    → count ≤ length target
    → sys_read k fd (some target) count
      ≡ some (
        min count (n.size - e.offset),
        record k {
          fds = set k.fds fd (record e { offset = e.offset + min count (n.size - e.offset) });
        },
        take (min count (n.size - e.offset)) (drop e.offset c)
            ++ drop (min count (n.size - e.offset)) target,
      )
unfolding sys_read read_file
sys_read_lem k fd count e i n c target o at whole before small some_bytes room =
    let opened = open_file-IsOpen k fd e i n o in
    let size = min count (n.size - e.offset) in
    let some_count : (count == 0) ≡ false = ground arith in
    let inside : leb n.size e.offset ≡ false = ground arith in
    let fits : read_size e.offset n.size count ≡ size = ground arith in
    let end : (e.offset + size) % 2 ^ 32 ≡ e.offset + size = omega arith in
    let d = length-drop_add e.offset c (omega arith) in
    let copied = memcpy_lem target (drop e.offset c) size (omega arith) (omega (arith, d)) in
    rw (some_count, opened, read_file, inside, at, fits, copied, end)

-- What SYS_write writes at one descriptor is what SYS_read then gives at another one that is open
-- on the same file at the same offset below 63, when there is memory for a buffer, the file has the
-- bytes that its size says, the count is above 0 and below 2^31, and both buffers hold it.
pub sys_read-sys_write :
    (k : Kernel) (fd fd2 count : ℕ) (e e2 : FdEntry) (i : ℕ) (n : Vnode) (buf target : List ℕ)
    (a : ℕ) (bytes : List ℕ) (q : Pmm)
    → 3 ≤ fd
    → IsOpen k fd e i n
    → IsOpen k fd2 e2 i n
    → fd2 ≢ fd
    → e2.offset ≡ e.offset
    → HasBytes n
    → alloc_z 64 k.fs.ram k.fs.pmm ≡ (some (a, bytes), q)
    → e.offset < 63
    → 0 < count
    → count < 2 ^ 31
    → count ≤ length buf
    → count ≤ length target
    → let size = min count (63 - e.offset) in
      (g h : Kernel) × (sys_write k fd (some buf) count ≡ some (size, g))
      × (sys_read g fd2 (some target) count ≡ some (size, h, take size buf ++ drop size target))
sys_read-sys_write k fd fd2 count e e2 i n buf target a bytes q three o o2 ne same has got low
      some_bytes small enough room =
    let (g, wrote, w) =
      sys_write_lem k fd count e i n buf a bytes q three o has got (omega arith) some_bytes
        enough in
    let size = min count (63 - e.offset) in
    let held : get_fd g.fds fd2 ≡ some e2 =
      rw (w.moved) (get_fd-other k.fds fd fd2 _ ne ∙ o2.held) in
    let o3 : IsOpen g fd2 e2 i w.m = record {
      held = held;
      leads = o2.leads;
      stored = w.stored;
      file = w.file;
    } in
    let left : min count (w.m.size - e2.offset) ≡ size = omega (arith, w.ends, same) in
    let got_bytes =
      sys_read_lem g fd2 count e2 i w.m w.c target o3 w.content (omega (arith, w.ends, w.page))
        (omega (arith, w.ends, same)) (omega (arith, w.ends)) some_bytes room in
    let back : take size (drop e2.offset w.c) ≡ take size buf =
      ap (λ o. take size (drop o w.c)) same ∙ w.bytes in
    (
      g,
      record g { fds = set g.fds fd2 (record e2 { offset = e2.offset + size }) },
      wrote,
      rw (← back) (rw (left) at got_bytes),
    )
