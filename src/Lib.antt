-- ===== src/Lib.antt =====
-- MYUNIXLIKEOS, a Unix-like kernel for IA-32 with its own C library and shell.
--
-- The kernel keeps physical memory in a bitmap of 4 KB pages, files in a tree of 64 nodes whose
-- contents are buffers from the page allocator, and a table of 32 file descriptors behind the
-- interrupt 0x80. The string functions of lib/libc serve the kernel and the commands alike.
-- Modelled here are, from the bottom up:
--
-- - Common and the modules below it: native numbers, lists with the updates of C arrays, bits of a
--   byte, signed integers. No code of the repository stands there.
-- - Libc.Str: lib/libc/string/*.c, function by function under the same names. A string is the list
--   of the bytes from its pointer to the end of its buffer; reading at the end of the list reads a
--   terminator, writing there is a fault. The memset of the repository writes the first byte only, and
--   so do its callers here: alloc_z, alloc_page_table, paging_init and elf_load. Libc.Move has memmove, on offsets into one memory.
-- - Pmm: bitmap_set, bitmap_clear, bitmap_test and pmm_alloc_page, pmm_free_page, pmm_alloc_blocks,
--   pmm_free_blocks, pmm_alloc_z of kernel/kernel.c as bitmap_set ... alloc_z over the record Pmm
--   of the five static variables; Pmm.Init has pmm_init. Pmm.Count holds the invariant.
-- - Paging: alloc_page_table, map_page, unmap_page, get_physical_address and paging_init of
--   kernel/kernel.c over Pmm. The directory is a list of words and a table the words at its
--   address, also where the page is free; Paging.Tables holds the invariant, to which it belongs that
--   the free pages hold zeros, and the view of all tables as one array of entries.
-- - KernelHeap: heap_init, kmalloc and kfree of kernel/kernel.c over Paging. The memory gives the word
--   at each address, and the headers of pages and blocks are words in it; KernelHeap.Chain holds the
--   view of a page as a list of blocks. A walk over the blocks of a page has 131 rounds, one over the
--   pages 65537, and the outer loop of kmalloc as many.
-- - Cpu: the descriptor tables of kernel/gdt.c and kernel/idt.c; Cpu.Decode reads the entries as the
--   processor does. The handlers in assembly are parameters.
-- - FileCache: kernel/file_cache.c; get, put, invalidate and flush are file_cache_get and so on.
-- - Vfs: kernel/fs.c with the record Fs of its static variables; Vfs.Files has the functions on the
--   contents of files. A pointer to a node is its index in the pool. fs.c takes pages from Pmm and
--   compares names with Libc.Str.
-- - Elf: the checks of kernel/elf.c, elf_validate over the bytes of a file; Elf.Load has elf_load,
--   with the memory as the byte at each physical address; Elf.Heap has user_heap_init, user_sbrk
--   and user_brk over Paging, with one round of a loop for each page.
-- - Format: vsprintf of lib/libc/stdio/sprintf.c and vfprintf of lib/libc/stdio/printf.c. One
--   character of the format is one step of a machine whose places are those of the pointer into the
--   format; Format.Buffer has the target of vsprintf and the buffered stream. Digits have fuel for
--   64 calls.
-- - Shell: of bin/sh/sh.c the environment and its expansion in a line, the aliases, the history and
--   split_args. Arrays of structures are lists of records of byte arrays.
-- - Syscall: the descriptor table of kernel/syscall.c and the cases SYS_write, SYS_read, SYS_close,
--   SYS_open and SYS_chdir of syscall_handler, over Fs; Syscall.Stat has SYS_mkdir, SYS_unlink,
--   SYS_stat, SYS_fstat and SYS_sysinfo. The register eax is the first result.
-- - Clock: kernel/sys/time/localtime_r.c and the seconds of SYS_clock_gettime; Clock.Rtc has
--   rtc_get_time of kernel/drivers/nvram/rtc.c.
-- - Keyboard: kernel/drivers/input/pskey.c; handle is the body that keyboard_getchar and
--   keyboard_pollchar share, Keyboard.Line has read_line.
-- - Video: the text terminal of kernel/drivers/video/vgamode3.c, with the screen as a list of 2000
--   words and the two cursor registers; Video.Cells reads it by row and column.
-- - Calc: bin/calc/calc.c; the functions that call one another have fuel, four calls for each
--   character and three more. A divide error is a value. Calc.Grammar has the expressions, their texts and values.
-- - Snake: the game of bin/snake/snake.c, frame by frame; a pair of arrays for columns and rows is one
--   list of cells. The search of a free cell for a food has rounds as its fuel, which no number
--   bounds, since the generator is only known by its formula.
-- - Vi: the editor of bin/vi/vi.c. Vi has the moves and changes of the buffer under the names of the
--   code, Vi.Keys the loop of cmd_vi, key by key; Vi.Meaning is the text before and behind the
--   cursor and what a key means on it. What getchar and read_line give is an argument.
-- - Tools: the commands head, tail and wc of bin/head/head.c, bin/tail/tail.c and bin/wc/wc.c, each
--   as a function of the file tree and the arguments.
--
-- Conventions. Numbers are native naturals; the wrap-around of a 32-bit word is written out as a
-- remainder, and so is a subtraction that can go below 0. A function returns `none` for a fault: an
-- access outside an array or through NULL. NULL itself is a `none` inside. Loops that count run by
-- structural recursion on the rounds that are left; year_loop of Clock has fuel for one round per
-- day, which is more than the years there are, and localtime_r is shown to have a result below 2^55; the
-- digits of Format have fuel for the bits of a number, and more of it is shown to change nothing.
-- The calls under an `if` are bound before it.
--
-- Not modelled: port accesses but for the cursor, the fault screen, printing to the serial port,
-- the start of a program, the messages that functions print, the line editor of the shell and
-- its expansion of aliases, the other commands, the editor nano, what vi draws, and what the snake
-- game draws and its colors. The conversions of floating point in vfprintf are a parameter. The two readings of
-- a round of rtc_get_time are given as data, since the chip supplies them.
pub mod Calc
pub mod Clock
pub mod Common
pub mod Cpu
pub mod Elf
pub mod FileCache
pub mod Format
pub mod KernelHeap
pub mod Keyboard
pub mod Libc
pub mod Paging
pub mod Pmm
pub mod Shell
pub mod Snake
pub mod Syscall
pub mod Tools
pub mod Vfs
pub mod Vi
pub mod Video
