-- ===== src/Cpu.antt =====
-- The descriptor tables of the processor: kernel/gdt.c and kernel/idt.c, with the entries as records of
-- their fields.
pub mod Decode
mod Tests
use myunixlikeos.Common.{◌-◌, ℕ, List, bit_and, bit_or, set, suc, zero, ◌%◌, ◌+◌, ◌/◌, ◌^◌}

pub record GdtEntry : Type 0 where
  pub limit_low : ℕ
  pub base_low : ℕ
  pub base_middle : ℕ
  pub access : ℕ
  pub granularity : ℕ
  pub base_high : ℕ

-- The six assignments of set_gdt_gate.
unfoldable pub gdt_gate : (base limit access gran : ℕ) → GdtEntry
gdt_gate base limit access gran = record {
  limit_low = limit % 2 ^ 16;
  base_low = base % 2 ^ 16;
  base_middle = base / 2 ^ 16 % 2 ^ 8;
  access = access;
  granularity = bit_or (limit / 2 ^ 16 % 2 ^ 4) (bit_and gran 0xF0);
  base_high = base / 2 ^ 24 % 2 ^ 8;
}

unfoldable pub set_gdt_gate : (i base limit access gran : ℕ) → List GdtEntry → List GdtEntry
unfolding gdt_gate
set_gdt_gate i base limit access gran gdt = set gdt i (gdt_gate base limit access gran)

-- sizeof(tss_entry)
abbrev pub tss_size : ℕ
tss_size = 104

unfoldable pub set_tss : (i base limit : ℕ) → List GdtEntry → List GdtEntry
unfolding set_gdt_gate
set_tss i base limit gdt = set_gdt_gate i base limit 0x89 0x00 gdt

-- The table that gdt_init loads; `tss` is the address of the task state segment.
unfoldable pub gdt_init : (tss : ℕ) → List GdtEntry → List GdtEntry
unfolding set_gdt_gate set_tss
gdt_init tss gdt =
    let gdt = set_gdt_gate 1 0 0xFFFFFFFF 0x9A 0xCF (set_gdt_gate 0 0 0 0x00 0x00 gdt) in
    let gdt = set_gdt_gate 3 0 0xFFFFFFFF 0xFA 0xCF (set_gdt_gate 2 0 0xFFFFFFFF 0x92 0xCF gdt) in
    set_tss 5 tss (tss_size - 1) (set_gdt_gate 4 0 0xFFFFFFFF 0xF2 0xCF gdt)

pub record IdtEntry : Type 0 where
  pub isr_low : ℕ
  pub kernel_cs : ℕ
  pub reserved : ℕ
  pub attributes : ℕ
  pub isr_high : ℕ

unfoldable pub idt_gate : (addr flags : ℕ) → IdtEntry
idt_gate addr flags = record {
  isr_low = addr % 2 ^ 16;
  kernel_cs = 0x08;
  reserved = 0;
  attributes = flags;
  isr_high = addr / 2 ^ 16 % 2 ^ 16;
}

unfoldable pub set_idt_gate : (vector addr flags : ℕ) → List IdtEntry → List IdtEntry
unfolding idt_gate
set_idt_gate vector addr flags idt = set idt vector (idt_gate addr flags)

-- `n` gates from vector `i` on, with the handlers that `isr` gives.
unfoldable pub set_gates : (n i : ℕ) → (ℕ → ℕ) → List IdtEntry → List IdtEntry
unfolding set_idt_gate
set_gates zero i isr idt = idt
set_gates (suc n) i isr idt = set_gates n (i + 1) isr (set_idt_gate i (isr i) 0x8E idt)

-- The table that idt_init loads; `isr_table` and `syscall` are the handlers in assembly.
unfoldable pub idt_init : (isr_table : ℕ → ℕ) (syscall : ℕ) → List IdtEntry → List IdtEntry
unfolding set_gates set_idt_gate
idt_init isr_table syscall idt =
    set_idt_gate 0x80 syscall 0xEE
      (set_gates 224 32 (λ i. isr_table 0) (set_gates 32 0 isr_table idt))
