-- ===== src/Cpu/Tests.antt =====
-- The descriptor tables at concrete inputs.
use myunixlikeos.Common.{ℕ, ◌+◌, ◌*◌, ◌≡◌, List, refl, arith, get_or, replicate, length-replicate}
use myunixlikeos.Cpu.{GdtEntry, IdtEntry, gdt_init, idt_init}
use myunixlikeos.Cpu.Decode.{handler_of, ring_of, no_gate, idt_init_lem}

abbrev no_entry : GdtEntry
no_entry = record {
  limit_low = 0;
  base_low = 0;
  base_middle = 0;
  access = 0;
  granularity = 0;
  base_high = 0;
}

-- the segment of the user's data is writable from ring 3
user_data : (get_or (gdt_init 0x200000 (replicate 6 no_entry)) 4 no_entry).access ≡ 0xF2
unfolding gdt_init
user_data = refl

abbrev handlers : ℕ → ℕ
handlers v = 0x100000 + v * 16

abbrev gates : List IdtEntry
gates = idt_init handlers 0x180000 (replicate 256 no_gate)

idt_init_lem_example :
    (handler_of (get_or gates 0x80 no_gate) ≡ 0x180000)
    × (ring_of (get_or gates 0x80 no_gate) ≡ 3)
    × ((get_or gates 0x80 no_gate).kernel_cs ≡ 8)
idt_init_lem_example =
    idt_init_lem handlers 0x180000 (replicate 256 no_gate) 0x80
      (length-replicate {A = IdtEntry} 256 no_gate) (omega arith) (omega arith) (omega arith)
      (omega arith)
