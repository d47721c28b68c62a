-- ===== src/Cpu/Decode.antt =====
-- What the processor reads from the descriptors.
use myunixlikeos.Common.{
  ℕ, zero, suc, ◌+◌, ◌*◌, ◌/◌, ◌%◌, ◌^◌, ◌<◌, ◌≤◌, ◌≡◌, ◌==◌, ◌&&◌, Bool, true, List, get_or,
  length, length-set, if◌then◌else◌, refl, arith, leb, ltb, bit_and, bit_or, ==_iff, ◌∙◌,
  Bool-cases, get_or-set, inl, inr,
}
use myunixlikeos.Common.Bytes.{every_less, every_less_sound}
use myunixlikeos.Cpu.{GdtEntry, gdt_gate, IdtEntry, idt_gate, set_idt_gate, set_gates, idt_init}

abbrev pub base_of : GdtEntry → ℕ
base_of e = e.base_high * 2 ^ 24 + e.base_middle * 2 ^ 16 + e.base_low

abbrev pub limit_of : GdtEntry → ℕ
limit_of e = e.granularity % 16 * 2 ^ 16 + e.limit_low

abbrev pub flags_of : GdtEntry → ℕ
flags_of e = e.granularity / 16

-- `x | (y & 0xF0)` for four bits and a byte.
abbrev joins : ℕ → ℕ → Bool
joins x y = bit_or x (bit_and y 0xF0) == x + y / 16 * 16

joins_table : every_less 16 (λ x. every_less 256 (joins x)) ≡ true
unfolding every_less
joins_table = refl

joined_fields : (x y : ℕ) → x < 16 → y < 256 → bit_or x (bit_and y 0xF0) ≡ x + y / 16 * 16
joined_fields x y h k = (==_iff _ _).0 (
    every_less_sound 256 (joins x) y
      (every_less_sound 16 (λ z. every_less 256 (joins z)) x joins_table h) k)

-- The processor reads from the entry that set_gdt_gate writes the base address, the lowest 20 bits of
-- the limit, the access byte and the upper four bits of the granularity.
pub gdt_gate_lem :
    (base limit access gran : ℕ)
    → base < 2 ^ 32
    → limit < 2 ^ 32
    → gran < 256
    → (base_of (gdt_gate base limit access gran) ≡ base)
      × (limit_of (gdt_gate base limit access gran) ≡ limit % 2 ^ 20)
      × ((gdt_gate base limit access gran).access ≡ access)
      × (flags_of (gdt_gate base limit access gran) ≡ gran / 16)
unfolding gdt_gate
gdt_gate_lem base limit access gran hb hl hg =
    let field = joined_fields (limit / 2 ^ 16 % 2 ^ 4) gran (omega arith) hg in
    (omega arith, omega (arith, field), refl, omega (arith, field))

abbrev pub handler_of : IdtEntry → ℕ
handler_of e = e.isr_high * 2 ^ 16 + e.isr_low

-- The least privileged ring that may call the gate by an instruction.
abbrev pub ring_of : IdtEntry → ℕ
ring_of e = e.attributes / 2 ^ 5 % 4

abbrev pub no_gate : IdtEntry
no_gate = record { isr_low = 0; kernel_cs = 0; reserved = 0; attributes = 0; isr_high = 0 }

length-set_gates :
    (n i : ℕ) (isr : ℕ → ℕ) (idt : List IdtEntry) → length (set_gates n i isr idt) ≡ length idt
unfolding set_gates set_idt_gate
length-set_gates zero i isr idt = refl
length-set_gates (suc n) i isr idt =
    length-set_gates n (i + 1) isr (set_idt_gate i (isr i) 0x8E idt)
    ∙ length-set idt i (idt_gate (isr i) 0x8E)

get_or-set_gates :
    (n i : ℕ) (isr : ℕ → ℕ) (idt : List IdtEntry) (v : ℕ)
    → i + n ≤ length idt
    → get_or (set_gates n i isr idt) v no_gate
      ≡ (if leb i v && ltb v (i + n) then idt_gate (isr v) 0x8E else get_or idt v no_gate)
unfolding set_gates set_idt_gate
get_or-set_gates zero i isr idt v h = ground arith
get_or-set_gates (suc n) i isr idt v h = ground (
  arith,
  get_or-set_gates n (i + 1) isr (set_idt_gate i (isr i) 0x8E idt) v,
  get_or-set idt i v (idt_gate (isr i) 0x8E) no_gate,
  length-set idt i (idt_gate (isr i) 0x8E),
)

-- The gate of a vector.
abbrev gate_for : (ℕ → ℕ) → ℕ → ℕ → IdtEntry
gate_for isr_table syscall v =
    if v == 0x80
    then idt_gate syscall 0xEE
    else if ltb v 32
    then idt_gate (isr_table v) 0x8E
    else idt_gate (isr_table 0) 0x8E

final_gate :
    (isr_table : ℕ → ℕ) (syscall : ℕ) (idt : List IdtEntry) (v : ℕ)
    → length idt ≡ 256
    → v < 256
    → get_or (idt_init isr_table syscall idt) v no_gate ≡ gate_for isr_table syscall v
unfolding idt_init set_idt_gate
final_gate isr_table syscall idt v h hv =
    let low = set_gates 32 0 isr_table idt in
    let all = set_gates 224 32 (λ i. isr_table 0) low in
    let low_sized = length-set_gates 32 0 isr_table idt in
    let sized = length-set_gates 224 32 (λ i. isr_table 0) low in
    ground (
      arith,
      get_or-set all 0x80 v (idt_gate syscall 0xEE) no_gate (omega (arith, sized, low_sized)),
      get_or-set_gates 224 32 (λ i. isr_table 0) low v (omega (arith, low_sized)),
      get_or-set_gates 32 0 isr_table idt v (omega arith),
    )

-- What the processor reads from a gate.
read_gate :
    (addr flags : ℕ)
    → addr < 2 ^ 32
    → (handler_of (idt_gate addr flags) ≡ addr)
      × (ring_of (idt_gate addr flags) ≡ flags / 2 ^ 5 % 4)
      × ((idt_gate addr flags).kernel_cs ≡ 8)
unfolding idt_gate
read_gate addr flags h = (omega arith, refl, refl)

-- Of a table of 256 gates idt_init makes one in which the processor finds for every vector its handler:
-- for 0x80 that of the system calls, which alone may be called from ring 3, for a vector below 32 its
-- entry of isr_table, and for every other the first one, all in the code segment of the kernel.
pub idt_init_lem :
    (isr_table : ℕ → ℕ) (syscall : ℕ) (idt : List IdtEntry) (v : ℕ)
    → length idt ≡ 256
    → v < 256
    → syscall < 2 ^ 32
    → isr_table v < 2 ^ 32
    → isr_table 0 < 2 ^ 32
    → (handler_of (get_or (idt_init isr_table syscall idt) v no_gate)
        ≡ (if v == 0x80 then syscall else if ltb v 32 then isr_table v else isr_table 0))
      × (ring_of (get_or (idt_init isr_table syscall idt) v no_gate) ≡ (if v == 0x80 then 3 else 0))
      × ((get_or (idt_init isr_table syscall idt) v no_gate).kernel_cs ≡ 8)
idt_init_lem isr_table syscall idt v h hv hs hi h0 =
    rw (final_gate isr_table syscall idt v h hv) (elim (Bool-cases (v == 0x80)) [
      | inl e ↦ rw e (read_gate syscall 0xEE hs)
      | inr e ↦ rw e (elim (Bool-cases (ltb v 32)) [
        | inl f ↦ rw f (read_gate (isr_table v) 0x8E hi)
        | inr f ↦ rw f (read_gate (isr_table 0) 0x8E h0)
      ])
    ])
