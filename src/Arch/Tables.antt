-- ===== src/Arch/Tables.antt =====
-- arch/x86/gdt.c and arch/x86/idt.c: the descriptors of segments and interrupts. A table is a function from
-- the index to the descriptor; loading it is an instruction. What is printed meanwhile is in Arch.Init.
pub mod Decode
pub mod Gates
use levos.Prelude.{ℕ, zero, suc, ◌+◌, ◌-◌, ◌*◌, ◌/◌, ◌%◌, ◌^◌, bit_or, update}

-- `struct gdt_e`
pub record Segment : Type 0 where
  pub limit_low : ℕ
  pub base_low : ℕ
  pub base_mid : ℕ
  pub access : ℕ
  pub gran : ℕ
  pub base_high : ℕ

-- `x & 0xF0` of a byte
abbrev pub high_nibble : ℕ → ℕ
high_nibble n = n / 16 % 16 * 16

-- A shift to the right by `k` is a division by `2 ^ k`, and a mask of the low `k` bits a remainder.
abbrev pub segment : ℕ → ℕ → ℕ → ℕ → Segment
segment base limit ac gran = record {
  limit_low = limit % 2 ^ 16;
  base_low = base % 2 ^ 16;
  base_mid = base / 2 ^ 16 % 2 ^ 8;
  access = ac;
  gran = bit_or (limit / 2 ^ 16 % 16) (high_nibble gran);
  base_high = base / 2 ^ 24 % 2 ^ 8;
}

abbrev pub Gdt : Type 0
Gdt = ℕ → Segment

unfoldable pub gdt_set_desc : ℕ → ℕ → ℕ → ℕ → ℕ → Gdt → Gdt
gdt_set_desc num base limit ac gran gdt = update gdt num (segment base limit ac gran)

abbrev pub null_segment : Segment
null_segment = record {
  limit_low = 0;
  base_low = 0;
  base_mid = 0;
  access = 0;
  gran = 0;
  base_high = 0;
}

-- `gdt_init`, up to the load: the limit of the register, and the table of 6 descriptors.
unfoldable pub gdt_init : ℕ × Gdt
unfolding gdt_set_desc
gdt_init = (
  8 * 6 - 1,
  gdt_set_desc 2 0 0xFFFFFFFF 0x92 0xCF
      (gdt_set_desc 1 0 0xFFFFFFFF 0x9A 0xCF (gdt_set_desc 0 0 0 0 0 (λ _. null_segment))),
)

-- `struct idt_e`
pub record Gate : Type 0 where
  pub base_low : ℕ
  pub sel : ℕ
  pub nil : ℕ
  pub flags : ℕ
  pub base_high : ℕ

abbrev pub null_gate : Gate
null_gate = record { base_low = 0; sel = 0; nil = 0; flags = 0; base_high = 0 }

abbrev pub Idt : Type 0
Idt = ℕ → Gate

unfoldable pub idt_set_int : ℕ → ℕ → ℕ → ℕ → Idt → Idt
idt_set_int n base sel flags idt = update idt n (record {
  base_low = base % 2 ^ 16;
  sel = sel;
  nil = 0;
  flags = bit_or flags 0x60;
  base_high = base / 2 ^ 16 % 2 ^ 16;
})

-- The loop of `idt_init`, with `rounds` left.
unfoldable pub set_all : ℕ → ℕ → ℕ → Idt → Idt
set_all zero i base idt = idt
set_all (suc rounds) i base idt = set_all rounds (i + 1) base (idt_set_int i base 0x08 0x8E idt)

-- `idt_init`, up to the load, with the addresses of the two handlers.
unfoldable pub idt_init : ℕ → ℕ → Idt → Idt
unfolding idt_set_int
idt_init idt_noop_irq post_schedule_noirq idt =
    idt_set_int 0x2F post_schedule_noirq 0x08 0x8E (set_all 256 0 idt_noop_irq idt)

-- `irq_set`; the number is cut to a byte.
unfoldable pub irq_set : ℕ → ℕ → Idt → Idt
unfolding idt_set_int
irq_set i h idt = idt_set_int (i % 256) h 0x08 0x8E idt
