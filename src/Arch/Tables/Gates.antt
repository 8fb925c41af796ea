-- ===== src/Arch/Tables/Gates.antt =====
-- arch/x86/idt.c and irq_set of arch/x86/irq.c: where the gates lead.
use levos.Prelude.{
  ℕ, zero, suc, ◌+◌, ◌/◌, ◌%◌, ◌^◌, ◌≤◌, ◌<◌, ◌≡◌, ◌≢◌, ◌∙◌, refl, arith, true, false, ◌==◌,
  update_ne, Bool-cases, inl, inr,
}
use levos.Arch.Tables.{Gate, Idt, idt_set_int, idt_init, set_all, irq_set}

-- A gate to the handler `h`, in the segment of the kernel's code: present, for interrupts of 32 bits, and open to
-- programs too.
pub record LeadsTo (h : ℕ) (g : Gate) : Type 0 where
  pub low : g.base_low ≡ h % 2 ^ 16
  pub high : g.base_high ≡ h / 2 ^ 16 % 2 ^ 16
  pub sel : g.sel ≡ 0x08
  pub flags : g.flags ≡ 0xEE

pub irq_set_self : (i h : ℕ) (idt : Idt) → i < 256 → LeadsTo h (irq_set i h idt i)
unfolding irq_set idt_set_int
irq_set_self i h idt small =
    let same : i % 256 ≡ i = omega arith in
    let here : (i == i) ≡ true = ground arith in
    rw (same, here) (record { low = refl; high = refl; sel = refl; flags = refl })

pub irq_set_other : (i j h : ℕ) (idt : Idt) → i < 256 → i ≢ j → irq_set i h idt j ≡ idt j
unfolding irq_set idt_set_int
irq_set_other i j h idt small other =
    let there : (i % 256 == j) ≡ false = ground arith in rw there refl

set_all-after : (rounds i base j : ℕ) (idt : Idt) → j < i → set_all rounds i base idt j ≡ idt j
unfolding set_all idt_set_int
set_all-after zero i base j idt h = refl
set_all-after (suc rounds) i base j idt h =
    set_all-after rounds (i + 1) base j _ (omega arith) ∙ update_ne idt i j _ (omega arith)

set_all-gate :
    (rounds i base j : ℕ) (idt : Idt)
    → i ≤ j
    → j < i + rounds
    → LeadsTo base (set_all rounds i base idt j)
unfolding set_all idt_set_int
set_all-gate zero i base j idt low high = absurd (omega arith)
set_all-gate (suc rounds) i base j idt low high = elim (Bool-cases (i == j)) [
  | inl same ↦
      rw
        (
          set_all-after rounds (i + 1) base j (idt_set_int i base 0x08 0x8E idt) (ground arith),
          same,
        )
        (record { low = refl; high = refl; sel = refl; flags = refl })
  | inr other ↦ set_all-gate rounds (i + 1) base j _ (ground arith) (omega arith)
]

pub idt_init-gate :
    (noop post j : ℕ) (idt : Idt) → j < 256 → j ≢ 0x2F → LeadsTo noop (idt_init noop post idt j)
unfolding idt_init idt_set_int
idt_init-gate noop post j idt small other =
    let there : (0x2F == j) ≡ false = ground arith in
    rw there (set_all-gate 256 0 noop j idt (omega arith) (omega arith))

pub idt_init-schedule : (noop post : ℕ) (idt : Idt) → LeadsTo post (idt_init noop post idt 0x2F)
unfolding idt_init idt_set_int
idt_init-schedule noop post idt = record { low = refl; high = refl; sel = refl; flags = refl }
