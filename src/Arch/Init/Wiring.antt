-- ===== src/Arch/Init/Wiring.antt =====
-- arch/x86/init.c: where the gates of the table of interrupts lead.
use levos.Prelude.{ℕ, ◌≤◌, ◌<◌, ◌≡◌, ◌≢◌, refl, sym, arith}
use levos.Arch.Tables.{Idt, idt_set_int, idt_init, irq_set}
use levos.Arch.Tables.Gates.{LeadsTo, irq_set_self, irq_set_other, idt_init-gate, idt_init-schedule}
use levos.Arch.Exception.{
  ExcHandler, exceptions_init, exc_divide_by_zero, exc_debug, exc_nmi, exc_brp, exc_overflow,
  exc_bound, exc_invopcode, exc_device_not_avail, exc_double_fault, exc_coproc, exc_invtss,
  exc_segment_not_present, exc_ssf, exc_gpf, exc_pf, exc_reserved,
}
use levos.Arch.Init.{Symbols}

-- The exceptions of the processor.
abbrev pub vector : ExcHandler → ℕ
vector exc_divide_by_zero = 0
vector exc_debug = 1
vector exc_nmi = 2
vector exc_brp = 3
vector exc_overflow = 4
vector exc_bound = 5
vector exc_invopcode = 6
vector exc_device_not_avail = 7
vector exc_double_fault = 8
vector exc_coproc = 9
vector exc_invtss = 10
vector exc_segment_not_present = 11
vector exc_ssf = 12
vector exc_gpf = 13
vector exc_pf = 14
vector exc_reserved = 15

exceptions_init_other :
    (at : ExcHandler → ℕ) (idt : Idt) (j : ℕ) → 16 ≤ j → (exceptions_init at idt).1 j ≡ idt j
unfolding exceptions_init irq_set idt_set_int
exceptions_init_other at idt j high = ground arith

exceptions_init_self :
    (at : ExcHandler → ℕ) (idt : Idt) (h : ExcHandler)
    → LeadsTo (at h) ((exceptions_init at idt).1 (vector h))
unfolding exceptions_init irq_set idt_set_int
exceptions_init_self at idt exc_divide_by_zero = record {
  low = refl;
  high = refl;
  sel = refl;
  flags = refl;
}
exceptions_init_self at idt exc_debug = record { low = refl; high = refl; sel = refl; flags = refl }
exceptions_init_self at idt exc_nmi = record { low = refl; high = refl; sel = refl; flags = refl }
exceptions_init_self at idt exc_brp = record { low = refl; high = refl; sel = refl; flags = refl }
exceptions_init_self at idt exc_overflow = record {
  low = refl;
  high = refl;
  sel = refl;
  flags = refl;
}
exceptions_init_self at idt exc_bound = record { low = refl; high = refl; sel = refl; flags = refl }
exceptions_init_self at idt exc_invopcode = record {
  low = refl;
  high = refl;
  sel = refl;
  flags = refl;
}
exceptions_init_self at idt exc_device_not_avail = record {
  low = refl;
  high = refl;
  sel = refl;
  flags = refl;
}
exceptions_init_self at idt exc_double_fault = record {
  low = refl;
  high = refl;
  sel = refl;
  flags = refl;
}
exceptions_init_self at idt exc_coproc = record {
  low = refl;
  high = refl;
  sel = refl;
  flags = refl;
}
exceptions_init_self at idt exc_invtss = record {
  low = refl;
  high = refl;
  sel = refl;
  flags = refl;
}
exceptions_init_self at idt exc_segment_not_present = record {
  low = refl;
  high = refl;
  sel = refl;
  flags = refl;
}
exceptions_init_self at idt exc_ssf = record { low = refl; high = refl; sel = refl; flags = refl }
exceptions_init_self at idt exc_gpf = record { low = refl; high = refl; sel = refl; flags = refl }
exceptions_init_self at idt exc_pf = record { low = refl; high = refl; sel = refl; flags = refl }
exceptions_init_self at idt exc_reserved = record {
  low = refl;
  high = refl;
  sel = refl;
  flags = refl;
}

vector-lt : (h : ExcHandler) → vector h < 16
vector-lt exc_divide_by_zero = omega arith
vector-lt exc_debug = omega arith
vector-lt exc_nmi = omega arith
vector-lt exc_brp = omega arith
vector-lt exc_overflow = omega arith
vector-lt exc_bound = omega arith
vector-lt exc_invopcode = omega arith
vector-lt exc_device_not_avail = omega arith
vector-lt exc_double_fault = omega arith
vector-lt exc_coproc = omega arith
vector-lt exc_invtss = omega arith
vector-lt exc_segment_not_present = omega arith
vector-lt exc_ssf = omega arith
vector-lt exc_gpf = omega arith
vector-lt exc_pf = omega arith
vector-lt exc_reserved = omega arith

module _ (at : Symbols) where
  -- The table of interrupts: each exception of the processor leads to its handler, interrupt 32 to that of
  -- the timer, 0x2F to the scheduler, and all other ones to the handler that does nothing.
  pub record IsWired (idt : Idt) : Type 0 where
    pub exceptions : (h : ExcHandler) → LeadsTo (at.exception h) (idt (vector h))
    pub clock : LeadsTo at.pit_handler (idt 32)
    pub schedule : LeadsTo at.post_schedule_noirq (idt 0x2F)
    pub others : (j : ℕ) → 16 ≤ j → j < 256 → j ≢ 32 → j ≢ 0x2F → LeadsTo at.idt_noop_irq (idt j)

  pub wired :
      (idt : Idt)
      → IsWired (
          irq_set 32 at.pit_handler
            (exceptions_init at.exception (idt_init at.idt_noop_irq at.post_schedule_noirq idt)).1)
  wired idt =
      let first = idt_init at.idt_noop_irq at.post_schedule_noirq idt in
      let second = (exceptions_init at.exception first).1 in
      let late = λ (j : ℕ) (h : 32 ≢ j). irq_set_other 32 j at.pit_handler second (omega arith) h in
      let high = λ (j : ℕ) (h : 16 ≤ j). exceptions_init_other at.exception first j h in
      record {
        exceptions = λ h.
            let below = vector-lt h in
            rw (late (vector h) (omega arith)) (exceptions_init_self at.exception first h);
        clock = irq_set_self 32 at.pit_handler second (omega arith);
        schedule =
            rw (late 0x2F (omega arith), high 0x2F (omega arith))
              (idt_init-schedule at.idt_noop_irq at.post_schedule_noirq idt);
        others = λ j above small no_clock no_schedule.
            rw (late j (λ e. no_clock (sym e)), high j above)
              (idt_init-gate at.idt_noop_irq at.post_schedule_noirq j idt small no_schedule);
      }
