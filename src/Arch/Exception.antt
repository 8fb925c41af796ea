-- ===== src/Arch/Exception.antt =====
-- arch/x86/exception.c: the handlers of the exceptions, by their names, and their registration. `entry` is
-- the address of a handler.
pub mod Handlers
use levos.Prelude.{ℕ}
use levos.Prelude.Int.{ℤ, pos}
use levos.Arch.Tables.{Idt, irq_set}

pub data ExcHandler : Type 0 where
  exc_divide_by_zero exc_debug exc_nmi exc_brp exc_overflow exc_bound exc_invopcode : ExcHandler
  exc_device_not_avail exc_double_fault exc_coproc exc_invtss exc_segment_not_present : ExcHandler
  exc_ssf exc_gpf exc_pf exc_reserved : ExcHandler

unfoldable pub exceptions_init : (ExcHandler → ℕ) → Idt → ℤ × Idt
exceptions_init entry idt =
    let idt3 =
      irq_set 2 (entry exc_nmi)
        (irq_set 1 (entry exc_debug) (irq_set 0 (entry exc_divide_by_zero) idt)) in
    let idt6 =
      irq_set 5 (entry exc_bound)
        (irq_set 4 (entry exc_overflow) (irq_set 3 (entry exc_brp) idt3)) in
    let idt8 = irq_set 7 (entry exc_device_not_avail) (irq_set 6 (entry exc_invopcode) idt6) in
    let idt10 = irq_set 9 (entry exc_coproc) (irq_set 8 (entry exc_double_fault) idt8) in
    let idt12 = irq_set 11 (entry exc_segment_not_present) (irq_set 10 (entry exc_invtss) idt10) in
    let idt14 = irq_set 13 (entry exc_gpf) (irq_set 12 (entry exc_ssf) idt12) in
    (pos 0, irq_set 15 (entry exc_reserved) (irq_set 14 (entry exc_pf) idt14))
