-- ===== src/Arch/Irq/Entry.antt =====
-- include/levos/x86.h and arch/x86/sched.c: the registers that an interrupt saves, and those with which the
-- code goes on that it interrupted.
use levos.Prelude.{ℕ, ◌+◌, ◌-◌, ◌*◌, ◌%◌, ◌^◌, ◌<◌, ◌≡◌, refl, arith, get_or}
use levos.Prelude.Outcome.{ok}
use levos.Arch.Context.{Regs, pointer}
use levos.Arch.Context.Frame.{read_frame}
use levos.Arch.Irq.{irq_words, irq_magic, irq_entry, read_regs, save_pre_irq_regs, irq_exit}

entry_word :
    (cpu : Regs) (m : ℕ → ℕ) (k : ℕ)
    → k < 13
    → (irq_entry cpu m).memory ((pointer cpu.esp 13 + 4 * k) % 2 ^ 32)
      ≡ get_or (irq_words cpu) (13 - 1 - k) 0
unfolding irq_entry
entry_word cpu m k h = read_frame cpu.esp (irq_words cpu) m 13 (omega arith) refl k h

-- The frame is a `struct pt_regs` of the registers, but for the stack pointer.
entry_regs :
    (cpu : Regs) (m : ℕ → ℕ)
    → read_regs (pointer cpu.esp 13) (irq_entry cpu m).memory
      ≡ record cpu { magic = irq_magic; esp = pointer cpu.esp 3 }
unfolding read_regs
entry_regs cpu m =
    let at = λ (k : ℕ) (h : k < 13). entry_word cpu m k h in
    rw
      (
        at 0 (omega arith),
        at 1 (omega arith),
        at 2 (omega arith),
        at 3 (omega arith),
        at 4 (omega arith),
        at 5 (omega arith),
        at 6 (omega arith),
        at 7 (omega arith),
        at 8 (omega arith),
        at 9 (omega arith),
        at 10 (omega arith),
        at 11 (omega arith),
        at 12 (omega arith),
      )
      refl

entry_pointers :
    (cpu : Regs) (m : ℕ → ℕ)
    → ((irq_entry cpu m).pre_irq_esp ≡ pointer cpu.esp 13)
      × ((irq_entry cpu m).pre_pushal_esp ≡ pointer cpu.esp 3)
unfolding irq_entry
entry_pointers cpu m = (refl, refl)

-- What an interrupt saves is each register of the code that it interrupted, with the stack pointer that
-- this code had.
pub save_pre_irq_regs-irq_entry :
    (cpu : Regs) (m : ℕ → ℕ)
    → cpu.esp < 2 ^ 32
    → save_pre_irq_regs (irq_entry cpu m) ≡ ok (record cpu { magic = irq_magic })
unfolding save_pre_irq_regs
save_pre_irq_regs-irq_entry cpu m small =
    let (low, high) = entry_pointers cpu m in
    let top : (pointer cpu.esp 3 + 12) % 2 ^ 32 ≡ cpu.esp = omega arith in
    rw (low, high, entry_regs cpu m, top) refl

-- A handler that returns, which leaves the frame, goes on with the registers of the interrupt.
pub irq_exit-irq_entry :
    (cpu : Regs) (m : ℕ → ℕ) → cpu.esp < 2 ^ 32 → irq_exit cpu (irq_entry cpu m) ≡ cpu
unfolding irq_exit
irq_exit-irq_entry cpu m small =
    let (low, high) = entry_pointers cpu m in
    let top : (pointer cpu.esp 13 + 52) % 2 ^ 32 ≡ cpu.esp = omega arith in
    rw (low, entry_regs cpu m, top) refl
