-- ===== src/Arch/Irq.antt =====
-- arch/x86/irq.c, DEF_IRQ_HANDLER of include/levos/x86.h and save_pre_irq_regs of arch/x86/sched.c: the
-- interrupt controllers, and the way into a handler and out of it. Memory is a function from the address
-- of a word of 32 bits.
pub mod Entry
use levos.Prelude.{ℕ, ◌+◌, ◌-◌, ◌*◌, ◌%◌, ◌^◌, List, [], ◌∷◌, ◌==◌, ltb, if◌then◌else◌}
use levos.Prelude.Int.{ℤ, pos}
use levos.Prelude.Outcome.{Outcome, ok, panic}
use levos.Arch.Context.{Regs, pointer, push}
use levos.Drivers.Ports.{Ports}

module _ {D : Type 0} (hw : Ports D) where
  unfoldable pub irq_remap : D → D
  irq_remap d =
      let d1 = hw.outportb 0xA0 0x11 (hw.outportb 0x20 0x11 d) in
      let d2 = hw.outportb 0xA1 0x28 (hw.outportb 0x21 0x20 d1) in
      let d3 = hw.outportb 0xA1 0x02 (hw.outportb 0x21 0x04 d2) in
      let d4 = hw.outportb 0xA1 0x01 (hw.outportb 0x21 0x01 d3) in
      hw.outportb 0xA1 0x0 (hw.outportb 0x21 0x0 d4)

  -- For the interrupt that `current_irq` names.
  unfoldable pub send_eoi : ℕ → D → Outcome D
  send_eoi current_irq d =
      if current_irq == 0xFF
      then panic
      else ok (hw.outportb 0x20 0x20 (if ltb 8 current_irq then hw.outportb 0xA0 0x20 d else d))

  unfoldable pub arch_prep_exit_irq : ℕ → D → Outcome D
  unfolding send_eoi
  arch_prep_exit_irq current_irq d = send_eoi current_irq d

  unfoldable pub irq_init : D → ℤ × D
  irq_init d = (pos 0, irq_remap d)

-- The number that the handler pushes last.
abbrev pub irq_magic : ℕ
irq_magic = 0x13371337

-- What is on the stack when `save_pre_irq_regs` is called: the processor has pushed `eflags`, `cs` and
-- `eip`, `pushal` eight registers, the fifth of which is the stack pointer before it, and the handler
-- `cr3` and the magic number.
abbrev pub irq_words : Regs → List ℕ
irq_words cpu =
    cpu.eflags
    ∷ cpu.cs
    ∷ cpu.eip
    ∷ cpu.eax
    ∷ cpu.ecx
    ∷ cpu.edx
    ∷ cpu.ebx
    ∷ pointer cpu.esp 3
    ∷ cpu.ebp
    ∷ cpu.esi
    ∷ cpu.edi
    ∷ cpu.cr3
    ∷ irq_magic
    ∷ []

-- The way in, for the registers at the interrupt: `pre_pushal_esp`, `pre_irq_esp` and memory.
pub record Entered : Type 0 where
  pub pre_pushal_esp : ℕ
  pub pre_irq_esp : ℕ
  pub memory : ℕ → ℕ

unfoldable pub irq_entry : Regs → (ℕ → ℕ) → Entered
unfolding push
irq_entry cpu m = record {
  pre_pushal_esp = pointer cpu.esp 3;
  pre_irq_esp = pointer cpu.esp 13;
  memory = push cpu.esp 0 (irq_words cpu) m;
}

-- The words from `s` on as a `struct pt_regs`.
unfoldable pub read_regs : ℕ → (ℕ → ℕ) → Regs
read_regs s m =
    let word = λ (k : ℕ). m ((s + 4 * k) % 2 ^ 32) in
    record {
      magic = word 0;
      cr3 = word 1;
      edi = word 2;
      esi = word 3;
      ebp = word 4;
      esp = word 5;
      ebx = word 6;
      edx = word 7;
      ecx = word 8;
      eax = word 9;
      eip = word 10;
      cs = word 11;
      eflags = word 12;
    }

-- `save_pre_irq_regs`: the copy `__x86_pre_irq_regs`, which a current thread is given too.
unfoldable pub save_pre_irq_regs : Entered → Outcome Regs
save_pre_irq_regs e =
    let r = record (read_regs e.pre_irq_esp e.memory) { esp = (e.pre_pushal_esp + 12) % 2 ^ 32 } in
    if r.magic == irq_magic then ok r else panic

-- The way out of a handler that returns: two `pop`, `popal`, which drops the word of the stack pointer, and
-- `iretl`. No register is magic, and `cr3` stays what it is.
unfoldable pub irq_exit : Regs → Entered → Regs
irq_exit cpu e = record (read_regs e.pre_irq_esp e.memory) {
  magic = cpu.magic;
  cr3 = cpu.cr3;
  esp = (e.pre_irq_esp + 52) % 2 ^ 32;
}
