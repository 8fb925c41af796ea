-- ===== src/Arch/Init.antt =====
-- arch/x86/init.c: what the processor, the serial port, the screen and the timer are like when the kernel
-- goes on. A handler, a device and a console is its address.
pub mod Wiring
pub mod Gates
use levos.Prelude.{ℕ, zero, suc, List, [], ◌∷◌}
use levos.Prelude.Text.{codes}
use levos.Kernel.Printk.{printk}
use levos.Prelude.Int.{ℤ, pos, negsuc}
use levos.Prelude.Outcome.{Outcome, ok, ◌>>=◌}
use levos.Drivers.Ports.{Ports}
use levos.Drivers.Tty.Table.{Ttys}
use levos.Arch.Tables.{Gdt, Idt, null_segment, gdt_set_desc, idt_init}
use levos.Libc.Mem.{Memory}
use levos.Arch.Textmode.{Tmpriv, textmode_init}
use levos.Arch.Serial.{x86_serial_init}
use levos.Arch.Exception.{ExcHandler, exceptions_init}
use levos.Arch.Irq.{irq_init}
use levos.Arch.Clock.{pit_init}

-- The addresses that the linker gives; the last two are those of the names of functions.
pub record Symbols : Type 0 where
  pub serial_dev : ℕ
  pub serial_con : ℕ
  pub textmode_dev : ℕ
  pub textmode_con : ℕ
  pub idt_noop_irq : ℕ
  pub post_schedule_noirq : ℕ
  pub exception : ExcHandler → ℕ
  pub pit_handler : ℕ
  pub gdt_init_name : ℕ
  pub idt_init_name : ℕ

pub record Machine (D : Type 0) : Type 0 where
  pub hardware : D
  pub text : Memory
  pub tp : Tmpriv
  pub ttys : Ttys
  pub consoles : List ℕ
  pub gdt : Gdt
  pub idt : Idt

-- `if (rc) return rc;`
abbrev pub unless_failed : {A : Type 0} → ℤ → A → (A → Outcome (ℤ × A)) → Outcome (ℤ × A)
unless_failed (pos n) s next = elim n [ zero ↦ next s | suc m ↦ ok (pos (suc m), s) ]
unless_failed (negsuc n) s next = ok (negsuc n, s)

-- `emit` is the output of a character, with all that it reaches, `string_at` the text at a pointer, and `ticks`
-- what `arch_get_ticks` gives.
module _ {D : Type 0} (hw : Ports D) (at : Symbols) (emit : ℕ → Machine D → Outcome (Machine D))
    (string_at : ℕ → List ℕ) (ticks : Machine D → ℕ) where
  -- `printk`
  unfoldable pub say : List ℕ → List ℕ → Machine D → Outcome (Machine D)
  say fmt args s = printk emit string_at (ticks s) fmt args s

  -- `gdt_set_desc` with its output.
  unfoldable pub write_desc : ℕ → ℕ → ℕ → ℕ → ℕ → Machine D → Outcome (Machine D)
  unfolding say
  write_desc num base limit ac gran s =
      say (codes "x86: gdt: write desc %d\n") (num ∷ [])
        (record s { gdt = gdt_set_desc num base limit ac gran s.gdt })

  -- `gdt_init` with its output.
  unfoldable pub load_gdt : Machine D → Outcome (Machine D)
  unfolding write_desc
  load_gdt s =
      write_desc 0 0 0 0 0 (record s { gdt = λ _. null_segment })
      >>= write_desc 1 0 0xFFFFFFFF 0x9A 0xCF
      >>= write_desc 2 0 0xFFFFFFFF 0x92 0xCF
      >>= say (codes "x86: gdt: gdtr was set, reloading segments\n") []
      >>= say (codes "x86: %s done\n") (at.gdt_init_name ∷ [])

  -- `idt_init` with its output; interrupts are on before the last line.
  unfoldable pub load_idt : Machine D → Outcome (Machine D)
  unfolding say
  load_idt s =
      say (codes "x86: idt: %s done\n") (at.idt_init_name ∷ [])
        (record s { idt = idt_init at.idt_noop_irq at.post_schedule_noirq s.idt })
      >>= say (codes "sys: enabling IRQs\n") []
      >>= say (codes "sys: IRQs were enabled we seem to be OK\n") []

  -- `exceptions_init` with its output.
  unfoldable pub load_exceptions : Machine D → Outcome (ℤ × Machine D)
  unfolding say
  load_exceptions s = say (codes "x86: exceptions being loaded\n") [] s >>= λ s'.
      let (rc, idt) = exceptions_init at.exception s'.idt in ok (rc, record s' { idt = idt })

  -- `pit_init` with its output.
  unfoldable pub start_timer : Machine D → Outcome (ℤ × Machine D)
  unfolding say
  start_timer s = pit_init hw at.pit_handler s.idt s.hardware >>= λ (rc, idt, d).
      say (codes "x86: pit: clocksource registered\n") [] (record s { idt = idt; hardware = d })
      >>= λ s'. ok (rc, s')

  -- The end, from `irq_init` on.
  unfoldable pub start_interrupts : Machine D → Outcome (ℤ × Machine D)
  unfolding start_timer
  start_interrupts s =
      let (rc, d) = irq_init hw s.hardware in
      unless_failed rc (record s { hardware = d })
        λ s'. start_timer s' >>= λ (rc', s''). unless_failed rc' s'' λ end. ok (pos 0, end)

  -- The first four functions return 0 in any case.
  unfoldable pub arch_early_init : Machine D → Outcome (ℤ × Machine D)
  unfolding load_gdt load_idt load_exceptions start_interrupts
  arch_early_init s =
      let (d, ttys, cons) =
        x86_serial_init hw at.serial_dev at.serial_con s.ttys s.consoles s.hardware in
      let (tp, text, ttys', cons') =
        textmode_init at.textmode_dev at.textmode_con s.text ttys cons in
      let s' : Machine D = record s {
        hardware = d;
        text = text;
        tp = tp;
        ttys = ttys';
        consoles = cons';
      } in
      load_gdt s' >>= load_idt >>= load_exceptions >>= λ (rc, s'').
      unless_failed rc s'' start_interrupts
