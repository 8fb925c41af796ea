-- ===== src/Arch/Init/Gates.antt =====
-- arch/x86/init.c: arch_early_init, with what it prints, leaves the gates of the table of interrupts wired.
use levos.Prelude.{
  ℕ, ◌^◌, ◌<◌, ◌≡◌, ◌∙◌, refl, ap as cong, arith, List, [], ◌∷◌, ◌++◌, All, Bool, false, ◌==◌, ◌||◌,
}
use levos.Prelude.Int.{pos}
use levos.Prelude.Outcome.{Outcome, ok, ◌>>=◌}
use levos.Drivers.Ports.{Ports}
use levos.Arch.Tables.{Idt, null_segment, gdt_set_desc, idt_init, irq_set}
use levos.Arch.Exception.{exceptions_init}
use levos.Arch.Irq.{irq_init}
use levos.Arch.Clock.{pit_init, pit_start_counter}
use levos.Arch.Init.{
  Symbols, Machine, unless_failed, say, write_desc, load_gdt, load_idt, load_exceptions,
  start_timer, start_interrupts, arch_early_init,
}
use levos.Prelude.Text.{codes}
use levos.Kernel.Printk.Format.{Piece, a_char, the_decimal, the_string, IsPiece, format_of, args_of}
use levos.Kernel.Printk.Quiet.{Keeps, Keeps-printk}
use levos.Arch.Init.Wiring.{IsWired, wired}

-- Characters of a format, none of which is a percent sign.
abbrev chars : List ℕ → List Piece
chars [] = []
chars (c ∷ text) = a_char c ∷ chars text

abbrev has_percent : List ℕ → Bool
has_percent [] = false
has_percent (c ∷ text) = c == b'%' || has_percent text

chars-IsPiece :
    (text : List ℕ) (tail : List Piece)
    → has_percent text ≡ false
    → All IsPiece tail
    → All IsPiece (chars text ++ tail)
chars-IsPiece [] tail plain h = h
chars-IsPiece (c ∷ text) tail plain h =
    (λ e. ground arith, chars-IsPiece text tail (ground arith) h)

module _ {D : Type 0} (hw : Ports D) (at : Symbols) where
  module _ (emit : ℕ → Machine D → Outcome (Machine D)) (string_at : ℕ → List ℕ)
      (ticks : Machine D → ℕ) (word : (s : Machine D) → ticks s < 2 ^ 32)
      (quiet : (c : ℕ) → Keeps Machine.idt (emit c)) where
    Keeps-say :
        (text : List ℕ) (tail : List Piece)
        → has_percent text ≡ false
        → All IsPiece tail
        → Keeps Machine.idt (
            say hw at emit string_at ticks
              (format_of (chars text ++ tail))
              (args_of (chars text ++ tail)))
    unfolding say
    Keeps-say text tail plain h s =
        Keeps-printk emit string_at Machine.idt quiet (ticks s) (chars text ++ tail) (word s)
          (chars-IsPiece text tail plain h) s

    Keeps-write_desc :
        (num base limit ac gran : ℕ)
        → num < 2 ^ 32
        → Keeps Machine.idt (write_desc hw at emit string_at ticks num base limit ac gran)
    unfolding write_desc
    Keeps-write_desc num base limit ac gran small s =
        Keeps-say (codes "x86: gdt: write desc ") (the_decimal num ∷ a_char 10 ∷ []) refl
          (small, ((omega arith), tt))
          (record s { gdt = gdt_set_desc num base limit ac gran s.gdt })

    module _ (gdt_named : at.gdt_init_name < 2 ^ 32) (idt_named : at.idt_init_name < 2 ^ 32) where
      Keeps-load_gdt : Keeps Machine.idt (load_gdt hw at emit string_at ticks)
      unfolding load_gdt
      Keeps-load_gdt s =
          let (s0, run0, same0) =
            Keeps-write_desc 0 0 0 0 0 (omega arith) (record s { gdt = λ _. null_segment }) in
          let (s1, run1, same1) = Keeps-write_desc 1 0 0xFFFFFFFF 0x9A 0xCF (omega arith) s0 in
          let (s2, run2, same2) = Keeps-write_desc 2 0 0xFFFFFFFF 0x92 0xCF (omega arith) s1 in
          let (s3, run3, same3) =
            Keeps-say (codes "x86: gdt: gdtr was set, reloading segments\n") [] refl tt s2 in
          let (s4, run4, same4) =
            Keeps-say (codes "x86: ") (the_string at.gdt_init_name ∷ chars (codes " done\n")) refl
              (gdt_named, chars-IsPiece (codes " done\n") [] refl tt) s3 in
          (s4, rw (run0, run1, run2, run3) run4, same4 ∙ same3 ∙ same2 ∙ same1 ∙ same0)

      load_idt-idt :
          (s : Machine D)
          → (s' : Machine D) × (load_idt hw at emit string_at ticks s ≡ ok s')
            × (s'.idt ≡ idt_init at.idt_noop_irq at.post_schedule_noirq s.idt)
      unfolding load_idt
      load_idt-idt s =
          let (s0, run0, same0) =
            Keeps-say (codes "x86: idt: ") (the_string at.idt_init_name ∷ chars (codes " done\n"))
              refl (idt_named, chars-IsPiece (codes " done\n") [] refl tt)
              (record s { idt = idt_init at.idt_noop_irq at.post_schedule_noirq s.idt }) in
          let (s1, run1, same1) = Keeps-say (codes "sys: enabling IRQs\n") [] refl tt s0 in
          let (s2, run2, same2) =
            Keeps-say (codes "sys: IRQs were enabled we seem to be OK\n") [] refl tt s1 in
          (s2, rw (run0, run1) run2, same2 ∙ same1 ∙ same0)

      load_exceptions-idt :
          (s : Machine D)
          → (s' : Machine D) × (load_exceptions hw at emit string_at ticks s ≡ ok (pos 0, s'))
            × (s'.idt ≡ (exceptions_init at.exception s.idt).1)
      unfolding load_exceptions exceptions_init
      load_exceptions-idt s =
          let (s0, run, same) = Keeps-say (codes "x86: exceptions being loaded\n") [] refl tt s in
          (
            record s0 { idt = (exceptions_init at.exception s0.idt).1 },
            rw run refl,
            cong (λ (idt : Idt). (exceptions_init at.exception idt).1) same,
          )

      pit_runs :
          (idt : Idt) (d : D)
          → (d' : D) × (pit_init hw at.pit_handler idt d
              ≡ ok (pos 0, irq_set 32 at.pit_handler idt, d'))
      unfolding pit_init pit_start_counter
      pit_runs idt d = (_, refl)

      start_timer-idt :
          (s : Machine D)
          → (s' : Machine D) × (start_timer hw at emit string_at ticks s ≡ ok (pos 0, s'))
            × (s'.idt ≡ irq_set 32 at.pit_handler s.idt)
      unfolding start_timer
      start_timer-idt s =
          let (d, counts) = pit_runs s.idt s.hardware in
          let (s', run, same) =
            Keeps-say (codes "x86: pit: clocksource registered\n") [] refl tt
              (record s { idt = irq_set 32 at.pit_handler s.idt; hardware = d }) in
          (s', rw (counts, run) refl, same)

      start_interrupts-idt :
          (s : Machine D)
          → (s' : Machine D) × (start_interrupts hw at emit string_at ticks s ≡ ok (pos 0, s'))
            × (s'.idt ≡ irq_set 32 at.pit_handler s.idt)
      unfolding start_interrupts irq_init
      start_interrupts-idt s =
          let (s', run, same) =
            start_timer-idt (record s { hardware = (irq_init hw s.hardware).1 }) in
          (s', rw run refl, same)

      -- The end, from `gdt_init` on.
      loads :
          (s : Machine D)
          → (s' : Machine D) × ((load_gdt hw at emit string_at ticks s
                >>= load_idt hw at emit string_at ticks
                >>= load_exceptions hw at emit string_at ticks
                >>= λ (rc, s''). unless_failed rc s'' (start_interrupts hw at emit string_at ticks))
              ≡ ok (pos 0, s'))
            × IsWired at s'.idt
      loads s =
          let (s1, run1, same1) = Keeps-load_gdt s in
          let (s2, run2, same2) = load_idt-idt s1 in
          let (s3, run3, same3) = load_exceptions-idt s2 in
          let (s4, run4, same4) = start_interrupts-idt s3 in
          (s4, rw (run1, run2, run3) run4, rw (same4, same3, same2, same1) (wired at s.idt))

      -- As long as the output of each character returns and leaves the table of interrupts alone,
      -- `arch_early_init` succeeds and leaves the table wired, whatever was there
      -- before. The pointers to the names that are printed and the number of ticks are words of 32 bits.
      pub arch_early_init-IsWired :
          (s : Machine D)
          → (s' : Machine D) × (arch_early_init hw at emit string_at ticks s ≡ ok (pos 0, s'))
            × IsWired at s'.idt
      unfolding arch_early_init
      arch_early_init-IsWired s =
          loads (record s { hardware = _; text = _; tp = _; ttys = _; consoles = _ })
