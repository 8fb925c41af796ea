-- ===== src/Tests/OnArch.antt =====
-- arch/x86 at concrete inputs.
use levos.Prelude.{◌==◌, false, [], ◌∷◌, ◌⊎◌, ◌<◌, if◌then◌else◌, ℕ, ◌+◌, ◌≤◌, ◌≡◌, refl, arith}
use levos.Arch.Clock.{control_word}
use levos.Arch.Exception.{exceptions_init}
use levos.Arch.Tables.{idt_set_int}
use levos.Arch.Context.{Regs, arch_sched_setup_stack, arch_switch_context}
use levos.Arch.Context.Frame.{arch_switch_context-arch_sched_setup_stack}
use levos.Prelude.Int.{pos}
use levos.Arch.Tables.{null_gate, idt_init, set_all, irq_set, gdt_init}
use levos.Arch.Textmode.{Tmpriv, screen, textmode_write}
use levos.Arch.Textmode.Screen.{IsCursor, textmode_write-IsCursor}
use levos.Arch.Multiboot.{Entry}
use levos.Mm.State.{Mm, zero_page}

abbrev regs : Regs
regs = record {
  magic = 0x13371337;
  cr3 = 0x9000;
  edi = 1;
  esi = 2;
  ebp = 3;
  esp = 0x8000;
  ebx = 4;
  edx = 5;
  ecx = 6;
  eax = 7;
  eip = 0x100000;
  cs = 8;
  eflags = 0x202;
}

arch_switch_context-arch_sched_setup_stack_example :
    arch_switch_context (arch_sched_setup_stack regs (λ _. 0)) ≡ regs
arch_switch_context-arch_sched_setup_stack_example =
    arch_switch_context-arch_sched_setup_stack regs (λ _. 0) (omega arith)

-- The cursor at the end of the last row.
abbrev corner : Tmpriv
corner = record { x = 80; y = 24; col = 7 }

textmode_write-IsCursor_example :
    let (r, p', m') = textmode_write (b'a' ∷ b'b' ∷ b'\n' ∷ []) (corner, λ _. 0) in
    (r ≡ pos 3)
    × IsCursor p'
    × (p'.col ≡ 7)
    × ((a : ℕ) → (a < screen) ⊎ (screen + 4320 ≤ a) → m' a ≡ 0)
textmode_write-IsCursor_example =
    textmode_write-IsCursor (b'a' ∷ b'b' ∷ b'\n' ∷ []) corner (λ _. 0)
      (record { column = omega arith; row = omega arith })

abbrev machine : Mm ℕ
machine = record {
  plp = 0x200000;
  heap_online = false;
  fmap = record { nframes = 1024; frames = λ _. 0 };
  frames_at = 0x100000;
  pages = λ _ _. zero_page;
  dirs = λ _. record { phy_tables = λ _. 0; tables = λ _. 0; phy_addr = 0 };
  kernel_dir = 0;
  current_directory = 0;
  lib = 0;
}

-- The last KiB below 640 KiB.
abbrev reserved : Entry
reserved = record { size = 20; base_addr = 0x9FC00; length = 0x400; type = 2 }

-- Two entries at 0x1000, the first of which is reserved.
abbrev two_entries : ℕ → Entry
two_entries a = record {
  size = 20;
  base_addr = 0x9FC00;
  length = 0x400;
  type = if a == 0x1000 then 2 else 1;
}

-- The gate of interrupt 0x2F and that of interrupt 0x30.
gates :
    ((idt_init 0x123456 0xABCDEF (λ _. null_gate) 0x2F).base_low ≡ 0xCDEF)
    × ((idt_init 0x123456 0xABCDEF (λ _. null_gate) 0x30).base_low ≡ 0x3456)
    × ((irq_set 0x80 0x9876 (λ _. null_gate) 0x80).base_low ≡ 0x9876)
    × ((gdt_init).0 ≡ 47)
unfolding idt_init set_all irq_set gdt_init
gates = (refl, refl, refl, refl)

-- Counter 0 with both bytes of a count, in the square wave mode.
timer_word : control_word 0 0x6 ≡ 0x36
unfolding control_word
timer_word = refl

exception_gate : ((exceptions_init (λ h. 0x104000) (λ n. null_gate)).1 14).base_high ≡ 0x10
unfolding exceptions_init irq_set idt_set_int
exception_gate = refl
