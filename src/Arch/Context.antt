-- ===== src/Arch/Context.antt =====
-- arch/x86/sched.c and include/levos/x86.h: the registers of a thread, the frame that is pushed for it, and
-- the switch that takes the frame from the stack. Memory is a function from the address of a word of 32 bits.
pub mod Frame
use levos.Prelude.{ℕ, ◌+◌, ◌-◌, ◌*◌, ◌%◌, ◌^◌, List, [], ◌∷◌, update}

-- `struct pt_regs`
pub record Regs : Type 0 where
  pub magic : ℕ
  pub cr3 : ℕ
  pub edi : ℕ
  pub esi : ℕ
  pub ebp : ℕ
  pub esp : ℕ
  pub ebx : ℕ
  pub edx : ℕ
  pub ecx : ℕ
  pub eax : ℕ
  pub eip : ℕ
  pub cs : ℕ
  pub eflags : ℕ

-- The pointer `s` to words, after `k` times `--s`.
abbrev pub pointer : ℕ → ℕ → ℕ
pointer s k = (s + 2 ^ 32 - 4 * k) % 2 ^ 32

-- `*(--s) = w` for each word, where `s` went down `k` times before.
unfoldable pub push : ℕ → ℕ → List ℕ → (ℕ → ℕ) → ℕ → ℕ
push s k [] m = m
push s k (w ∷ ws) m = push s (k + 1) ws (update m (pointer s (k + 1)) w)

-- The eighth word is `tmp`, the pointer after three of the pushes.
unfoldable pub arch_sched_setup_stack : Regs → (ℕ → ℕ) → Regs × (ℕ → ℕ)
unfolding push
arch_sched_setup_stack r m =
    let s = r.esp in
    (
      record r { esp = pointer s 11 },
      push s 0
          (r.eflags
            ∷ r.cs
            ∷ r.eip
            ∷ r.eax
            ∷ r.ecx
            ∷ r.edx
            ∷ r.ebx
            ∷ pointer s 3
            ∷ r.ebp
            ∷ r.esi
            ∷ r.edi
            ∷ [])
          m,
    )

-- The registers after `ARCH_SWITCH_CONTEXT`: `esp` and `cr3` come from the thread, `popal` takes 8 words
-- and drops the fourth, and `iretl` takes 3. `magic` is no register and stays.
unfoldable pub arch_switch_context : Regs × (ℕ → ℕ) → Regs
arch_switch_context (r, m) =
    let word = λ (k : ℕ). m ((r.esp + 4 * k) % 2 ^ 32) in
    record {
      magic = r.magic;
      cr3 = r.cr3;
      edi = word 0;
      esi = word 1;
      ebp = word 2;
      esp = (r.esp + 44) % 2 ^ 32;
      ebx = word 4;
      edx = word 5;
      ecx = word 6;
      eax = word 7;
      eip = word 8;
      cs = word 9;
      eflags = word 10;
    }

-- The register `cr3` is read from the processor.
unfoldable pub arch_sched_mk_initial_regs : ℕ → Regs
arch_sched_mk_initial_regs cr3 = record {
  magic = 0;
  cr3 = cr3;
  edi = 0;
  esi = 0;
  ebp = 0;
  esp = 0;
  ebx = 0;
  edx = 0;
  ecx = 0;
  eax = 0;
  eip = 0;
  cs = 0x8;
  eflags = 0x202;
}

-- `THREAD_STACK_SET`
unfoldable pub thread_stack_set : Regs → ℕ → Regs
thread_stack_set r a = record r { esp = a; ebp = a }
