-- ===== src/Arch/Context/Frame.antt =====
-- arch/x86/sched.c: what the pushes leave in memory, and what the switch finds there.
use levos.Prelude.{
  ℕ, zero, suc, ◌+◌, ◌-◌, ◌*◌, ◌%◌, ◌^◌, ◌≤◌, ◌<◌, ◌≡◌, ◌≢◌, ◌∙◌, refl, ap, arith, List, [], ◌∷◌,
  length, get_or, update, update_self, update_ne,
}
use levos.Arch.Context.{
  Regs, pointer, push, arch_sched_setup_stack, arch_switch_context, arch_sched_mk_initial_regs,
  thread_stack_set,
}

pointer-ne : (s j k : ℕ) → j ≤ k → k < 1000 → pointer s (k + 1) ≢ pointer s j
pointer-ne s j k h small = omega arith

-- The words above those that are pushed stay.
push-above :
    (s k j : ℕ) (ws : List ℕ) (m : ℕ → ℕ)
    → j ≤ k
    → k + length ws < 1000
    → push s k ws m (pointer s j) ≡ m (pointer s j)
unfolding push
push-above s k j [] m h small = refl
push-above s k j (w ∷ ws) m h small =
    push-above s (k + 1) j ws _ (omega arith) (omega arith)
    ∙ update_ne m _ _ w (pointer-ne s j k h (omega arith))

pub push-get :
    (s k i : ℕ) (ws : List ℕ) (m : ℕ → ℕ)
    → i < length ws
    → k + length ws < 1000
    → push s k ws m (pointer s (k + 1 + i)) ≡ get_or ws i 0
unfolding push
push-get s k i [] m h small = absurd (omega arith)
push-get s k zero (w ∷ ws) m h small =
    let here =
      push-above s (k + 1) (k + 1) ws (update m (pointer s (k + 1)) w) (omega arith)
        (omega arith) in
    let at : k + 1 + 0 ≡ k + 1 = omega arith in rw at (here ∙ update_self m _ w)
push-get s k (suc i) (w ∷ ws) m h small =
    let at : k + 1 + suc i ≡ k + 1 + 1 + i = omega arith in
    rw at (push-get s (k + 1) i ws _ (omega arith) (omega arith))

-- A frame of words below `s`, read upwards from its lower end.
module _ (s : ℕ) (ws : List ℕ) (m : ℕ → ℕ) (n : ℕ) (small : n < 1000) (all : length ws ≡ n) where
  pub read_frame :
      (k : ℕ) → k < n → push s 0 ws m ((pointer s n + 4 * k) % 2 ^ 32) ≡ get_or ws (n - 1 - k) 0
  read_frame k h =
      let place : (pointer s n + 4 * k) % 2 ^ 32 ≡ pointer s (0 + 1 + (n - 1 - k)) = omega arith in
      rw place (push-get s 0 (n - 1 - k) ws m (omega arith) (omega arith))

-- A switch to a thread that was set up by `arch_sched_setup_stack` continues with exactly the registers
-- of the thread: the switch takes each word from where it was pushed, and the stack pointer is again
-- what it was before the frame, for each stack pointer of 32 bits, wherever the stack lies.
pub arch_switch_context-arch_sched_setup_stack :
    (r : Regs) (m : ℕ → ℕ) → r.esp < 2 ^ 32 → arch_switch_context (arch_sched_setup_stack r m) ≡ r
unfolding arch_switch_context arch_sched_setup_stack
arch_switch_context-arch_sched_setup_stack r m small =
    let words =
      r.eflags
      ∷ r.cs
      ∷ r.eip
      ∷ r.eax
      ∷ r.ecx
      ∷ r.edx
      ∷ r.ebx
      ∷ pointer r.esp 3
      ∷ r.ebp
      ∷ r.esi
      ∷ r.edi
      ∷ [] in
    let at = λ (k : ℕ) (h : k < 11). read_frame r.esp words m 11 (omega arith) refl k h in
    let top : (pointer r.esp 11 + 44) % 2 ^ 32 ≡ r.esp = omega arith in
    rw
      (
        at 0 (omega arith),
        at 1 (omega arith),
        at 2 (omega arith),
        at 4 (omega arith),
        at 5 (omega arith),
        at 6 (omega arith),
        at 7 (omega arith),
        at 8 (omega arith),
        at 9 (omega arith),
        at 10 (omega arith),
        top,
      )
      refl

-- A thread that was given its first registers, an entry and a stack starts at the entry, on the top of
-- the stack, in the segment of the kernel's code and with interrupts enabled.
pub first_switch :
    (cr3 entry top : ℕ) (m : ℕ → ℕ)
    → top < 2 ^ 32
    → let r = thread_stack_set (record (arch_sched_mk_initial_regs cr3) { eip = entry }) top in
      let cpu = arch_switch_context (arch_sched_setup_stack r m) in
      (cpu.eip ≡ entry) × (cpu.esp ≡ top) × (cpu.cs ≡ 0x8) × (cpu.eflags ≡ 0x202) × (cpu.cr3 ≡ cr3)
unfolding thread_stack_set arch_sched_mk_initial_regs
first_switch cr3 entry top m small =
    let r = thread_stack_set (record (arch_sched_mk_initial_regs cr3) { eip = entry }) top in
    let same = arch_switch_context-arch_sched_setup_stack r m small in
    (ap Regs.eip same, ap Regs.esp same, ap Regs.cs same, ap Regs.eflags same, ap Regs.cr3 same)
