-- ===== src/Kernel/Syscall.antt =====
-- kernel/syscall.c: the table of the system calls and the handler of interrupt 0x80. The table of open
-- files is that of the current process; what `vfs_open`, `vfs_stat` and the `read` and `write` of a file
-- return is passed in.
pub mod Resume
pub mod Number
use levos.Prelude.{
  ℕ, zero, suc, ◌+◌, ◌-◌, ◌%◌, ◌^◌, List, [], ◌∷◌, Bool, true, false, ◌==◌, ltb, leb, if◌then◌else◌,
  get_or,
}
use levos.Prelude.Int.{ℤ, pos, negsuc, neg}
use levos.Prelude.Errno.{enosys}
use levos.Prelude.Outcome.{Outcome, ok, fault, ◌>>=◌}
use levos.Kernel.Files.{syscall_open, syscall_close, syscall_transfer}
use levos.Kernel.Sched.{Sched}
use levos.Kernel.Sched.Removal.{sched_rm_process}
use levos.Arch.Context.{Regs, arch_sched_setup_stack, arch_switch_context}
use levos.Arch.Tables.{Idt, irq_set}

pub data Call : Type 0 where
  call_null : Call
  call_exit : Call
  call_read : Call
  call_write : Call
  call_open : Call
  call_close : Call
  call_stat : Call

-- The 256 entries; behind the list they are 0.
abbrev pub syscalls : ℕ → Call
syscalls n =
    get_or
      (call_null ∷ call_exit ∷ call_null ∷ call_read ∷ call_write ∷ call_open ∷ call_close
        ∷ call_null ∷ call_null ∷ call_null ∷ call_null ∷ call_null ∷ call_null ∷ call_null
        ∷ call_null ∷ call_null ∷ call_null ∷ call_null ∷ call_stat ∷ [])
      n call_null

-- A word of 32 bits as an `int`, and back.
abbrev pub int_of_word : ℕ → ℤ
int_of_word w = if ltb w (2 ^ 31) then pos w else negsuc (2 ^ 32 - 1 - w)

abbrev pub word_of_int : ℤ → ℕ
word_of_int (pos n) = n % 2 ^ 32
word_of_int (negsuc n) = 2 ^ 32 - 1 - n % 2 ^ 32

-- What a system call can change.
pub record Kernel : Type 0 where
  pub file_table : List ℕ
  pub sched : Sched

-- `vfs_open` and `vfs_stat` for a pointer to a path, and the operations of a file for the file, the buffer and
-- the count.
pub record Files : Type 0 where
  pub open_path : ℕ → ℕ
  pub stat_path : ℕ → ℕ → ℤ
  pub read : ℕ → ℕ → ℕ → Outcome ℤ
  pub write : ℕ → ℕ → ℕ → Outcome ℤ

unfoldable pub syscall_exit : Regs → Kernel → Outcome (ℤ × Kernel)
syscall_exit r st =
    if st.sched.current == 0
    then fault
    else sched_rm_process (st.sched.thread_at st.sched.current).owner st.sched >>= λ (_, sched).
        ok (pos 0x13371337, record st { sched = sched })

module _ (files : Files) where
  -- The function that the table names, or `syscall_null`.
  unfoldable pub run_call : Call → Regs → Kernel → Outcome (ℤ × Kernel)
  run_call call_null r st = ok (neg enosys, st)
  run_call call_exit r st = syscall_exit r st
  run_call call_read r st =
      syscall_transfer (λ filp. files.read filp r.ecx r.edx) (int_of_word r.ebx) st.file_table
      >>= λ v. ok (v, st)
  run_call call_write r st =
      syscall_transfer (λ filp. files.write filp r.ecx r.edx) (int_of_word r.ebx) st.file_table
      >>= λ v. ok (v, st)
  run_call call_open r st =
      let (v, table) = syscall_open (files.open_path r.ebx) st.file_table in
      ok (v, record st { file_table = table })
  run_call call_close r st = syscall_close (int_of_word r.ebx) st.file_table >>= λ (v, table).
      ok (v, record st { file_table = table })
  run_call call_stat r st = ok (files.stat_path r.ebx r.ecx, st)

  -- The registers with which the thread goes on; `m` is memory when the call is over. The number of the call is not guarded against the end
  -- of the table; the copy of the registers is one onto themselves.
  unfoldable pub syscall_hub : Regs → (ℕ → ℕ) → Kernel → Outcome (Regs × Kernel)
  syscall_hub r m st =
      if leb 256 r.eax
      then fault
      else run_call (syscalls r.eax) r st >>= λ (v, st').
          ok
            (arch_switch_context (arch_sched_setup_stack (record r { eax = word_of_int v }) m), st')

is_set : Call → Bool
is_set call_null = false
is_set c = true

count_calls : ℕ → ℕ → ℕ
count_calls zero i = 0
count_calls (suc rounds) i = (if is_set (syscalls i) then 1 else 0) + count_calls rounds (i + 1)

-- `num_syscalls`, and the table of interrupts, for the address of `syscall_hub`.
unfoldable pub syscall_init : ℕ → ℕ → Idt → ℕ × Idt
unfolding count_calls is_set
syscall_init num_syscalls hub idt = (num_syscalls + count_calls 256 0, irq_set 0x80 hub idt)
