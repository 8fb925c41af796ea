-- ===== src/Kernel/Syscall/Number.antt =====
-- arch/x86/syscall.c: a system call as the kernel's own threads make it.
use levos.Prelude.{ℕ, ◌^◌, ◌<◌, ◌≡◌, ap, arith}
use levos.Prelude.Int.{ℤ, pos, negsuc}
use levos.Prelude.Outcome.{Outcome, ok, ◌>>=◌}
use levos.Arch.Context.{Regs}
use levos.Kernel.Syscall.{Kernel, Files, syscalls, int_of_word, word_of_int, run_call, syscall_hub}
use levos.Kernel.Syscall.Resume.{syscall_hub-resumes}

-- The registers of the thread for interrupt 0x80.
abbrev pub ask : Regs → ℕ → ℕ → ℕ → ℕ → Regs
ask cpu n a1 a2 a3 = record cpu { eax = n; ebx = a1; ecx = a2; edx = a3 }

-- `m` is memory when the call is over.
unfoldable pub call_syscall : Files → Regs → (ℕ → ℕ) → ℕ → ℕ → ℕ → ℕ → Kernel → Outcome (ℤ × Kernel)
call_syscall files cpu m n a1 a2 a3 st =
    syscall_hub files (ask cpu n a1 a2 a3) m st >>= λ (r, st'). ok (int_of_word r.eax, st')

-- The results that fit in an `int`.
abbrev pub IsInt : ℤ → Type 0
IsInt (pos n) = n < 2 ^ 31
IsInt (negsuc n) = n < 2 ^ 31

pub int_of_word-word_of_int : (v : ℤ) → IsInt v → int_of_word (word_of_int v) ≡ v
int_of_word-word_of_int (pos n) h = ground arith
int_of_word-word_of_int (negsuc n) h = ground arith

-- What the function of a system call returns is what its caller gets.
pub call_syscall-run_call :
    (files : Files) (cpu : Regs) (m : ℕ → ℕ) (n a1 a2 a3 : ℕ) (st st' : Kernel) (v : ℤ)
    → n < 256
    → cpu.esp < 2 ^ 32
    → IsInt v
    → run_call files (syscalls n) (ask cpu n a1 a2 a3) st ≡ ok (v, st')
    → call_syscall files cpu m n a1 a2 a3 st ≡ ok (v, st')
unfolding call_syscall
call_syscall-run_call files cpu m n a1 a2 a3 st st' v known small fits run =
    let back = (syscall_hub-resumes files (ask cpu n a1 a2 a3) m st known small).0 v st' run in
    rw back (ap (λ w. ok (w, st')) (int_of_word-word_of_int v fits))
