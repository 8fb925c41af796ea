-- ===== src/Kernel/Syscall/Resume.antt =====
-- kernel/syscall.c: what a thread finds when its system call is over.
use levos.Prelude.{ℕ, ◌-◌, ◌^◌, ◌<◌, ◌≡◌, refl, arith, false, leb}
use levos.Prelude.Int.{ℤ}
use levos.Prelude.Errno.{enosys}
use levos.Prelude.Outcome.{ok}
use levos.Arch.Context.{Regs}
use levos.Arch.Context.Frame.{arch_switch_context-arch_sched_setup_stack}
use levos.Kernel.Syscall.{Kernel, Files, call_null, syscalls, word_of_int, run_call, syscall_hub}

-- A system call whose function returns goes on where it was made: each register of the thread is as
-- before, but `eax`, which is the result as a word of 32 bits; a number below 256 without a function
-- gives -ENOSYS and changes nothing in the kernel.
pub syscall_hub-resumes :
    (files : Files) (r : Regs) (m : ℕ → ℕ) (st : Kernel)
    → r.eax < 256
    → r.esp < 2 ^ 32
    → ((v : ℤ) (st' : Kernel)
        → run_call files (syscalls r.eax) r st ≡ ok (v, st')
        → syscall_hub files r m st ≡ ok (record r { eax = word_of_int v }, st'))
      × (syscalls r.eax ≡ call_null
          → syscall_hub files r m st ≡ ok (record r { eax = 2 ^ 32 - enosys }, st))
unfolding syscall_hub run_call
syscall_hub-resumes files r m st known small =
    let inside : leb 256 r.eax ≡ false = ground arith in
    let back =
      λ (w : ℕ). arch_switch_context-arch_sched_setup_stack (record r { eax = w }) m small in
    (
      λ v st' run. rw (inside, run, back (word_of_int v)) refl,
      λ none_there. rw (inside, none_there, back (2 ^ 32 - enosys)) refl,
    )
