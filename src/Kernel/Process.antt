-- ===== src/Kernel/Process.antt =====
-- kernel/sched.c: `sched_mk_process` and the stack and the files that it gives a process. A pointer is a
-- number, and 0 is null. `fresh` is what the memory of a new table of files held; the bytes of the stack,
-- which are set to 0, are left out.
pub mod Start
pub mod Idle
use levos.Prelude.{ℕ, ◌+◌, List, Option, none, some, ◌||◌, ◌==◌, if◌then◌else◌, set}
use levos.Prelude.Int.{ℤ, pos, negsuc, neg}
use levos.Prelude.Errno.{enomem}
use levos.Prelude.Outcome.{Outcome, ok, ◌>>=◌}
use levos.Mm.Frame.{u32}
use levos.Mm.State.{Mm}
use levos.Mm.Alloc.{kmalloc}
use levos.Mm.Page.{mm_alloc_pages, copy_page_dir}
use levos.Arch.Context.{Regs, arch_sched_mk_initial_regs, thread_stack_set}

-- `struct process` at `address`, with the registers of its one thread.
pub record Process : Type 0 where
  pub address : ℕ
  pub comm : ℕ
  pub pid : ℕ
  pub thread : ℕ
  pub page_dir : ℕ
  pub file_table : List ℕ
  pub r : Regs

-- The memory and the next number of a process.
pub record Maker (L : Type 0) : Type 0 where
  pub mm : Mm L
  pub global_pid : ℕ

unfoldable pub sched_make_filetable : ℕ → List ℕ → List ℕ
sched_make_filetable console_file ft = set (set ft 0 0) 1 console_file

-- The sizes of `struct process`, `struct thread` and a pointer.
abbrev pub process_size : ℕ
process_size = 532

abbrev pub thread_size : ℕ
thread_size = 68

abbrev pub pointer_size : ℕ
pointer_size = 4

module _ {L : Type 0} (new_malloc : ℕ → Mm L → ℕ × Mm L) (new_free : ℕ → Mm L → Mm L) where
  -- The thread is not null.
  unfoldable pub sched_create_stack : Regs → Mm L → Outcome (ℤ × Regs × Mm L)
  sched_create_stack r st = mm_alloc_pages new_malloc 1 st >>= λ (page_addr, st').
      if page_addr == 0
      then ok (neg enomem, r, st')
      else ok (pos 0, thread_stack_set r (u32 (page_addr + 4096)), st')

  -- The copy of the kernel's directory; the field keeps what it held, `old`, if there is no room, and the
  -- result is not looked at.
  unfoldable pub arch_sched_make_address_space : ℕ → Mm L → Outcome (ℕ × Mm L)
  arch_sched_make_address_space old st =
      copy_page_dir new_malloc st.kernel_dir st >>= λ (ndir, st').
      ok (if ndir == 0 then old else ndir, st')

  module _ (cr3 console_file old : ℕ) (fresh : List ℕ) where
    -- The end: the files, once the thread has a stack.
    unfoldable pub finish :
        ℕ → Process → Maker L → ℤ × Regs × Mm L → Outcome (Option Process × Maker L)
    finish p new st (rc, r, mm) = elim rc [
      | pos n ↦ ok (
        some (record new { r = r; file_table = sched_make_filetable console_file fresh }),
        record st { mm = mm },
      )
      | negsuc n ↦ ok (none, record st { mm = new_free p mm })
    ]

    -- The fields of the process at `p` and of its thread at `t`.
    unfoldable pub fill : ℕ → ℕ → ℕ → ℕ → Maker L → Outcome (Option Process × Maker L)
    fill comm entry p t st =
        let st' = record st { global_pid = st.global_pid + 1 } in
        arch_sched_make_address_space old st'.mm >>= λ (page_dir, mm).
        let new : Process = record {
          address = p;
          comm = comm;
          pid = st.global_pid;
          thread = t;
          page_dir = page_dir;
          file_table = fresh;
          r = record (arch_sched_mk_initial_regs cr3) { eip = entry };
        } in
        sched_create_stack new.r mm >>= finish p new st'

    unfoldable pub sched_mk_process : ℕ → ℕ → Maker L → Outcome (Option Process × Maker L)
    sched_mk_process comm entry st =
        if comm == 0 || entry == 0
        then ok (none, st)
        else kmalloc new_malloc process_size st.mm >>= λ (p, mm1).
            if p.0 == 0
            then ok (none, record st { mm = mm1 })
            else kmalloc new_malloc thread_size mm1 >>= λ (t, mm2).
                if t.0 == 0
                then ok (none, record st { mm = mm2 })
                else kmalloc new_malloc pointer_size mm2 >>= λ (threads, mm3).
                    if threads.0 == 0
                    then ok (none, record st { mm = mm3 })
                    else fill comm entry p.0 t.0 (record st { mm = mm3 })
