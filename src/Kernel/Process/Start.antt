-- ===== src/Kernel/Process/Start.antt =====
-- kernel/sched.c: how a process that `sched_mk_process` made starts.
use levos.Prelude.{
  ℕ, ◌+◌, ◌≡◌, refl, ap, arith, List, Option, none, some, ◌||◌, ◌==◌, if◌then◌else◌, Bool-cases,
  inl, inr,
}
use levos.Prelude.Outcome.{Outcome, ok, ◌>>=◌, Ensures, Ensures->>=, Ensures-chain, Ensures-if}
use levos.Mm.Frame.{u32}
use levos.Mm.State.{Mm}
use levos.Mm.Alloc.{Block, kmalloc}
use levos.Mm.Page.{mm_alloc_pages}
use levos.Arch.Context.{
  Regs, arch_sched_mk_initial_regs, thread_stack_set, arch_sched_setup_stack, arch_switch_context,
}
use levos.Arch.Context.Frame.{first_switch}
use levos.Kernel.Process.{
  Process, Maker, process_size, thread_size, pointer_size, sched_make_filetable, sched_create_stack,
  finish, fill, sched_mk_process,
}

-- A process that was given the number `pid`, and that starts at `entry`.
pub record Starts (cr3 entry pid : ℕ) (p : Process) : Type 0 where
  pub number : p.pid ≡ pid
  pub eip : (m : ℕ → ℕ) → (arch_switch_context (arch_sched_setup_stack p.r m)).eip ≡ entry
  pub esp : (m : ℕ → ℕ) → (arch_switch_context (arch_sched_setup_stack p.r m)).esp ≡ p.r.esp
  pub cs : (m : ℕ → ℕ) → (arch_switch_context (arch_sched_setup_stack p.r m)).cs ≡ 0x8
  pub eflags : (m : ℕ → ℕ) → (arch_switch_context (arch_sched_setup_stack p.r m)).eflags ≡ 0x202
  pub cr3_kept : (m : ℕ → ℕ) → (arch_switch_context (arch_sched_setup_stack p.r m)).cr3 ≡ cr3

entered : ℕ → ℕ → Regs
entered cr3 entry = record (arch_sched_mk_initial_regs cr3) { eip = entry }

starts :
    (cr3 entry pid top : ℕ) (p : Process)
    → p.pid ≡ pid
    → p.r ≡ thread_stack_set (entered cr3 entry) (u32 top)
    → Starts cr3 entry pid p
unfolding entered thread_stack_set
starts cr3 entry pid top p number same =
    let first = λ (m : ℕ → ℕ). first_switch cr3 entry (u32 top) m (omega arith) in
    record {
      number = number;
      eip = λ m. rw same ((first m).0);
      esp = λ m. rw same ((first m).1);
      cs = λ m. rw same ((first m).2);
      eflags = λ m. rw same ((first m).3);
      cr3_kept = λ m. rw same ((first m).4);
    }

-- No process, or one that starts at `entry` under the number `pid`, and the next number is one more.
unfoldable pub Made : {L : Type 0} → ℕ → ℕ → ℕ → Option Process × Maker L → Type 0
Made cr3 entry pid (none, st) = Unit
Made cr3 entry pid (some p, st) = Starts cr3 entry pid p × (st.global_pid ≡ pid + 1)

module _ {L : Type 0} (new_malloc : ℕ → Mm L → ℕ × Mm L) (new_free : ℕ → Mm L → Mm L)
    (cr3 console_file old : ℕ) (fresh : List ℕ) (entry : ℕ) where
  finish-Made :
      (p : ℕ) (new : Process) (st : Maker L) (mm : Mm L)
      → new.r ≡ entered cr3 entry
      → st.global_pid ≡ new.pid + 1
      → Ensures (Made cr3 entry new.pid) (
          sched_create_stack new_malloc new_free new.r mm
          >>= finish new_malloc new_free cr3 console_file old fresh p new st)
  unfolding sched_create_stack finish Made Ensures
  finish-Made p new st mm regs next =
      Ensures-chain (Made cr3 entry new.pid) (mm_alloc_pages new_malloc 1 mm) _ _ (λ (addr, mm').
        elim (Bool-cases (addr == 0)) [
          | inl none_left ↦ rw none_left tt
          | inr found ↦ rw found (
            starts cr3 entry new.pid (addr + 4096)
                (record new {
                  r = thread_stack_set new.r (u32 (addr + 4096));
                  file_table = sched_make_filetable console_file fresh;
                })
                refl (ap (λ r. thread_stack_set r (u32 (addr + 4096))) regs),
            next,
          )
        ])

  fill-Made :
      (comm p t : ℕ) (st : Maker L)
      → Ensures
          (Made cr3 entry st.global_pid)
          (fill new_malloc new_free cr3 console_file old fresh comm entry p t st)
  unfolding fill entered
  fill-Made comm p t st = Ensures->>= (Made cr3 entry st.global_pid) _ _ (λ (page_dir, mm).
      finish-Made p
        (record {
          address = p;
          comm = comm;
          pid = st.global_pid;
          thread = t;
          page_dir = page_dir;
          file_table = fresh;
          r = entered cr3 entry;
        })
        (record st { global_pid = st.global_pid + 1 }) mm refl refl)

  -- Null, or a block: no process, or what follows.
  or_none :
      (a pid : ℕ) (st : Maker L) (m : Outcome (Option Process × Maker L))
      → Ensures (Made cr3 entry pid) m
      → Ensures (Made cr3 entry pid) (if a == 0 then ok (none, st) else m)
  unfolding Made Ensures
  or_none a pid st m h = Ensures-if (Made cr3 entry pid) (a == 0) (ok (none, st)) m tt h

  -- When `sched_mk_process` ends with a process, it has the next number, and the first switch to it goes
  -- to its entry, on its stack, with interrupts enabled and in the segment of the kernel's code; the
  -- number after it is one more.
  pub sched_mk_process-Made :
      (comm : ℕ) (st : Maker L)
      → Ensures
          (Made cr3 entry st.global_pid)
          (sched_mk_process new_malloc new_free cr3 console_file old fresh comm entry st)
  unfolding sched_mk_process
  sched_mk_process-Made comm st =
      let P = Made cr3 entry st.global_pid in
      Ensures-if P (comm == 0 || entry == 0) _ _ (unfold Ensures Made in tt) (
        Ensures->>= P (kmalloc new_malloc process_size st.mm) _ (λ (p : Block × Mm L).
          or_none p.0.0 st.global_pid (record st { mm = p.1 }) _
            (Ensures->>= P (kmalloc new_malloc thread_size p.1) _ (λ (t : Block × Mm L).
              or_none t.0.0 st.global_pid (record st { mm = t.1 }) _
                (Ensures->>= P (kmalloc new_malloc pointer_size t.1) _ (λ (threads : Block × Mm L).
                  or_none threads.0.0 st.global_pid (record st { mm = threads.1 }) _
                    (fill-Made comm p.0.0 t.0.0 (record st { mm = threads.1 }))))))))
