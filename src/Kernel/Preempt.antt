-- ===== src/Kernel/Preempt.antt =====
-- kernel/sched.c: the interrupts whose handler is `sched_schedule`, with the registers of the processor and of
-- the threads: the timer of arch/x86/pit.c and the interrupt 0x2F of `schedule_noirq`. The threads of the
-- kernel share one memory.
pub mod Resumed
use levos.Prelude.{ℕ, ◌+◌, ◌%◌, ◌^◌, Bool, not, ◌&&◌, ◌||◌, ◌==◌, ltb, if◌then◌else◌, update}
use levos.Prelude.Outcome.{Outcome, ok, fault, ◌>>=◌}
use levos.Drivers.Ports.{Ports}
use levos.Arch.Context.{Regs, arch_sched_setup_stack, arch_switch_context}
use levos.Arch.Irq.{Entered, irq_entry, save_pre_irq_regs, irq_exit, send_eoi, arch_prep_exit_irq}
use levos.Kernel.Sched.{Sched, thread_zombie, max_proc_time, sched_schedule}

-- `regs` is the field `r` of each thread, and `page_dir` that of each process.
pub record System (D : Type 0) : Type 0 where
  pub cpu : Regs
  pub memory : ℕ → ℕ
  pub hardware : D
  pub sched : Sched
  pub regs : ℕ → Regs
  pub page_dir : ℕ → ℕ
  pub current_directory : ℕ
  pub pit_ticks : ℕ

-- Whether `sched_schedule` returns, and does not switch, where it does not panic.
abbrev pub returns : Sched → Bool
returns st =
    not st.can_schedule
    || not ((st.thread_at st.current).state == thread_zombie)
      && ltb ((st.thread_at st.current).time_used + 1) max_proc_time

module _ {D : Type 0} (hw : Ports D) where
  -- `save_pre_irq_regs` gives the registers to the current thread, if there is one.
  unfoldable pub saved : Entered → Regs → System D → System D
  saved e r s =
      let old = s.regs in
      record s {
        memory = e.memory;
        regs = if s.sched.current == 0 then old else update old s.sched.current r;
      }

  -- `arch_sched_setup_stack`, `arch_sched_setup_address_space` and `ARCH_SWITCH_CONTEXT` for the thread that is
  -- current by then, with the hardware once the interrupt is acknowledged.
  unfoldable pub switched : System D → D → System D
  switched s d =
      let t = s.sched.current in
      let (r, m) = arch_sched_setup_stack (s.regs t) s.memory in
      record s {
        cpu = arch_switch_context (r, m);
        memory = m;
        hardware = d;
        regs = update s.regs t r;
        current_directory = s.page_dir (s.sched.thread_at t).owner;
      }

  unfoldable pub switch_to : ℕ → System D → Outcome (System D)
  switch_to irq s = arch_prep_exit_irq hw irq s.hardware >>= λ d. ok (switched s d)

  -- The end of a handler that returned.
  unfoldable pub returned : Entered → System D → D → System D
  returned e s d = record s { cpu = irq_exit s.cpu e; hardware = d }

  unfoldable pub return_from : ℕ → Entered → System D → Outcome (System D)
  return_from irq e s = send_eoi hw irq s.hardware >>= λ d. ok (returned e s d)

  -- What follows the choice of the next thread.
  unfoldable pub leave : ℕ → Entered → Bool → System D → Outcome (System D)
  leave irq e back s = if back then return_from irq e s else switch_to irq s

  -- An interrupt whose handler calls `sched_schedule`, with fuel for the choice of a thread.
  unfoldable pub schedule_irq : ℕ → ℕ → System D → Outcome (System D)
  schedule_irq irq fuel s =
      let e = irq_entry s.cpu s.memory in
      save_pre_irq_regs e >>= λ r.
      let s' = saved e r s in
      sched_schedule fuel s'.sched >>= λ sched'.
      leave irq e (returns s'.sched) (record s' { sched = sched' })

  -- `pit_irq`
  unfoldable pub timer_irq : ℕ → System D → Outcome (System D)
  timer_irq fuel s = schedule_irq 0 fuel (record s { pit_ticks = (s.pit_ticks + 1) % 2 ^ 32 })

  -- `schedule_noirq`, which a thread calls to give up its time.
  unfoldable pub schedule_noirq : ℕ → System D → Outcome (System D)
  schedule_noirq fuel s =
      let st = s.sched in
      let mine = record (st.thread_at st.current) { time_used = max_proc_time } in
      if st.current == 0
      then fault
      else (let st' = record st { thread_at = update st.thread_at st.current mine } in
          schedule_irq 0x2F fuel (record s { sched = st' }))
