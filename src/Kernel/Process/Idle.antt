-- ===== src/Kernel/Process/Idle.antt =====
-- kernel/sched.c: `sched_start_idle`, which makes the idle task and the init process and goes to the idle task.
-- The kernel has one memory; what `kmalloc` needs of it is in the `Maker`, and the stacks are in the `System`.
pub mod Running
use levos.Prelude.{ℕ, List, [], ◌∷◌, Option, none, some, ◌==◌, if◌then◌else◌, get_or, update}
use levos.Prelude.Outcome.{Outcome, ok, fault, ◌>>=◌}
use levos.Mm.State.{Mm}
use levos.Arch.Context.{arch_sched_setup_stack, arch_switch_context}
use levos.Kernel.Sched.{sched_add_process}
use levos.Kernel.Preempt.{System}
use levos.Kernel.Process.{Process, Maker, sched_mk_process}

pub record Booting (L D : Type 0) : Type 0 where
  pub maker : Maker L
  pub system : System D

-- The process and its thread, where the scheduler and the switch find them.
unfoldable pub place : {D : Type 0} → Process → System D → System D
place p s =
    let st = s.sched in
    record s {
      sched = record st {
        process_at =
            update st.process_at p.address (record { pid = p.pid; threads = p.thread ∷ [] });
        thread_at =
            update st.thread_at p.thread (record { state = 0; time_used = 0; owner = p.address });
      };
      regs = update s.regs p.thread p.r;
      page_dir = update s.page_dir p.address p.page_dir;
    }

-- What `sched_mk_process` returned: a pointer, which may be null.
unfoldable pub place_made : {L D : Type 0} → System D → Option Process × Maker L → ℕ × Booting L D
place_made s (none, st) = (0, record { maker = st; system = s })
place_made s (some p, st) = (p.address, record { maker = st; system = place p s })

-- The result of `sched_add_process` is not looked at.
unfoldable pub add_process : {D : Type 0} → ℕ → System D → System D
add_process p s = record s { sched = (sched_add_process p s.sched).1 }

-- `current = idle->threads[0]`
unfoldable pub make_current : {D : Type 0} → ℕ → System D → Outcome (System D)
make_current idle s =
    if idle == 0
    then fault
    else ok (record s {
      sched = record s.sched { current = get_or (s.sched.process_at idle).threads 0 0 };
    })

-- `arch_sched_setup_stack` and `ARCH_SWITCH_CONTEXT` for the current thread.
unfoldable pub enter_current : {D : Type 0} → System D → System D
enter_current s =
    let t = s.sched.current in
    let (r, m) = arch_sched_setup_stack (s.regs t) s.memory in
    record s { cpu = arch_switch_context (r, m); memory = m; regs = update s.regs t r }

module _ {L D : Type 0} (new_malloc : ℕ → Mm L → ℕ × Mm L) (new_free : ℕ → Mm L → Mm L)
    (console_file old : ℕ) (fresh : List ℕ) where
  unfoldable pub new_process : ℕ → ℕ → Booting L D → Outcome (ℕ × Booting L D)
  new_process comm entry b =
      sched_mk_process new_malloc new_free b.system.cpu.cr3 console_file old fresh comm entry
        b.maker
      >>= λ r. ok (place_made b.system r)

  -- For the pointers to the texts "idle" and "init", and the addresses of `idle_task` and `kinit_task`.
  unfoldable pub sched_start_idle : ℕ → ℕ → ℕ → ℕ → Booting L D → Outcome (Booting L D)
  sched_start_idle idle_name init_name idle_task kinit_task b =
      new_process idle_name idle_task b >>= λ (idle, b1).
      make_current idle (add_process idle b1.system) >>= λ s1.
      new_process init_name kinit_task (record b1 { system = s1 }) >>= λ (kinit, b2).
      ok (record b2 { system = enter_current (add_process kinit b2.system) })
