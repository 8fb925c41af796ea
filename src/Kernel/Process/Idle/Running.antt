-- ===== src/Kernel/Process/Idle/Running.antt =====
-- kernel/sched.c: what runs once `sched_start_idle` has switched.
use levos.Prelude.{
  ℕ, ◌+◌, ◌<◌, ◌≡◌, ◌≢◌, ◌∙◌, refl, arith, List, ◌∷◌, some, false, ◌==◌, leb, update, update_self,
  update_ne,
}
use levos.Prelude.Outcome.{ok, Ensures}
use levos.Mm.State.{Mm}
use levos.Kernel.Sched.{
  thread_queue_size, thread_ready, sched_add_process, put_thread, put_threads, mark_threads,
}
use levos.Kernel.Preempt.{System}
use levos.Kernel.Process.{Process, Maker, sched_mk_process}
use levos.Kernel.Process.Start.{Starts, Made, sched_mk_process-Made}
use levos.Kernel.Process.Idle.{
  Booting, place, place_made, add_process, make_current, enter_current, new_process,
  sched_start_idle,
}

made :
    {L : Type 0} (new_malloc : ℕ → Mm L → ℕ × Mm L) (new_free : ℕ → Mm L → Mm L)
    (console_file old : ℕ) (fresh : List ℕ) (cr3 comm entry : ℕ) (st st' : Maker L) (p : Process)
    → sched_mk_process new_malloc new_free cr3 console_file old fresh comm entry st
      ≡ ok (some p, st')
    → Starts cr3 entry st.global_pid p × (st'.global_pid ≡ st.global_pid + 1)
unfolding Ensures Made
made new_malloc new_free console_file old fresh cr3 comm entry st st' p run =
    rw run at (sched_mk_process-Made new_malloc new_free cr3 console_file old fresh entry comm st)

module _ {D : Type 0} where
  -- The scheduler with one more thread, which is ready.
  abbrev with_thread : ℕ → System D → System D
  with_thread t s =
      let st = s.sched in
      record s {
        sched = record st {
          thread_queue = put_thread t st.thread_queue;
          sched_current_processes = st.sched_current_processes + 1;
          sched_current_threads = st.sched_current_threads + 1;
          thread_at = update st.thread_at t (record (st.thread_at t) { state = thread_ready });
        };
      }

  add_one :
      (p : Process) (s : System D)
      → p.address ≢ 0
      → s.sched.sched_current_threads + 1 < thread_queue_size
      → add_process p.address (place p s) ≡ with_thread p.thread (place p s)
  unfolding add_process place sched_add_process put_threads mark_threads
  add_one p s some_p room =
      let there : (p.address == 0) ≡ false = ground arith in
      let fits : leb thread_queue_size (s.sched.sched_current_threads + 1) ≡ false = ground arith in
      rw (there, update_self s.sched.process_at p.address, fits) refl

  abbrev with_current : ℕ → System D → System D
  with_current t s = record s { sched = record s.sched { current = t } }

  current_first :
      (p : Process) (s : System D)
      → p.address ≢ 0
      → make_current p.address (with_thread p.thread (place p s))
        ≡ ok (with_current p.thread (with_thread p.thread (place p s)))
  unfolding make_current place
  current_first p s some_p =
      let there : (p.address == 0) ≡ false = ground arith in
      rw (there, update_self s.sched.process_at p.address) refl

module _ {L D : Type 0} (new_malloc : ℕ → Mm L → ℕ × Mm L) (new_free : ℕ → Mm L → Mm L)
    (console_file old : ℕ) (fresh : List ℕ) where
  runs_new :
      (comm entry : ℕ) (b : Booting L D) (p : Process) (mk : Maker L)
      → sched_mk_process new_malloc new_free b.system.cpu.cr3 console_file old fresh comm entry
          b.maker
        ≡ ok (some p, mk)
      → new_process new_malloc new_free console_file old fresh comm entry b
        ≡ ok (p.address, record { maker = mk; system = place p b.system })
  unfolding new_process place_made
  runs_new comm entry b p mk run = rw run refl

  -- When both calls of `sched_mk_process` give a process, at two addresses that are not null and with two
  -- threads, the first of which is not null, and no thread is in the queue yet, `sched_start_idle` switches to
  -- the start of the idle task, on the stack of its thread and with interrupts enabled. That thread is the
  -- current one, it and the thread of the init process are put at the front of the queue, and the two
  -- processes have consecutive numbers.
  pub sched_start_idle-runs :
      (idle_name init_name idle_task kinit_task : ℕ) (b : Booting L D) (p q : Process)
      (mk mk' : Maker L) (rest : List ℕ)
      → sched_mk_process new_malloc new_free b.system.cpu.cr3 console_file old fresh idle_name
          idle_task b.maker
        ≡ ok (some p, mk)
      → sched_mk_process new_malloc new_free b.system.cpu.cr3 console_file old fresh init_name
          kinit_task mk
        ≡ ok (some q, mk')
      → p.address ≢ 0
      → q.address ≢ 0
      → p.thread ≢ 0
      → q.thread ≢ p.thread
      → q.address ≢ p.address
      → b.system.sched.thread_queue ≡ 0 ∷ 0 ∷ rest
      → b.system.sched.sched_current_threads ≡ 0
      → (b' : Booting L D) × (sched_start_idle new_malloc new_free console_file old fresh idle_name
            init_name idle_task kinit_task b
          ≡ ok b')
        × (b'.system.cpu.eip ≡ idle_task)
        × (b'.system.cpu.esp ≡ p.r.esp)
        × (b'.system.cpu.eflags ≡ 0x202)
        × (b'.system.sched.current ≡ p.thread)
        × (b'.system.sched.thread_queue ≡ p.thread ∷ q.thread ∷ rest)
        × ((b'.system.sched.process_at p.address).pid ≡ b.maker.global_pid)
        × ((b'.system.sched.process_at q.address).pid ≡ b.maker.global_pid + 1)
  unfolding sched_start_idle enter_current place put_thread
  sched_start_idle-runs idle_name init_name idle_task kinit_task b p q mk mk' rest run run' some_p
        some_q some_t other other_q empty no_threads =
      let (first, next) =
        made new_malloc new_free console_file old fresh b.system.cpu.cr3 idle_name idle_task b.maker
          mk p run in
      let (second, next') =
        made new_malloc new_free console_file old fresh b.system.cpu.cr3 init_name kinit_task mk mk'
          q run' in
      let t_there : (p.thread == 0) ≡ false = ground arith in
      let s0 = b.system in
      let s1 = with_current p.thread (with_thread p.thread (place p s0)) in
      let s2 = with_thread q.thread (place q s1) in
      let steps : sched_start_idle new_malloc new_free console_file old fresh idle_name init_name
            idle_task kinit_task b
          ≡ ok (record { maker = mk'; system = enter_current s2 }) =
        rw
          (
            runs_new idle_name idle_task b p mk run,
            add_one p s0 some_p (omega arith),
            current_first p s0 some_p,
            runs_new init_name kinit_task (record { maker = mk; system = s1 }) q mk' run',
            add_one q s1 some_q (omega arith),
          )
          refl in
      let mine : s2.regs p.thread ≡ p.r =
        update_ne (update s0.regs p.thread p.r) q.thread p.thread q.r other
        ∙ update_self s0.regs p.thread p.r in
      (
        _,
        steps,
        rw mine (first.eip s2.memory),
        rw mine (first.esp s2.memory),
        rw mine (first.eflags s2.memory),
        refl,
        rw (empty, t_there) refl,
        rw
            (
              update_ne (place p s0).sched.process_at q.address p.address _ other_q,
              update_self s0.sched.process_at p.address,
            )
            first.number,
        rw (update_self s1.sched.process_at q.address) (second.number ∙ next),
      )
