-- ===== src/Tests/OnPreempt.antt =====
-- Two threads that take turns, at concrete inputs.
use levos.Prelude.{ℕ, ◌+◌, ◌*◌, ◌++◌, ◌≡◌, refl, arith, [], ◌∷◌, true, replicate}
use levos.Prelude.Outcome.{Outcome, ok, panic, fault, hang}
use levos.Drivers.Ports.{Ports}
use levos.Arch.Context.{Regs, arch_sched_setup_stack, arch_switch_context}
use levos.Arch.Irq.{irq_magic, irq_entry, read_regs, save_pre_irq_regs}
use levos.Arch.Irq.{arch_prep_exit_irq}
use levos.Kernel.Sched.{sched_select, sched_schedule}
use levos.Kernel.Preempt.{
  System, saved, switched, switch_to, leave, schedule_irq, timer_irq, schedule_noirq,
}
use levos.Kernel.Preempt.Resumed.{timer, gives_up, here, Away, Interrupt, preempted-resumes}

-- Ports that count the writes.
abbrev counting : Ports ℕ
counting = record { inportb = λ p d. (0, d); inportw = λ p d. (0, d); outportb = λ p v d. d + 1 }

abbrev regs_of : ℕ → Regs
regs_of t = record {
  magic = irq_magic;
  cr3 = 0x9000;
  edi = t;
  esi = 2;
  ebp = 3;
  esp = 0x8000 + t * 0x1000;
  ebx = 4;
  edx = 5;
  ecx = 6;
  eax = 7;
  eip = 0x100000 + t;
  cs = 8;
  eflags = 0x202;
}

-- Thread 1, whose time is up, and thread 2 at the other end of the queue.
abbrev pub busy : System ℕ
busy = record {
  cpu = regs_of 1;
  memory = λ a. 0;
  hardware = 0;
  sched = record {
    thread_queue = 1 ∷ (replicate 30 0 ++ (2 ∷ []));
    sched_next = 31;
    sched_current_processes = 2;
    sched_current_threads = 2;
    can_schedule = true;
    current = 1;
    thread_at = λ t. record { state = 3; time_used = 9; owner = t };
    process_at = λ p. record { pid = p; threads = p ∷ [] };
  };
  regs = regs_of;
  page_dir = λ p. 0x9000;
  current_directory = 0x9000;
  pit_ticks = 41;
}

abbrev end_of : Outcome (System ℕ) → System ℕ
end_of (ok s) = s
end_of panic = busy
end_of fault = busy
end_of hang = busy

abbrev second : System ℕ
second = end_of (timer_irq counting 2 busy)

abbrev third : System ℕ
third = end_of (schedule_noirq counting 2 second)

second-Interrupt : Interrupt counting busy second
unfolding timer_irq schedule_irq save_pre_irq_regs irq_entry read_regs saved sched_schedule
    sched_select leave switch_to switched arch_prep_exit_irq arch_sched_setup_stack
    arch_switch_context
second-Interrupt = timer 2 refl

third-Interrupt : Interrupt counting second third
unfolding timer_irq schedule_noirq schedule_irq save_pre_irq_regs irq_entry read_regs saved
    sched_schedule sched_select leave switch_to switched arch_prep_exit_irq arch_sched_setup_stack
    arch_switch_context
third-Interrupt = gives_up 2 refl

second-Away : Away counting 1 second second
unfolding timer_irq schedule_irq save_pre_irq_regs irq_entry read_regs saved sched_schedule
    sched_select leave switch_to switched arch_prep_exit_irq arch_sched_setup_stack
    arch_switch_context
second-Away = here (omega arith)

third_current : third.sched.current ≡ 1
unfolding timer_irq schedule_noirq schedule_irq save_pre_irq_regs irq_entry read_regs saved
    sched_schedule sched_select leave switch_to switched arch_prep_exit_irq arch_sched_setup_stack
    arch_switch_context
third_current = refl

preempted-resumes_example : third.cpu ≡ record (regs_of 1) { magic = irq_magic }
preempted-resumes_example =
    preempted-resumes counting 1 (omega arith) refl (omega arith) second-Interrupt second-Away
      third-Interrupt third_current
