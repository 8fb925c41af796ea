-- ===== src/Kernel/Preempt/Resumed.antt =====
-- kernel/sched.c: a thread that was interrupted and set aside goes on as it was when its turn comes.
use levos.Prelude.{
  ℕ, ◌^◌, ◌<◌, ◌≡◌, ◌≢◌, ◌∙◌, inl, inr, refl, sym, ap, arith, Bool, true, false, ◌==◌,
  if◌then◌else◌, update, update_self, update_ne, Bool-cases,
}
use levos.Prelude.Outcome.{Outcome, ok, panic, fault, hang, ◌>>=◌, >>=-eq-ok, ok-injective}
use levos.Drivers.Ports.{Ports}
use levos.Arch.Context.{Regs, arch_sched_setup_stack, arch_switch_context}
use levos.Arch.Context.Frame.{arch_switch_context-arch_sched_setup_stack}
use levos.Arch.Irq.{Entered, irq_magic, irq_entry, save_pre_irq_regs, send_eoi, arch_prep_exit_irq}
use levos.Arch.Irq.Entry.{save_pre_irq_regs-irq_entry}
use levos.Kernel.Sched.{Sched, sched_schedule}
use levos.Kernel.Preempt.{
  System, returns, saved, switched, switch_to, returned, return_from, leave, schedule_irq,
  timer_irq, schedule_noirq,
}

returns-current :
    (fuel : ℕ) (st st' : Sched)
    → sched_schedule fuel st ≡ ok st'
    → returns st ≡ true
    → st'.current ≡ st.current
unfolding sched_schedule
returns-current fuel st st' run h = ground arith

no_ok : {A : Type 0} (a : A) → fault ≡ ok a → ⊥
no_ok a h = cc

ok_after :
    {A B : Type 0} (m : Outcome A) (g : A → B) {b : B}
    → (m >>= λ a. ok (g a)) ≡ ok b
    → (a : A) × (b ≡ g a)
ok_after (ok a) g h = (a, sym (ok-injective h))
ok_after panic g h = cc
ok_after fault g h = cc
ok_after hang g h = cc

module _ {D : Type 0} (hw : Ports D) where
  -- The timer, or the thread itself by `schedule_noirq`, with the fuel for the choice.
  pub data Interrupt : System D → System D → Type 0 where
    timer : {s s' : System D} (fuel : ℕ) → timer_irq hw fuel s ≡ ok s' → Interrupt s s'
    gives_up : {s s' : System D} (fuel : ℕ) → schedule_noirq hw fuel s ≡ ok s' → Interrupt s s'

  -- What happens while a thread waits: interrupts, and what the thread that is current does, which may be
  -- anything but the choice of another thread and a change of the saved registers of others.
  pub data Step : System D → System D → Type 0 where
    interrupt : {s s' : System D} → Interrupt s s' → Step s s'
    work :
        {s s' : System D}
        → s'.sched.current ≡ s.sched.current
        → ((t : ℕ) → t ≢ s.sched.current → s'.regs t ≡ s.regs t)
        → Step s s'

  -- Steps in which `t` is never current.
  pub data Away (t : ℕ) (s : System D) : System D → Type 0 where
    here : s.sched.current ≢ t → Away t s s
    next : {u v : System D} → Away t s u → Step u v → v.sched.current ≢ t → Away t s v

  -- The parts of an interrupt.
  record Parts (s s' : System D) : Type 0 where
    irq : ℕ
    fuel : ℕ
    r : Regs
    before : Sched
    after : Sched
    save : save_pre_irq_regs (irq_entry s.cpu s.memory) ≡ ok r
    stays : before.current ≡ s.sched.current
    choice : sched_schedule fuel before ≡ ok after
    left :
        (regs : ℕ → Regs) × (w : System D) × (regs
          ≡ (if s.sched.current == 0 then s.regs else update s.regs s.sched.current r))
        × (w.regs ≡ regs)
        × (w.sched ≡ after)
        × (leave hw irq (irq_entry s.cpu s.memory) (returns before) w ≡ ok s')

  schedule_irq-Parts :
      (irq fuel : ℕ) (s s' : System D) → schedule_irq hw irq fuel s ≡ ok s' → Parts s s'
  unfolding schedule_irq saved
  schedule_irq-Parts irq fuel s s' run =
      let (r, rest, save) = >>=-eq-ok _ _ _ run in
      let (after, end, choice) = >>=-eq-ok _ _ _ rest in
      record {
        irq = irq;
        fuel = fuel;
        r = r;
        before = s.sched;
        after = after;
        save = save;
        stays = refl;
        choice = choice;
        left = (_, _, refl, refl, refl, end);
      }

  -- An interrupt that begins with the same registers and the same current thread.
  same-Parts :
      (u s s' : System D)
      → u.cpu ≡ s.cpu
      → u.memory ≡ s.memory
      → u.regs ≡ s.regs
      → u.sched.current ≡ s.sched.current
      → Parts u s'
      → Parts s s'
  same-Parts u s s' cpu memory regs current p = record {
    irq = p.irq;
    fuel = p.fuel;
    r = p.r;
    before = p.before;
    after = p.after;
    save = rw (sym cpu, sym memory) p.save;
    stays = p.stays ∙ current;
    choice = p.choice;
    left = rw (sym cpu, sym memory, sym regs, sym current) p.left;
  }

  Interrupt-Parts : {s s' : System D} → Interrupt s s' → Parts s s'
  unfolding timer_irq schedule_noirq
  Interrupt-Parts {s} {s'} (timer fuel run) =
      same-Parts _ s s' refl refl refl refl (schedule_irq-Parts 0 fuel _ s' run)
  Interrupt-Parts {s} {s'} (gives_up fuel run) = elim (Bool-cases (s.sched.current == 0)) [
    | inl null ↦ absurd (no_ok s' (rw null at run))
    | inr there ↦
        same-Parts _ s s' refl refl refl refl (schedule_irq-Parts 0x2F fuel _ s' (rw there at run))
  ]

  leave-ends :
      (irq : ℕ) (e : Entered) (back : Bool) (w s' : System D)
      → leave hw irq e back w ≡ ok s'
      → (d : D) × (s' ≡ (if back then returned hw e w d else switched hw w d))
  unfolding leave return_from switch_to
  leave-ends irq e true w s' run = ok_after (send_eoi hw irq w.hardware) (returned hw e w) run
  leave-ends irq e false w s' run =
      ok_after (arch_prep_exit_irq hw irq w.hardware) (switched hw w) run

  leave-sched :
      (e : Entered) (back : Bool) (w : System D) (d : D)
      → (if back then returned hw e w d else switched hw w d).sched ≡ w.sched
  unfolding returned switched
  leave-sched e true w d = refl
  leave-sched e false w d = refl

  leave-regs :
      (e : Entered) (back : Bool) (w : System D) (d : D) (t : ℕ)
      → w.sched.current ≢ t
      → (if back then returned hw e w d else switched hw w d).regs t ≡ w.regs t
  unfolding returned switched
  leave-regs e true w d t other = refl
  leave-regs e false w d t other = update_ne w.regs w.sched.current t _ other

  -- An interrupt behind which another thread is current leaves the saved registers of `t` as its way in left
  -- them.
  Parts-regs :
      (s s' : System D) (t : ℕ) (p : Parts s s')
      → s'.sched.current ≢ t
      → s'.regs t ≡ (if s.sched.current == 0 then s.regs else update s.regs s.sched.current p.r) t
  Parts-regs s s' t p other =
      let (regs, w, saved_regs, same, after, end) = p.left in
      let (d, is) = leave-ends p.irq _ (returns p.before) w s' end in
      let sched = ap System.sched is ∙ leave-sched _ (returns p.before) w d in
      let far : w.sched.current ≢ t = rw (ap Sched.current sched) at other in
      ap (λ (x : System D). x.regs t) is
      ∙ leave-regs _ (returns p.before) w d t far
      ∙ ap (λ (f : ℕ → Regs). f t) (same ∙ saved_regs)

  -- The way in gives the current thread its registers, and leaves those of the others.
  saved_self :
      (s s' : System D) (t : ℕ) (p : Parts s s')
      → t ≢ 0
      → s.sched.current ≡ t
      → s.cpu.esp < 2 ^ 32
      → (if s.sched.current == 0 then s.regs else update s.regs s.sched.current p.r) t
        ≡ record s.cpu { magic = irq_magic }
  saved_self s s' t p there mine small =
      let known = save_pre_irq_regs-irq_entry s.cpu s.memory small in
      let alive : (t == 0) ≡ false = ground arith in
      rw (mine, alive) (update_self s.regs t p.r ∙ ok-injective (sym p.save ∙ known))

  saved_other :
      (s s' : System D) (t : ℕ) (p : Parts s s')
      → s.sched.current ≢ t
      → (if s.sched.current == 0 then s.regs else update s.regs s.sched.current p.r) t ≡ s.regs t
  saved_other s s' t p other = elim (Bool-cases (s.sched.current == 0)) [
    | inl null ↦ rw null
    | inr current ↦ rw current (update_ne s.regs s.sched.current t p.r other)
  ]

  Away-ends : {t : ℕ} {s u : System D} → Away t s u → u.sched.current ≢ t
  Away-ends (here other) = other
  Away-ends (next steps step other) = other

  Away-starts : {t : ℕ} {s u : System D} → Away t s u → s.sched.current ≢ t
  Away-starts (here other) = other
  Away-starts (next steps step other) = Away-starts steps

  Away-regs : {t : ℕ} {s u : System D} → Away t s u → u.regs t ≡ s.regs t
  Away-regs (here other) = refl
  Away-regs {t} {s} {u = v} (next {u} steps (interrupt i) other) =
      let p = Interrupt-Parts i in
      Parts-regs u v t p other ∙ saved_other u v t p (Away-ends steps) ∙ Away-regs steps
  Away-regs {t} {s} {u = v} (next {u} steps (work same rest) other) =
      rest t (λ e. Away-ends steps (sym e)) ∙ Away-regs steps

  switched-cpu :
      (e : Entered) (back : Bool) (w : System D) (d : D)
      → back ≡ false
      → (if back then returned hw e w d else switched hw w d).cpu
        ≡ arch_switch_context (arch_sched_setup_stack (w.regs w.sched.current) w.memory)
  unfolding switched
  switched-cpu e true w d h = cc
  switched-cpu e false w d h = refl

  -- The choice of a thread that was not current is a switch to it.
  Parts-switch :
      (s s' : System D) (t : ℕ) (p : Parts s s')
      → s.sched.current ≢ t
      → s'.sched.current ≡ t
      → (m : ℕ → ℕ) × (s'.cpu ≡ arch_switch_context (arch_sched_setup_stack (s.regs t) m))
  Parts-switch s s' t p other chosen =
      let (regs, w, saved_regs, same, after, end) = p.left in
      let (d, is) = leave-ends p.irq _ (returns p.before) w s' end in
      let sched = ap System.sched is ∙ leave-sched _ (returns p.before) w d in
      let now : w.sched.current ≡ t = sym (ap Sched.current sched) ∙ chosen in
      let kept : w.regs w.sched.current ≡ s.regs t =
        ap w.regs now
        ∙ ap (λ (f : ℕ → Regs). f t) (same ∙ saved_regs)
        ∙ saved_other s s' t p other in
      elim (Bool-cases (returns p.before)) [
        | inl back ↦
            let still = returns-current p.fuel p.before p.after p.choice back in
            absurd (other (sym p.stays ∙ sym still ∙ sym (ap Sched.current after) ∙ now))
        | inr switch ↦ (
          w.memory,
          ap System.cpu is
              ∙ switched-cpu _ (returns p.before) w d switch
              ∙ ap (λ r. arch_switch_context (arch_sched_setup_stack r w.memory)) kept,
        )
      ]

  -- A thread that an interrupt sets aside goes on with exactly the registers that it had, whenever the
  -- scheduler gives it the processor again: whatever interrupts there are meanwhile, by the timer or by threads
  -- that give up their time, and whatever the other threads do that leaves its saved registers alone.
  pub preempted-resumes :
      (t : ℕ) {s s1 s2 s3 : System D}
      → t ≢ 0
      → s.sched.current ≡ t
      → s.cpu.esp < 2 ^ 32
      → Interrupt s s1
      → Away t s1 s2
      → Interrupt s2 s3
      → s3.sched.current ≡ t
      → s3.cpu ≡ record s.cpu { magic = irq_magic }
  preempted-resumes t {s} {s1} {s2} {s3} there mine small first away last chosen =
      let p = Interrupt-Parts first in
      let held =
        Away-regs away
        ∙ Parts-regs s s1 t p (Away-starts away)
        ∙ saved_self s s1 t p there mine small in
      let (m, on) = Parts-switch s2 s3 t (Interrupt-Parts last) (Away-ends away) chosen in
      on
      ∙ ap (λ r. arch_switch_context (arch_sched_setup_stack r m)) held
      ∙ arch_switch_context-arch_sched_setup_stack (record s.cpu { magic = irq_magic }) m small
