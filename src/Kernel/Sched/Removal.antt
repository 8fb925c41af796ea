-- ===== src/Kernel/Sched/Removal.antt =====
-- `sched_init`, `sched_rm_process` and `sched_destroy_pid` of kernel/sched.c.
use levos.Prelude.{
  ℕ, zero, suc, ◌+◌, ◌-◌, ◌<◌, ◌≡◌, ◌≢◌, refl, arith, List, [], ◌∷◌, Bool, false, ◌||◌, ◌==◌,
  if◌then◌else◌, length, replicate, update, Bool-cases, inl, inr,
}
use levos.Prelude.Int.{ℤ, pos, neg}
use levos.Prelude.Errno.{einval, eagain}
use levos.Prelude.Outcome.{Outcome, ok, panic, fault, hang, ◌>>=◌}
use levos.Kernel.Sched.{
  Sched, thread_queue_size, thread_running, max_proc_time, get_process_by_pid, sched_mark_zombie,
}
use levos.Kernel.Sched.Queue.{occupied, IsQueue}

unfoldable pub sched_init : Sched → Sched
sched_init st = record st {
  thread_queue = replicate thread_queue_size 0;
  sched_current_threads = 0;
  current = 0;
}

pid_of : Sched → ℕ → ℕ
pid_of st p = (st.process_at p).pid

-- The loop over the queue: how many slots were emptied, and the queue. Each slot is read through, an
-- empty one too.
clear_slots : Sched → ℕ → List ℕ → Outcome (ℕ × List ℕ)
clear_slots st pid [] = ok (0, [])
clear_slots st pid (q ∷ queue) =
    if q == 0
    then fault
    else clear_slots st pid queue >>= λ (n, rest).
        if pid_of st (st.thread_at q).owner == pid then ok (n + 1, 0 ∷ rest) else ok (n, q ∷ rest)

removed : Sched → ℕ × List ℕ → Outcome (ℤ × Sched)
removed st (zero, queue) = ok (neg einval, st)
removed st (suc n, queue) = ok (
  pos 0,
  record st {
    thread_queue = queue;
    sched_current_processes = st.sched_current_processes - 1;
    sched_current_threads = st.sched_current_threads - suc n;
  },
)

-- The process that is running becomes a zombie, and its thread gives up its time.
abbrev gives_way : Sched → Sched
gives_way st =
    let st' = sched_mark_zombie (st.thread_at st.current).owner st in
    let t = st'.current in
    record st' {
      thread_at = update st'.thread_at t (record (st'.thread_at t) { time_used = max_proc_time });
    }

-- Where the scheduler can run, the call of the running process does not come back, since no zombie is selected;
-- before, `schedule_noirq` returns at once.
unfoldable pub sched_rm_process : ℕ → Sched → Outcome (ℤ × Sched)
unfolding clear_slots removed pid_of
sched_rm_process p st =
    if p == 0
    then ok (neg einval, st)
    else if st.current == 0
    then fault
    else if pid_of st p == pid_of st (st.thread_at st.current).owner
    then (if pid_of st p == 1
        then panic
        else if st.can_schedule
        then hang
        else clear_slots (gives_way st) (pid_of st p) st.thread_queue >>= removed (gives_way st))
    else clear_slots st (pid_of st p) st.thread_queue >>= removed st

any_running : Sched → List ℕ → Bool
any_running st [] = false
any_running st (t ∷ threads) = (st.thread_at t).state == thread_running || any_running st threads

-- `sched_destroy_process` does nothing yet.
unfoldable pub sched_destroy_pid : ℕ → Sched → ℤ
unfolding any_running
sched_destroy_pid pid st =
    let p = get_process_by_pid pid st in
    if p == 0
    then neg einval
    else if any_running st (st.process_at p).threads
    then neg eagain
    else pos 0

clear_slots_faults :
    (st : Sched) (pid : ℕ) (queue : List ℕ)
    → occupied queue < length queue
    → clear_slots st pid queue ≡ fault
unfolding clear_slots
clear_slots_faults st pid [] h = absurd (omega arith)
clear_slots_faults st pid (q ∷ queue) h = elim (Bool-cases (q == 0)) [
  | inl e ↦ rw e refl
  | inr e ↦ rw (e, clear_slots_faults st pid queue (ground arith)) refl
]

-- In a queue of 32 slots whose counter counts the occupied ones, and that is not full, removing any
-- process but the running one reads through the null pointer of an empty slot.
pub sched_rm_process-fault :
    (p : ℕ) (st : Sched)
    → p ≢ 0
    → st.current ≢ 0
    → (st.process_at p).pid ≢ (st.process_at (st.thread_at st.current).owner).pid
    → IsQueue st
    → st.sched_current_threads < thread_queue_size
    → sched_rm_process p st ≡ fault
unfolding sched_rm_process pid_of
sched_rm_process-fault p st ne running other inv room =
    let e1 : (p == 0) ≡ false = ground arith in
    let e2 : (st.current == 0) ≡ false = ground arith in
    let e3 : ((st.process_at p).pid == (st.process_at (st.thread_at st.current).owner).pid)
        ≡ false =
      ground arith in
    rw (
      e1,
      e2,
      e3,
      clear_slots_faults st (st.process_at p).pid st.thread_queue
          (omega (arith, inv.slots, inv.counted)),
    )
