-- ===== src/Kernel/Sched.antt =====
-- kernel/sched.c: the queue of threads and the choice of the next one. A pointer to a thread or a process
-- is a number, and 0 is null.
pub mod Select
pub mod Queue
pub mod Fair
pub mod Removal
use levos.Prelude.{
  ℕ, zero, suc, ◌+◌, ◌-◌, List, [], ◌∷◌, Bool, true, false, not, ◌&&◌, ◌||◌, ◌==◌, ltb, leb,
  if◌then◌else◌, length, get_or, set, update,
}
use levos.Prelude.Int.{ℤ, pos, neg}
use levos.Prelude.Errno.{einval, enospc}
use levos.Prelude.Outcome.{Outcome, ok, panic, fault, hang, ◌>>=◌}

-- The states of a thread, under the numbers of the source.
abbrev pub thread_running : ℕ
thread_running = 1

abbrev pub thread_preempted : ℕ
thread_preempted = 2

abbrev pub thread_ready : ℕ
thread_ready = 3

abbrev pub thread_zombie : ℕ
thread_zombie = 4

abbrev pub thread_queue_size : ℕ
thread_queue_size = 32

abbrev pub max_proc_time : ℕ
max_proc_time = 10

pub record Thread : Type 0 where
  pub state : ℕ
  pub time_used : ℕ
  pub owner : ℕ

-- `threads` holds the `no_threads` pointers.
pub record Process : Type 0 where
  pub pid : ℕ
  pub threads : List ℕ

-- `thread_queue` is a list of 32 pointers.
pub record Sched : Type 0 where
  pub thread_queue : List ℕ
  pub sched_next : ℕ
  pub sched_current_processes : ℕ
  pub sched_current_threads : ℕ
  pub can_schedule : Bool
  pub current : ℕ
  pub thread_at : ℕ → Thread
  pub process_at : ℕ → Process

-- The condition of `goto retry`. It is evaluated from left to right, so a null pointer is not read.
abbrev pub passed_over : ℕ → Sched → Bool
passed_over next st =
    next == 0
    || (st.thread_at next).state == thread_zombie
    || (st.process_at (st.thread_at next).owner).pid == 0 && ltb 1 st.sched_current_threads

-- `fuel` bounds the jumps to `retry`.
unfoldable pub sched_select : ℕ → Sched → Outcome (ℕ × Sched)
sched_select zero st = hang
sched_select (suc fuel) st =
    let at = if leb thread_queue_size st.sched_next then 0 else st.sched_next in
    let next = get_or st.thread_queue at 0 in
    let st' = record st { sched_next = at + 1 } in
    let again = sched_select fuel st' in if passed_over next st' then again else ok (next, st')

-- The loop over `i` of `sched_add_process`: the thread takes the first empty slot.
unfoldable pub put_thread : ℕ → List ℕ → List ℕ
put_thread t [] = []
put_thread t (q ∷ queue) = if q == 0 then t ∷ queue else q ∷ put_thread t queue

unfoldable pub put_threads : List ℕ → List ℕ → List ℕ
put_threads [] queue = queue
put_threads (t ∷ threads) queue = put_threads threads (put_thread t queue)

-- The loops that give each thread of a process the same state.
unfoldable pub mark_threads : ℕ → List ℕ → (ℕ → Thread) → ℕ → Thread
mark_threads state [] at = at
mark_threads state (t ∷ threads) at =
    mark_threads state threads (update at t (record (at t) { state = state }))

unfoldable pub sched_add_process : ℕ → Sched → ℤ × Sched
unfolding put_threads put_thread mark_threads
sched_add_process p st =
    let threads = (st.process_at p).threads in
    if p == 0
    then (neg einval, st)
    else if leb thread_queue_size (st.sched_current_threads + length threads)
    then (neg enospc, st)
    else (
      pos 0,
      record st {
        thread_queue = put_threads threads st.thread_queue;
        sched_current_processes = st.sched_current_processes + 1;
        sched_current_threads = st.sched_current_threads + length threads;
        thread_at = mark_threads thread_ready threads st.thread_at;
      },
    )

unfoldable pub sched_mark_zombie : ℕ → Sched → Sched
unfolding mark_threads
sched_mark_zombie p st = record st {
  thread_at = mark_threads thread_zombie (st.process_at p).threads st.thread_at;
}

-- `get_process_by_pid`: 0 if no thread of the queue belongs to the process.
find_pid : ℕ → List ℕ → Sched → ℕ
find_pid pid [] st = 0
find_pid pid (q ∷ queue) st =
    let rest = find_pid pid queue st in
    if q == 0
    then rest
    else if (st.process_at (st.thread_at q).owner).pid == pid
    then (st.thread_at q).owner
    else rest

unfoldable pub get_process_by_pid : ℕ → Sched → ℕ
unfolding find_pid
get_process_by_pid pid st = find_pid pid st.thread_queue st

-- `sched_schedule` up to the switch to the thread that is then `current`.
switch_to : ℕ × Sched → Outcome Sched
switch_to (next, st) = ok (record st {
  current = next;
  thread_at =
      update st.thread_at next
        (record (st.thread_at next) { time_used = 0; state = thread_running });
})

-- `time_used ++`, which is stored before it is tested, and the preemption.
tick : Sched → Sched
tick st =
    let t = st.thread_at st.current in
    record st {
      thread_at = update st.thread_at st.current (record t { time_used = t.time_used + 1 });
    }

preempt : Sched → Sched
preempt st =
    let t = st.thread_at st.current in
    record st { thread_at = update st.thread_at st.current (record t { state = thread_preempted }) }

unfoldable pub sched_schedule : ℕ → Sched → Outcome Sched
unfolding switch_to tick preempt
sched_schedule fuel st =
    let t = st.thread_at st.current in
    if not st.can_schedule
    then ok st
    else if st.current == 0
    then panic
    else if t.state == thread_zombie
    then sched_select fuel st >>= switch_to
    else if ltb (t.time_used + 1) max_proc_time
    then ok (tick st)
    else sched_select fuel (preempt (tick st)) >>= switch_to
