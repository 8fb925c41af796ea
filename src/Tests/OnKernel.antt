-- ===== src/Tests/OnKernel.antt =====
-- kernel/ at concrete inputs.
use levos.Prelude.{
  ◌^◌, ◌-◌, ◌||◌, ltb, ℕ, ◌++◌, ◌+◌, ◌+◌, ◌%◌, ◌≤◌, ◌<◌, ◌≡◌, ◌≢◌, ◌⊎◌, refl, arith, List, [], ◌∷◌,
  true, false, ◌==◌, if◌then◌else◌, replicate,
}
use levos.Prelude.Int.{ℤ, pos, neg}
use levos.Kernel.Log.{console_register, console_send}
use levos.Prelude.Errno.{enosys, enospc, emfile}
use levos.Prelude.Outcome.{Outcome, ok, fault}
use levos.Arch.Context.{Regs, arch_sched_mk_initial_regs}
use levos.Arch.Tables.{null_gate}
use levos.Kernel.Sched.Fair.{LeavesWaiting, distance, Brings, sched_select-fair}
use levos.Kernel.Sched.Removal.{sched_rm_process, sched_rm_process-fault}
use levos.Kernel.Printk.{directive, printk_emit, vprintk}
use levos.Kernel.Printk.Format.{
  Piece, a_char, the_string, the_decimal, the_char, format_of, args_of, Prints, vprintk-Prints,
}
use levos.Kernel.Syscall.{
  Kernel, Files, call_null, syscalls, word_of_int, run_call, syscall_hub, syscall_init,
}
use levos.Kernel.Syscall.Resume.{syscall_hub-resumes}
use levos.Kernel.Elf.{Operations}
use levos.Kernel.Sched.{
  Sched, thread_zombie, thread_queue_size, passed_over, sched_select, sched_add_process,
  sched_mark_zombie, get_process_by_pid, sched_schedule, mark_threads,
}
use levos.Kernel.Sched.Select.{slot, looked_at, sched_select-first}
use levos.Kernel.Sched.Queue.{IsQueue, copies, sched_add_process-IsQueue}
use levos.Kernel.Files.{syscall_open}
use levos.Kernel.Files.Table.{InUse, Opened, syscall_open-Opened}

-- The idle thread 1 of process 1 and thread 2 of process 2; process 3 with thread 3 is not yet added.
abbrev two_threads : Sched
two_threads = record {
  thread_queue = 1 ∷ 2 ∷ replicate 30 0;
  sched_next = 1;
  sched_current_processes = 2;
  sched_current_threads = 2;
  can_schedule = true;
  current = 1;
  thread_at = λ t. record { state = 3; time_used = 9; owner = t };
  process_at = λ p. record { pid = if p == 1 then 0 else p; threads = p ∷ [] };
}

abbrev no_threads : Sched
no_threads = record two_threads { thread_queue = []; sched_current_threads = 0 }

sched_select-first_example :
    (e : ℕ) × (e ≤ 0)
    × (passed_over (slot e two_threads) two_threads ≡ false)
    × ((k : ℕ) → k < e → passed_over (slot k two_threads) two_threads ≡ true)
    × (sched_select 3 two_threads
        ≡ ok (slot e two_threads, looked_at ((1 + e) % thread_queue_size) two_threads))
sched_select-first_example = sched_select-first 3 0 two_threads (omega arith) (omega arith) refl

two_threads-IsQueue : IsQueue two_threads
two_threads-IsQueue = record { slots = refl; counted = refl }

sched_add_process-IsQueue_example :
    ((sched_add_process 3 two_threads).0 ≡ pos 0)
    × IsQueue (sched_add_process 3 two_threads).1
    × ((u : ℕ)
        → u ≢ 0
        → copies u (sched_add_process 3 two_threads).1.thread_queue
          ≡ copies u two_threads.thread_queue + copies u (3 ∷ []))
sched_add_process-IsQueue_example =
    sched_add_process-IsQueue 3 two_threads (omega arith) (omega arith) two_threads-IsQueue
      (omega arith)

pid_two : get_process_by_pid 2 two_threads ≡ 2
unfolding get_process_by_pid
pid_two = refl

zombie_two : ((sched_mark_zombie 2 two_threads).thread_at 2).state ≡ thread_zombie
unfolding sched_mark_zombie mark_threads
zombie_two = refl

-- The time of thread 1 is up, and thread 2 runs next.
abbrev current_of : Outcome Sched → ℕ
current_of (ok st) = st.current
current_of _ = 0

next_two : current_of (sched_schedule 5 two_threads) ≡ 2
unfolding sched_schedule sched_select
next_two = refl

abbrev files : List ℕ
files = 0 ∷ 7 ∷ 0 ∷ 8 ∷ replicate 124 0

syscall_open-Opened_example :
    ((fd : ℕ) × ((syscall_open 9 files).0 ≡ pos fd) × Opened 9 fd files (syscall_open 9 files).1)
    ⊎ ((syscall_open 9 files ≡ (neg emfile, files)) × InUse 3 128 files)
syscall_open-Opened_example = syscall_open-Opened 9 files (omega arith) refl

console_refused : console_register 5 (1 ∷ 2 ∷ 3 ∷ 4 ∷ []) ≡ (neg enospc, 1 ∷ 2 ∷ 3 ∷ 4 ∷ [])
unfolding console_register
console_refused = refl

-- Two consoles count the bytes that they get.
console_sent : console_send (λ con c n. (pos 1, n + 1)) b'x' (1 ∷ 2 ∷ []) 0 ≡ ok 2
unfolding console_send
console_sent = refl

-- Between two calls the thread that was selected is preempted, and the time of the other one is counted.
abbrev preempted : ℕ → Sched → Sched
preempted k st = record st {
  thread_at = λ t. record { state = 2; time_used = k; owner = t };
  process_at = two_threads.process_at;
  current = k;
}

preempted-LeavesWaiting : LeavesWaiting 2 1 preempted
preempted-LeavesWaiting = record {
  next = λ k st. refl;
  waits = λ k st w. record { here = w.here; runs = refl };
}

sched_select-fair_example :
    (n : ℕ) × (n ≤ distance 2 1 + 1)
    × Brings preempted 2 n 0 (record two_threads { sched_next = 2 })
sched_select-fair_example =
    sched_select-fair preempted 2 1 (record two_threads { sched_next = 2 }) preempted-LeavesWaiting
      (omega arith) (omega arith) (record { here = refl; runs = refl })

sched_rm_process-fault_example : sched_rm_process 3 two_threads ≡ fault
sched_rm_process-fault_example =
    sched_rm_process-fault 3 two_threads (omega arith) (omega arith) (omega arith)
      (record { slots = refl; counted = refl }) (omega arith)

-- "<%s> %d%%x%c": a string, a number, and characters of their own.
abbrev pieces : List Piece
pieces = a_char b'<' ∷ the_string 7 ∷ a_char b'>' ∷ the_decimal 42 ∷ the_char 0x141 ∷ []

abbrev boot : ℕ → List ℕ
boot p = b'o' ∷ b'k' ∷ []

vprintk-Prints_example :
    (out : List ℕ) × Prints boot pieces out
    × ((s : List ℕ)
        → vprintk (λ c t. ok (t ++ (c ∷ []))) boot (format_of pieces) (args_of pieces ++ []) s
          ≡ printk_emit (λ c t. ok (t ++ (c ∷ []))) out s)
vprintk-Prints_example =
    vprintk-Prints (λ c t. ok (t ++ (c ∷ []))) boot pieces []
      (omega arith, (omega arith, (omega arith, (omega arith, (omega arith, tt)))))

-- A `%` in front of a character that is no conversion is not printed.
printed :
    vprintk (λ c t. ok (t ++ (c ∷ []))) boot (b'%' ∷ b's' ∷ b'%' ∷ b'!' ∷ []) (7 ∷ []) []
    ≡ ok (b'o' ∷ b'k' ∷ b'!' ∷ [])
unfolding vprintk directive printk_emit
printed = refl

-- A thread that asks for system call 2, which does not exist.
abbrev caller : Regs
caller = record (arch_sched_mk_initial_regs 0x9000) {
  eax = 2;
  ebx = 1;
  esp = 0x8000;
  eip = 0x100000;
}

abbrev kernel : Kernel
kernel = record { file_table = files; sched = two_threads }

abbrev no_files : Files
no_files = record {
  open_path = λ p. 9;
  stat_path = λ p st. neg enospc;
  read = λ filp buf n. ok (pos 0);
  write = λ filp buf n. ok (pos n);
}

syscall_hub-resumes_example :
    ((v : ℤ) (st' : Kernel)
      → run_call no_files (syscalls 2) caller kernel ≡ ok (v, st')
      → syscall_hub no_files caller (λ _. 0) kernel
        ≡ ok (record caller { eax = word_of_int v }, st'))
    × (syscalls 2 ≡ call_null
        → syscall_hub no_files caller (λ _. 0) kernel
          ≡ ok (record caller { eax = 2 ^ 32 - enosys }, kernel))
unfolding arch_sched_mk_initial_regs
syscall_hub-resumes_example =
    syscall_hub-resumes no_files caller (λ _. 0) kernel (omega arith) (omega arith)

six_calls : (syscall_init 0 0x1000 (λ _. null_gate)).0 ≡ 6
unfolding syscall_init
six_calls = refl

-- A file of 116 bytes with one section header of type 1, at 64; `e_shnum` is 1 and `e_phnum` is 0.
abbrev object : ℕ → ℕ
object o =
    if o == 0
    then 0x7F
    else if o == 1
    then b'E'
    else if o == 2
    then b'L'
    else if o == 3
    then b'F'
    else if o == 32
    then 64
    else if o == 20 || o == 48 || o == 64
    then 1
    else 0

abbrev plain_file : Operations ℕ
plain_file = record {
  read = λ count b at. (λ o. if ltb o count then object (at + o) else b o, at + count);
  file_set_position = λ p at. p;
}
