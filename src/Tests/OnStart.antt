-- ===== src/Tests/OnStart.antt =====
-- `sched_start_idle` of kernel/sched.c on the machine of 32 frames.
use levos.Prelude.{ℕ, ◌+◌, ◌≡◌, refl, arith, [], ◌∷◌, some, Option, replicate, false}
use levos.Prelude.Outcome.{Outcome, ok, panic, fault, hang}
use levos.Mm.Alloc.{kmalloc}
use levos.Mm.Frame.{first_n_frames, test_frame, set_frame}
use levos.Mm.Page.{copy_page_dir, mm_alloc_pages, map_dma, get_page, alloc_dma_frame}
use levos.Mm.State.{Mm}
use levos.Kernel.Process.{
  Process, Maker, sched_mk_process, fill, arch_sched_make_address_space, sched_create_stack, finish,
  sched_make_filetable,
}
use levos.Kernel.Process.Idle.{Booting, sched_start_idle}
use levos.Kernel.Process.Idle.Running.{sched_start_idle-runs}
use levos.Arch.Context.{thread_stack_set, arch_sched_mk_initial_regs}
use levos.Tests.OnMm.{heap, machine}
use levos.Tests.OnPreempt.{busy}

abbrev keep_block : ℕ → Mm ℕ → Mm ℕ
keep_block a st = st

abbrev cold : Booting ℕ ℕ
cold = record {
  maker = record { mm = machine; global_pid = 0 };
  system = record busy {
    cpu = record busy.cpu { cr3 = 0x9000 };
    sched = record busy.sched {
      thread_queue = replicate 32 0;
      sched_current_threads = 0;
      current = 0;
      can_schedule = false;
    };
  };
}

abbrev maker_of : Outcome (Option Process × Maker ℕ) → Maker ℕ
maker_of (ok r) = r.1
maker_of panic = cold.maker
maker_of fault = cold.maker
maker_of hang = cold.maker

-- The process at `address`, whose directory follows its thread and its table of threads.
abbrev process : ℕ → ℕ → ℕ → ℕ → ℕ → Process
process address comm pid entry top = record {
  address = address;
  comm = comm;
  pid = pid;
  thread = address + 532;
  page_dir = address + 604;
  file_table = 0 ∷ 0x77 ∷ [];
  r = record {
    magic = 0;
    cr3 = 0x9000;
    edi = 0;
    esi = 0;
    ebp = top;
    esp = top;
    ebx = 0;
    edx = 0;
    ecx = 0;
    eax = 0;
    eip = entry;
    cs = 8;
    eflags = 0x202;
  };
}

abbrev idle : Process
idle = process 0x10_0000 0x10 0 0x2000 0x3000

abbrev kinit : Process
kinit = process 0x10_2260 0x20 1 0x2800 0x4000

abbrev after_idle : Maker ℕ
after_idle =
    maker_of (sched_mk_process heap keep_block 0x9000 0x77 0 (replicate 2 0) 0x10 0x2000 cold.maker)

abbrev after_init : Maker ℕ
after_init =
    maker_of (sched_mk_process heap keep_block 0x9000 0x77 0 (replicate 2 0) 0x20 0x2800 after_idle)

made_idle :
    sched_mk_process heap keep_block 0x9000 0x77 0 (replicate 2 0) 0x10 0x2000 cold.maker
    ≡ ok (some idle, after_idle)
unfolding sched_mk_process kmalloc fill arch_sched_make_address_space copy_page_dir
    sched_create_stack mm_alloc_pages first_n_frames test_frame map_dma get_page finish
    alloc_dma_frame set_frame sched_make_filetable thread_stack_set arch_sched_mk_initial_regs
made_idle = refl

made_init :
    sched_mk_process heap keep_block 0x9000 0x77 0 (replicate 2 0) 0x20 0x2800 after_idle
    ≡ ok (some kinit, after_init)
unfolding sched_mk_process kmalloc fill arch_sched_make_address_space copy_page_dir
    sched_create_stack mm_alloc_pages first_n_frames test_frame map_dma get_page finish
    alloc_dma_frame set_frame sched_make_filetable thread_stack_set arch_sched_mk_initial_regs
made_init = refl

sched_start_idle-runs_example :
    (b' : Booting ℕ ℕ) × (sched_start_idle heap keep_block 0x77 0
        (replicate 2 0)
        0x10
        0x20
        0x2000
        0x2800
        cold
      ≡ ok b')
    × (b'.system.cpu.eip ≡ 0x2000)
    × (b'.system.cpu.esp ≡ 0x3000)
    × (b'.system.cpu.eflags ≡ 0x202)
    × (b'.system.sched.current ≡ idle.thread)
    × (b'.system.sched.thread_queue ≡ idle.thread ∷ kinit.thread ∷ replicate 30 0)
    × ((b'.system.sched.process_at idle.address).pid ≡ 0)
    × ((b'.system.sched.process_at kinit.address).pid ≡ 1)
sched_start_idle-runs_example =
    sched_start_idle-runs heap keep_block 0x77 0 (replicate 2 0) 0x10 0x20 0x2000 0x2800 cold idle
      kinit after_idle after_init (replicate 30 0) made_idle made_init (λ e. omega arith)
      (λ e. omega arith) (λ e. omega arith) (λ e. omega arith) (λ e. omega arith) refl refl
