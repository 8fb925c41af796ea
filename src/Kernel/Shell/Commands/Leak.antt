-- ===== src/Kernel/Shell/Commands/Leak.antt =====
-- `cmd_cat` of kernel/shell.c: the file that it opens stays open.
use levos.Prelude.{ℕ, ◌<◌, ◌≡◌, ◌≢◌, ◌^◌, refl, arith, List, false, ◌==◌}
use levos.Prelude.Int.{ℤ, pos}
use levos.Prelude.Outcome.{Outcome, ok}
use levos.Arch.Context.{Regs}
use levos.Kernel.Files.{syscall_open, syscall_transfer}
use levos.Kernel.Syscall.{Kernel, Files, word_of_int, run_call, syscalls}
use levos.Kernel.Syscall.Number.{ask, IsInt, int_of_word-word_of_int, call_syscall-run_call}
use levos.Kernel.Shell.Commands.{World, Texts, call, copy_file, cmd_cat}

module _ {S : Type 0} (emit : ℕ → S → Outcome S) (texts : Texts) (files : Files) (cpu : Regs)
    (m : ℕ → ℕ) (st buf : ℕ) (small : cpu.esp < 2 ^ 32) where
  -- A call whose function returns.
  call-run :
      (n a1 a2 a3 : ℕ) (w : World S) (v : ℤ) (k : Kernel)
      → n < 256
      → IsInt v
      → run_call files (syscalls n) (ask cpu n a1 a2 a3) w.kernel ≡ ok (v, k)
      → call emit texts files cpu m st buf n a1 a2 a3 w ≡ ok (v, record w { kernel = k })
  unfolding call
  call-run n a1 a2 a3 w v k known fits run =
      rw (call_syscall-run_call files cpu m n a1 a2 a3 w.kernel k v known small fits run) refl

  -- `cat` of a file that can be opened, read and written out leaves the kernel with the table of open files
  -- of its `open`: the descriptor is not closed.
  pub cmd_cat-leaves :
      (arg fd r : ℕ) (w : World S) (table : List ℕ) (got put : ℤ)
      → fd ≢ 0
      → fd < 2 ^ 31
      → r < 2 ^ 31
      → IsInt got
      → IsInt put
      → files.stat_path arg st ≡ pos r
      → syscall_open (files.open_path arg) w.kernel.file_table ≡ (pos fd, table)
      → syscall_transfer (λ filp. files.read filp buf (texts.st_size arg)) (pos fd) table ≡ ok got
      → syscall_transfer (λ filp. files.write filp buf (texts.st_size arg)) (pos 1) table ≡ ok put
      → cmd_cat emit texts files cpu m st buf arg w
        ≡ ok (record w { kernel = record w.kernel { file_table = table } })
  unfolding cmd_cat copy_file run_call
  cmd_cat-leaves arg fd r w table got put some_fd fits fits_r fits_got fits_put stats opens reads
        writes =
      let size = texts.st_size arg in
      let k = record w.kernel { file_table = table } in
      let w1 : World S = record w { kernel = k } in
      let stat = call-run 18 arg st 0 w (pos r) w.kernel (omega arith) fits_r (rw stats refl) in
      let open_ = call-run 5 arg 0 0 w (pos fd) k (omega arith) fits (rw opens refl) in
      let as_int = int_of_word-word_of_int (pos fd) fits in
      let read =
        call-run 3 (word_of_int (pos fd)) buf size w1 got k (omega arith) fits_got
          (rw (as_int, reads) refl) in
      let write = call-run 4 1 buf size w1 put k (omega arith) fits_put (rw writes refl) in
      let there : (fd == 0) ≡ false = ground arith in rw (stat, open_, there, read, write) refl
