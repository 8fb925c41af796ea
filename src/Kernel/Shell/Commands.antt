-- ===== src/Kernel/Shell/Commands.antt =====
-- The commands of kernel/shell.c, which print, and call the kernel by its system calls. A text or a file is a
-- pointer, a number.
pub mod Leak
use levos.Prelude.{
  ℕ, zero, suc, ◌+◌, List, [], ◌∷◌, Bool, true, false, not, ◌==◌, if◌then◌else◌, get_or,
}
use levos.Prelude.Text.{codes}
use levos.Prelude.Int.{ℤ, pos, negsuc, is_neg}
use levos.Prelude.Errno.{enotdir}
use levos.Prelude.Outcome.{Outcome, ok, fault, hang, ◌>>=◌}
use levos.Libc.Errno.{errno_to_string}
use levos.Arch.Context.{Regs}
use levos.Kernel.Printk.{vprintk}
use levos.Kernel.Sched.{Sched}
use levos.Kernel.Syscall.{Kernel, Files, word_of_int}
use levos.Kernel.Syscall.Number.{call_syscall}

-- `S` is the state that the output of a character changes.
pub record World (S : Type 0) : Type 0 where
  pub kernel : Kernel
  pub out : S

-- What the commands read: the text at a pointer, the pointer to a text of the program, the names of processes and
-- devices, and the fields of a file and of its `struct stat`, by the path, that they look at.
pub record Texts : Type 0 where
  pub string_at : ℕ → List ℕ
  pub pointer_to : List ℕ → ℕ
  pub comm : ℕ → ℕ
  pub device_name : ℕ → ℕ
  pub device_type : ℕ → ℕ
  pub isdir : ℕ → Outcome Bool
  pub st_size : ℕ → ℕ

-- `fd <= 0`
abbrev pub is_none_fd : ℤ → Bool
is_none_fd (pos n) = n == 0
is_none_fd (negsuc n) = true

unfoldable pub type_text : ℕ → List ℕ
type_text t =
    if t == 3
    then codes "[tty]"
    else if t == 0
    then codes "[pseudo]"
    else if t == 1
    then codes "[isa]"
    else if t == 2
    then codes "[pci]"
    else if t == 4
    then codes "[blk]"
    else if t == 5
    then codes "[intty]"
    else codes "[unktype]"

module _ {S : Type 0} (emit : ℕ → S → Outcome S) (texts : Texts) where
  -- `_printk`
  unfoldable pub print : List ℕ → List ℕ → World S → Outcome (World S)
  print fmt args w =
      vprintk emit texts.string_at fmt args w.out >>= λ out. ok (record w { out = out })

  unfoldable pub show_prompt : World S → Outcome (World S)
  unfolding print
  show_prompt w = print (codes "LevOS$ ") [] w

  -- The loop of `cmd_ps` over the slots of the queue.
  unfoldable pub print_threads : List ℕ → World S → Outcome (World S)
  unfolding print
  print_threads [] w = ok w
  print_threads (p ∷ queue) w =
      let st = w.kernel.sched in
      let owner = (st.thread_at p).owner in
      let mark = texts.pointer_to (if st.current == p then codes "[current]" else []) in
      let args = texts.comm owner ∷ (st.process_at owner).pid ∷ mark ∷ [] in
      (if p == 0 then ok w else print (codes "%s [%d] %s\n") args w) >>= print_threads queue

  unfoldable pub cmd_ps : World S → Outcome (World S)
  unfolding print_threads
  cmd_ps w = print (codes "NAME [PID] extra\n") [] w >>= print_threads w.kernel.sched.thread_queue

  -- The loop of `cmd_lsdev`, which takes the same index again where there is no device.
  unfoldable pub print_devices : List ℕ → World S → Outcome (World S)
  unfolding print
  print_devices [] w = ok w
  print_devices (d ∷ devs) w =
      let args = texts.device_name d ∷ texts.pointer_to (type_text (texts.device_type d)) ∷ [] in
      (if d == 0 then hang else print (codes "%s %s\n") args w) >>= print_devices devs

  unfoldable pub cmd_lsdev : List ℕ → World S → Outcome (World S)
  unfolding print_devices
  cmd_lsdev devs w = print (codes "NAME TYPE\n") [] w >>= print_devices devs

  -- What `vfs_open` gives is not tested before it is read.
  unfoldable pub cmd_ls : Files → ℕ → World S → Outcome (World S)
  unfolding print
  cmd_ls files arg w = texts.isdir (files.open_path arg) >>= λ isdir.
      if isdir
      then ok w
      else print (codes "%s") (texts.pointer_to (errno_to_string (pos enotdir)) ∷ []) w

  -- The commands that call the kernel: `cpu` are the registers of the shell but for those of the call, `m` is
  -- memory, and `st` and `buf` are the buffers of the command.
  module _ (files : Files) (cpu : Regs) (m : ℕ → ℕ) (st buf : ℕ) where
    unfoldable pub call : ℕ → ℕ → ℕ → ℕ → World S → Outcome (ℤ × World S)
    call n a1 a2 a3 w = call_syscall files cpu m n a1 a2 a3 w.kernel >>= λ (ret, k).
        ok (ret, record w { kernel = k })

    unfoldable pub cmd_stat : ℕ → World S → Outcome (World S)
    unfolding print
    cmd_stat arg w = call 18 arg st 0 w >>= λ (ret, w1).
        if is_neg ret
        then print (codes "Error while stat: %d\n") (word_of_int ret ∷ []) w1
        else print (codes "File: %s\n") (arg ∷ []) w1
          >>= print (codes "Size: %d bytes\n") (texts.st_size arg ∷ [])

    -- `cmd_cat` behind its `open`; the results of the last two calls are not looked at.
    unfoldable pub copy_file : ℕ → ℤ × World S → Outcome (World S)
    unfolding print
    copy_file size (fd, w) =
        if is_none_fd fd
        then print (codes "open failed\n") [] w
        else call 3 (word_of_int fd) buf size w >>= λ (_, w1).
            call 4 1 buf size w1 >>= λ (_, w2). ok w2

    unfoldable pub cmd_cat : ℕ → World S → Outcome (World S)
    unfolding copy_file print
    cmd_cat arg w = call 18 arg st 0 w >>= λ (ret, w1).
        if is_neg ret
        then print (codes "Error while stat: %d\n") (word_of_int ret ∷ []) w1
        else call 5 arg 0 0 w1 >>= copy_file (texts.st_size arg)

    unfoldable pub cmd_exit : World S → Outcome (World S)
    cmd_exit w = call 1 0 0 0 w >>= λ (_, w1). ok w1
