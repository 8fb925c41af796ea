-- ===== src/Kernel/Files.antt =====
-- kernel/syscall.c: open, close, read and write on the table of open files of the current process. A file
-- is a pointer, a number, and 0 is null. What `vfs_open` and the operations of a file do is passed in.
pub mod Table
use levos.Prelude.{
  ℕ, zero, suc, ◌+◌, List, [], ◌∷◌, Option, none, some, ◌==◌, ltb, if◌then◌else◌, length, get_or,
  set,
}
use levos.Prelude.Int.{ℤ, pos, negsuc, neg}
use levos.Prelude.Errno.{ebadf, emfile}
use levos.Prelude.Outcome.{Outcome, ok, fault, ◌>>=◌}

-- `file_table[fd]`, which is not guarded against its ends.
unfoldable pub file_at : ℤ → List ℕ → Outcome ℕ
file_at (pos fd) table = if ltb fd (length table) then ok (get_or table fd 0) else fault
file_at (negsuc n) table = fault

abbrev put_file : ℤ → ℕ → List ℕ → List ℕ
put_file (pos fd) filp table = set table fd filp
put_file (negsuc n) filp table = table

-- The loop of `syscall_open`, with `rounds` left.
free_fd : ℕ → ℕ → List ℕ → Option ℕ
free_fd zero i table = none
free_fd (suc rounds) i table =
    let rest = free_fd rounds (i + 1) table in if get_or table i 0 == 0 then some i else rest

enter_file : Option ℕ → ℕ → List ℕ → ℤ × List ℕ
enter_file none filp table = (neg emfile, table)
enter_file (some i) filp table = (pos i, set table i filp)

-- `filp` is what `vfs_open` gave, which is not tested.
unfoldable pub syscall_open : ℕ → List ℕ → ℤ × List ℕ
unfolding free_fd enter_file
syscall_open filp table = enter_file (free_fd 125 3 table) filp table

unfoldable pub syscall_close : ℤ → List ℕ → Outcome (ℤ × List ℕ)
unfolding file_at
syscall_close fd table = file_at fd table >>= λ filp.
    if filp == 0 then ok (neg ebadf, table) else ok (pos 0, put_file fd 0 table)

-- `syscall_read` and `syscall_write`, with the operation of the file.
unfoldable pub syscall_transfer : (ℕ → Outcome ℤ) → ℤ → List ℕ → Outcome ℤ
unfolding file_at
syscall_transfer operation fd table =
    file_at fd table >>= λ filp. if filp == 0 then ok (neg ebadf) else operation filp
