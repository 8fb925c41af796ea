-- ===== src/Kernel/Shell.antt =====
-- kernel/shell.c: what the shell makes of a line.
pub mod Parse
pub mod Input
pub mod Commands
use levos.Prelude.{ℕ, List, [], Option, none, some, ◌==◌, if◌then◌else◌, drop}
use levos.Prelude.Text.{codes}
use levos.Prelude.Outcome.{Outcome, ok, ◌>>=◌}
use levos.Libc.Str.{strcmp, strncmp}
use levos.Libc.Str.Compare.{c_string}

-- The functions that `parse_input` calls. An argument is a pointer into the line: the bytes from there on.
pub data Command : Type 0 where
  cmd_ps cmd_lsdev cmd_exit cmd_testmt : Command
  cmd_ls cmd_cat cmd_stat cmd_elf : List ℕ → Command

-- A text of the program, with its terminator.
abbrev pub literal : List ℕ → List ℕ
literal text = c_string text []

-- `if (test == 0) command else next`
unfoldable pub else_if : Outcome ℕ → Command → Outcome (Option Command) → Outcome (Option Command)
else_if test command next = test >>= λ n. if n == 0 then ok (some command) else next

unfoldable pub parse_input : List ℕ → Outcome (Option Command)
unfolding else_if
parse_input cmd = else_if (strcmp (literal (codes "ps")) cmd) cmd_ps (
    else_if (strcmp (literal (codes "lsdev")) cmd) cmd_lsdev (
      else_if (strncmp (literal (codes "ls ")) cmd 3) (cmd_ls (drop 3 cmd)) (
        else_if (strcmp (literal (codes "exit")) cmd) cmd_exit (
          else_if (strcmp (literal (codes "testmt")) cmd) cmd_testmt (
            else_if (strncmp (literal (codes "cat ")) cmd 4) (cmd_cat (drop 4 cmd)) (
              else_if (strncmp (literal (codes "stat ")) cmd 5) (cmd_stat (drop 5 cmd)) (
                else_if (strncmp (literal (codes "elf ")) cmd 4) (cmd_elf (drop 4 cmd))
                  (ok none))))))))
