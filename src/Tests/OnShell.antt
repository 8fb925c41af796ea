-- ===== src/Tests/OnShell.antt =====
-- The kernel shell at concrete inputs.
use levos.Prelude.{
  ℕ, ◌-◌, ◌<◌, ◌≡◌, ◌↔◌, refl, arith, List, [], ◌∷◌, ◌++◌, Option, none, some, true, false, length,
  take, replicate,
}
use levos.Prelude.Text.{codes}
use levos.Prelude.Int.{pos, neg}
use levos.Prelude.Outcome.{Outcome, ok, fault, ◌>>=◌}
use levos.Libc.Errno.{errno_to_string}
use levos.Libc.Str.{strlen, strcmp, strncmp}
use levos.Libc.Str.Compare.{c_string}
use levos.Drivers.Tty.{Tty, newline}
use levos.Arch.Context.{arch_sched_mk_initial_regs}
use levos.Kernel.Printk.{printk_emit}
use levos.Kernel.Files.{syscall_open, syscall_transfer}
use levos.Kernel.Syscall.{Files}
use levos.Kernel.Shell.{Command, cmd_stat, parse_input}
use levos.Kernel.Shell.Parse.{Calls, parse_input_iff}
use levos.Kernel.Shell.Input.{buffer_size, grab_input}
use levos.Kernel.Shell.Input.Line.{
  Key, idle, key, typed, listening, line_of, grabbed, grab_input-line,
}
use levos.Kernel.Shell.Commands.{World, Texts, type_text, cmd_cat}
use levos.Kernel.Shell.Commands.Leak.{cmd_cat-leaves}

parse_input_iff_example :
    (o : Option Command) × (parse_input (c_string (codes "stat /a") (0 ∷ [])) ≡ ok o)
    × ((c : Command) → (o ≡ some c) ↔ Calls (codes "stat /a") (0 ∷ []) c)
parse_input_iff_example = parse_input_iff (codes "stat /a") (0 ∷ []) (omega arith)

parsed :
    parse_input (c_string (codes "stat /a") []) ≡ ok (some (cmd_stat (c_string (codes "/a") [])))
unfolding parse_input strcmp strncmp
parsed = refl

not_parsed : parse_input (c_string (codes "cat") []) ≡ ok none
unfolding parse_input strcmp strncmp
not_parsed = refl

-- Output is the list of the characters.
abbrev write_down : ℕ → List ℕ → Outcome (List ℕ)
write_down c s = ok (s ++ (c ∷ []))

abbrev console : Tty
console = record {
  input = true;
  output = true;
  inputbuf = [];
  outputbuf = [];
  sent = [];
  buffered = false;
}

abbrev keys : List Key
keys = key b'p' ∷ idle ∷ key b's' ∷ []

grab_input-line_example :
    (length (typed keys) < buffer_size
      → grab_input write_down (line_of write_down console [] keys) (listening console) [] ≡ (
          printk_emit write_down (typed keys ++ (newline ∷ [])) [] >>= λ s'. ok (
            grabbed write_down console []
              (c_string (typed keys) (replicate (buffer_size - 1 - length (typed keys)) 0))
              s')))
    × (length (typed keys) ≡ buffer_size
        → (grab_input write_down (line_of write_down console [] keys) (listening console) [] ≡ (
            printk_emit write_down (typed keys ++ (newline ∷ [])) [] >>= λ s'.
            ok (grabbed write_down console [] (typed keys) s')))
          × (strlen (typed keys) ≡ fault))
    × (buffer_size < length (typed keys)
        → grab_input write_down (line_of write_down console [] keys) (listening console) []
          ≡ (printk_emit write_down (take buffer_size (typed keys)) [] >>= λ s'. fault))
grab_input-line_example = grab_input-line write_down console [] keys [] (omega arith)

-- The file at pointer 9, with 5 bytes, and the console at pointer 7.
abbrev one_file : Files
one_file = record {
  open_path = λ path. 9;
  stat_path = λ path st. pos 0;
  read = λ filp buf count. ok (pos count);
  write = λ filp buf count. ok (pos count);
}

abbrev plain_texts : Texts
plain_texts = record {
  string_at = λ p. [];
  pointer_to = λ text. 1;
  comm = λ p. 1;
  device_name = λ d. 1;
  device_type = λ d. 0;
  isdir = λ file. ok false;
  st_size = λ path. 5;
}

abbrev shell_world : World (List ℕ)
shell_world = record {
  kernel = record {
    file_table = 0 ∷ 7 ∷ replicate 126 0;
    sched = record {
      thread_queue = replicate 32 0;
      sched_next = 0;
      sched_current_processes = 0;
      sched_current_threads = 0;
      can_schedule = true;
      current = 0;
      thread_at = λ t. record { state = 0; time_used = 0; owner = 0 };
      process_at = λ p. record { pid = 0; threads = [] };
    };
  };
  out = [];
}

abbrev after_open : List ℕ
after_open = 0 ∷ 7 ∷ 0 ∷ 9 ∷ replicate 124 0

opened : syscall_open 9 shell_world.kernel.file_table ≡ (pos 3, after_open)
unfolding syscall_open
opened = refl

transferred : (n : ℕ) → syscall_transfer (λ filp. ok (pos n)) (pos 3) after_open ≡ ok (pos n)
unfolding syscall_transfer
transferred n = refl

written_out : (n : ℕ) → syscall_transfer (λ filp. ok (pos n)) (pos 1) after_open ≡ ok (pos n)
unfolding syscall_transfer
written_out n = refl

cmd_cat-leaves_example :
    cmd_cat write_down plain_texts one_file
      (arch_sched_mk_initial_regs 0)
      (λ a. 0)
      0x100
      0x200
      0x300
      shell_world
    ≡ ok (record shell_world { kernel = record shell_world.kernel { file_table = after_open } })
unfolding arch_sched_mk_initial_regs
cmd_cat-leaves_example =
    cmd_cat-leaves write_down plain_texts one_file (arch_sched_mk_initial_regs 0) (λ a. 0) 0x100
      0x200 (omega arith) 0x300 3 0 shell_world after_open (pos 5) (pos 5) (omega arith)
      (omega arith) (omega arith) (omega arith) (omega arith) refl opened (transferred 5)
      (written_out 5)

names :
    (errno_to_string (neg 2) ≡ codes "ENOENT")
    × (errno_to_string (pos 35) ≡ codes "ENOSYS")
    × (errno_to_string (pos 36) ≡ codes "UNKNOWN")
    × (type_text 4 ≡ codes "[blk]")
unfolding errno_to_string type_text
names = (refl, refl, refl, refl)
