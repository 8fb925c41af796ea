-- ===== src/Arch/Textmode.antt =====
-- arch/x86/textmode.c: the console on the text memory of the graphics card, 25 rows of 80 words from
-- 0xB8000 on. A word is a character and, above it, its colour.
pub mod Screen
use levos.Prelude.{
  ℕ, zero, suc, ◌+◌, ◌-◌, ◌*◌, ◌%◌, ◌^◌, List, [], ◌∷◌, bit_or, ◌||◌, ◌==◌, ltb, leb, if◌then◌else◌,
  put_word, length,
}
use levos.Prelude.Int.{ℤ, pos}
use levos.Kernel.Log.{console_register}
use levos.Drivers.Tty.Table.{Ttys, tty_set_default_output}
use levos.Libc.Mem.{Memory, memcpy, memset16}

-- `struct tmpriv`
pub record Tmpriv : Type 0 where
  pub x : ℕ
  pub y : ℕ
  pub col : ℕ

abbrev pub screen : ℕ
screen = 0xB8000

abbrev pub newline : ℕ
newline = b'\n'

-- `p->col << 8 | ' '`, stored in a word.
abbrev pub blank : ℕ → ℕ
blank col = bit_or (col * 2 ^ 8) b' ' % 2 ^ 16

clear_cells : ℕ → ℕ → ℕ → Memory → Memory
clear_cells zero i w m = m
clear_cells (suc rounds) i w m = clear_cells rounds (i + 1) w (put_word (screen + i * 2) w m)

unfoldable pub textmode_clear : Tmpriv → Memory → Memory
unfolding clear_cells
textmode_clear p m = clear_cells 2000 0 (blank p.col) m

-- The loop over `y`, with `rounds` left.
unfoldable pub scroll_rows : ℕ → ℕ → Memory → Memory
scroll_rows zero y m = m
scroll_rows (suc rounds) y m =
    scroll_rows rounds (y + 1) (memcpy (screen + y * 80 * 2) (screen + (y + 1) * 80 * 2) (80 * 2) m)

unfoldable pub textmode_scrollup : Tmpriv → Memory → Memory
textmode_scrollup p m = memset16 (screen + 80 * 25 * 2) (blank p.col) (80 * 2) (scroll_rows 25 0 m)

-- The byte as a `char`, which is signed, in a word.
abbrev pub char_word : ℕ → ℕ
char_word c = if ltb c 128 then c else 2 ^ 16 - 256 + c

-- The first two tests: the cursor goes to the next row, and the screen up.
unfoldable pub next_row : ℕ → Tmpriv → Tmpriv
next_row c p = if ltb 80 p.x || c == newline then record p { y = p.y + 1; x = 0 } else p

unfoldable pub stay_on_screen : Tmpriv × Memory → Tmpriv × Memory
stay_on_screen (p, m) =
    if leb 25 p.y then (record p { x = 0; y = p.y - 1 }, textmode_scrollup p m) else (p, m)

unfoldable pub put_cell : ℕ → Tmpriv × Memory → Tmpriv × Memory
put_cell c (p, m) = if c == newline then (p, m) else (
  record p { x = p.x + 1 },
  put_word (screen + 80 * 2 * p.y + p.x * 2) (bit_or (p.col * 2 ^ 8 % 2 ^ 16) (char_word c)) m,
)

-- `p` is not null.
unfoldable pub textmode_putchar : ℕ → Tmpriv × Memory → Tmpriv × Memory
textmode_putchar c (p, m) = if c == 0 then (p, m) else put_cell c (stay_on_screen (next_row c p, m))

-- The loop of `textmode_write`, which returns how often it ran.
unfoldable pub put_chars : List ℕ → Tmpriv × Memory → Tmpriv × Memory
put_chars [] s = s
put_chars (c ∷ buf) s = put_chars buf (textmode_putchar c s)

unfoldable pub textmode_write : List ℕ → Tmpriv × Memory → ℤ × Tmpriv × Memory
textmode_write buf s = let (p, m) = put_chars buf s in (pos (length buf), p, m)

-- `textmode_init`, for its device and its console: the state of the device, the text memory, the terminals
-- with the device as their default output, and the list of consoles.
unfoldable pub textmode_init : ℕ → ℕ → Memory → Ttys → List ℕ → Tmpriv × Memory × Ttys × List ℕ
textmode_init tm_dev tm_con m st cons =
    let tp : Tmpriv = record { x = 0; y = 0; col = 0x07 } in
    (tp, textmode_clear tp m, tty_set_default_output tm_dev st, (console_register tm_con cons).1)
