-- ===== src/Tests/OnDrivers.antt =====
-- drivers/ at concrete inputs.
use levos.Prelude.{
  none, some, ℕ, ◌+◌, ◌≤◌, ◌≡◌, refl, arith, List, [], ◌∷◌, ◌++◌, true, false, length,
}
use levos.Prelude.Int.{pos, negsuc}
use levos.Prelude.Outcome.{ok}
use levos.Drivers.Keyboard.{
  Keyboard, parse_keycode, role, keyboard_to_ascii, kbd_irq, keyboard_get_key,
}
use levos.Drivers.Keyboard.Modifiers.{parse_keycode-release}
use levos.Drivers.Tty.Table.{Ttys, nth_tty, get_tty, write_tty_char}
use levos.Drivers.Tty.Table.Setup.{made}
use levos.Drivers.Tty.{Tty, tty_bufsize, tty_output_write, tty_input_write, tty_input_read}
use levos.Drivers.Tty.Output.{tty_output_write-all}

abbrev waiting : List ℕ
waiting = b'l' ∷ b's' ∷ b'\n' ∷ b'$' ∷ []

abbrev tty0 : Tty
tty0 = record {
  input = true;
  output = true;
  inputbuf = [];
  outputbuf = waiting;
  sent = [];
  buffered = true;
}

tty_output_write-all_example :
    (t' : Tty) × (tty_output_write (b'h' ∷ b'\n' ∷ []) tty0 ≡ ok (pos 2, t'))
    × (t'.sent ++ t'.outputbuf ≡ ([] ++ waiting) ++ (b'h' ∷ b'\n' ∷ []))
    × (length t'.outputbuf ≤ tty_bufsize)
    × (true ≡ false → t'.outputbuf ≡ [])
tty_output_write-all_example =
    tty_output_write-all (b'h' ∷ b'\n' ∷ []) tty0 refl (omega arith) (omega arith)

-- What waits in the input buffer is overwritten by what the device gives.
input_lost :
    tty_input_read (λ n. b'x' ∷ b'y' ∷ []) 2 (record tty0 { inputbuf = b'a' ∷ [] })
    ≡ (pos 2, tty0, b'x' ∷ b'y' ∷ [])
unfolding tty_input_read
input_lost = refl

input_written : tty_input_write (b'a' ∷ []) tty0 ≡ ok (pos 1, record tty0 { inputbuf = b'a' ∷ [] })
unfolding tty_input_write
input_written = refl

abbrev idle_keyboard : Keyboard
idle_keyboard = record {
  shift = false;
  alt = false;
  ctrl = false;
  capslock = false;
  extended = false;
  keybuf = b'x' ∷ [];
}

-- The left shift key.
parse_keycode-release_example :
    (key : ℕ) × (down up : Keyboard) × (parse_keycode 0x2a idle_keyboard ≡ ok (key, down))
    × (parse_keycode (0x2a + 0x80) down ≡ ok (0, up))
    × ((up.shift ≡ false) × (up.alt ≡ false) × (up.ctrl ≡ false))
parse_keycode-release_example =
    parse_keycode-release 0x2a idle_keyboard (omega arith) (refl, refl, refl)

-- The key of the letter q.
letter_entered :
    kbd_irq 0x10 idle_keyboard ≡ ok (record idle_keyboard { keybuf = b'x' ∷ b'q' ∷ [] })
unfolding kbd_irq parse_keycode role keyboard_to_ascii
letter_entered = refl

first_character : keyboard_get_key idle_keyboard ≡ (b'x', record idle_keyboard { keybuf = [] })
unfolding keyboard_get_key
first_character = refl

-- Shift and 3 give the character of shift and 1.
shifted_three : keyboard_to_ascii b'3' (record idle_keyboard { shift = true }) ≡ b'!'
unfolding keyboard_to_ascii
shifted_three = refl

-- Before `tty_init`: the serial port is 5 and the text screen is 6.
abbrev no_ttys : Ttys
no_ttys = record {
  ttys = [];
  active_tty = negsuc 0;
  default_input = 5;
  default_output = 6;
  devices = 9 ∷ [];
}

abbrev new_device : ℕ → ℕ
new_device i = 0x1000 + i

-- Terminal 4 does not exist, and a terminal without an output is not written to.
written :
    (write_tty_char (pos 4) b'x' no_ttys ≡ none)
    × (write_tty_char (pos 0) b'x' (record no_ttys { ttys = made new_device no_ttys 0 ∷ [] })
        ≡ some (6, 0x1000, b'x' ∷ []))
unfolding write_tty_char get_tty nth_tty
written = (refl, refl)
