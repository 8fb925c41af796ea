-- ===== src/Drivers/Keyboard.antt =====
-- drivers/keyboard.c: the scancodes, the modifier keys and the buffer of characters. The buffer `keybuf` is
-- the list of its bytes below `key_loc`; its 256 bytes are not guarded, so a byte behind them is a fault.
-- The read of a 257th byte by the loop of `keyboard_get_key` is left out.
pub mod Modifiers
pub mod Read
use levos.Prelude.{
  ℕ, zero, suc, ◌+◌, ◌-◌, ◌%◌, List, [], ◌∷◌, ◌++◌, Bool, true, false, not, ◌&&◌, ◌||◌, ◌==◌, ltb,
  leb, if◌then◌else◌, length, get_or,
}
use levos.Prelude.Int.{ℤ, pos, neg}
use levos.Prelude.Errno.{enomem}
use levos.Drivers.Ports.{Ports}
use levos.Arch.Tables.{Idt, irq_set}
use levos.Kernel.Log.{device_register}
use levos.Prelude.Outcome.{Outcome, ok, fault, ◌>>=◌}
use levos.Drivers.KeyCode.{
  value, scancode_std, key_lctrl, key_rctrl, key_lshift, key_rshift, key_lalt, key_ralt,
  key_capslock,
}

pub record Keyboard : Type 0 where
  pub shift : Bool
  pub alt : Bool
  pub ctrl : Bool
  pub capslock : Bool
  pub extended : Bool
  pub keybuf : List ℕ

-- What the two `switch`es of `parse_keycode` tell apart.
pub data Role : Type 0 where
  is_ctrl is_shift is_alt is_capslock is_plain : Role

unfoldable pub role : ℕ → Role
role key =
    if key == value key_lctrl || key == value key_rctrl
    then is_ctrl
    else if key == value key_lshift || key == value key_rshift
    then is_shift
    else if key == value key_lalt || key == value key_ralt
    then is_alt
    else if key == value key_capslock
    then is_capslock
    else is_plain

release : Role → Keyboard → Keyboard
release is_ctrl kb = record kb { ctrl = false }
release is_shift kb = record kb { shift = false }
release is_alt kb = record kb { alt = false }
release is_capslock kb = kb
release is_plain kb = kb

-- The key that is returned is cut to a byte.
press : Role → ℕ → Keyboard → ℕ × Keyboard
press is_ctrl key kb = (0, record kb { ctrl = true })
press is_shift key kb = (0, record kb { shift = true })
press is_alt key kb = (0, record kb { alt = true })
press is_capslock key kb = (0, record kb { capslock = not kb.capslock })
press is_plain key kb = (key % 256, kb)

-- A scancode behind the table is read behind it.
key_of : ℕ → Outcome ℕ
key_of code = if ltb code (length scancode_std) then ok (get_or scancode_std code 0) else fault

unfoldable pub parse_keycode : ℕ → Keyboard → Outcome (ℕ × Keyboard)
unfolding release press key_of
parse_keycode code kb =
    if code == 0xE0 || code == 0xE1
    then ok (0, record kb { extended = true })
    else if leb 0x80 code
    then key_of (code - 0x80)
      >>= (λ key. ok (0, release (role key) (record kb { extended = false })))
    else key_of code >>= (λ key. ok (press (role key) key (record kb { extended = false })))

-- The characters that stand above the digits, and above the other keys.
shifted_digit : ℕ → ℕ
shifted_digit key =
    if key == 0x30
    then 0x29
    else if key == 0x31
    then 0x21
    else if key == 0x32
    then 0x40
    else if key == 0x33
    then 0x21
    else if key == 0x34
    then 0x23
    else if key == 0x35
    then 0x25
    else if key == 0x36
    then 0x5e
    else if key == 0x37
    then 0x26
    else if key == 0x38
    then 0x2a
    else if key == 0x39
    then 0x28
    else key

shifted_sign : ℕ → ℕ
shifted_sign key =
    if key == 0x2c
    then 0x3c
    else if key == 0x2e
    then 0x3e
    else if key == 0x2f
    then 0x3f
    else if key == 0x3b
    then 0x3a
    else if key == 0x27
    then 0x22
    else if key == 0x5b
    then 0x7b
    else if key == 0x5d
    then 0x7d
    else if key == 0x60
    then 0x7e
    else if key == 0x2d
    then 0x5f
    else if key == 0x2b
    then 0x3d
    else if key == 0x5c
    then 0x7c
    else key

upper : ℕ → ℕ
upper key = if leb b'a' key && leb key b'z' then key - 32 else key

unfoldable pub keyboard_to_ascii : ℕ → Keyboard → ℕ
unfolding shifted_digit shifted_sign upper
keyboard_to_ascii key kb =
    let letter = if kb.shift || kb.capslock then upper key else key in
    if key == 0
    then 0
    else if kb.shift && not kb.capslock
    then (if leb b'0' letter && leb letter b'9' then shifted_digit letter else shifted_sign letter)
    else letter

-- The end of the interrupt handler: a character other than 0 is entered.
enter_key : ℕ → Keyboard → Outcome Keyboard
enter_key c kb =
    if c == 0
    then ok kb
    else if leb 256 (length kb.keybuf)
    then fault
    else ok (record kb { keybuf = kb.keybuf ++ (c ∷ []) })

unfoldable pub kbd_irq : ℕ → Keyboard → Outcome Keyboard
unfolding enter_key
kbd_irq code kb = parse_keycode code kb >>= λ (key, kb'). enter_key (keyboard_to_ascii key kb') kb'

-- The first character, and the others move down.
first_key : List ℕ → Keyboard → ℕ × Keyboard
first_key [] kb = (0, kb)
first_key (c ∷ rest) kb = (c, record kb { keybuf = rest })

unfoldable pub keyboard_get_key : Keyboard → ℕ × Keyboard
unfolding first_key
keyboard_get_key kb = first_key kb.keybuf kb

-- The loop of `kbd_read`: the bytes that it stores.
take_keys : ℕ → Keyboard → List ℕ × Keyboard
take_keys zero kb = ([], kb)
take_keys (suc rounds) kb =
    let (c, kb') = keyboard_get_key kb in let (rest, end) = take_keys rounds kb' in (c ∷ rest, end)

-- The result, the bytes that are stored, and the keyboard. `keys_avail` is a byte, and so falls to 0 when
-- the buffer is full.
unfoldable pub kbd_read : ℕ → Keyboard → ℤ × List ℕ × Keyboard
unfolding take_keys
kbd_read len kb =
    let keys_avail = length kb.keybuf % 256 in
    let to_read = if ltb keys_avail len then keys_avail else len in
    let (bytes, kb') = take_keys to_read kb in (pos to_read, bytes, kb')

-- `keyboard_read_key`: the status of the port 0x64, and the byte that waits at 0x60.
unfoldable pub keyboard_read_key : {D : Type 0} → Ports D → D → ℕ × D
keyboard_read_key hw d =
    let (status, d') = hw.inportb 0x64 d in if status % 2 == 1 then hw.inportb 0x60 d' else (0, d')

-- `keyboard_init`, for whether `kmalloc` has room, the address of `kbd_irq` and the device: the result, the
-- table of interrupts and the devices.
unfoldable pub keyboard_init : Bool → ℕ → ℕ → Idt → List ℕ → ℤ × Idt × List ℕ
keyboard_init room handler dev idt devs =
    if not room
    then (neg enomem, idt, devs)
    else (pos 0, irq_set 33 handler idt, (device_register (pos dev) devs).1)
