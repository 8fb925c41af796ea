-- ===== src/Drivers/Tty/Table.antt =====
-- drivers/tty.c: the table of the terminals, their devices and the defaults. A device that a terminal reads
-- from or writes to is a pointer, a number, and 0 is null. `kmalloc` is taken to succeed; `new_device i` is
-- the device that it gives for terminal `i`.
pub mod Setup
use levos.Prelude.{
  ℕ, zero, suc, ◌+◌, ◌-◌, ◌≤◌, ◌<◌, ◌≡◌, ◌≢◌, refl, ap, arith, List, [], ◌∷◌, ◌++◌, Option, none,
  some, Bool, true, false, ◌==◌, ltb, leb, if◌then◌else◌, length, get_or, set, append_assoc, ◌∙◌,
}
use levos.Prelude.Int.{ℤ, pos, negsuc}
use levos.Prelude.Outcome.{Outcome, ok, fault}
use levos.Kernel.Log.{device_register, max_devices}

abbrev pub tty_count : ℕ
tty_count = 4

-- The fields of `struct tty` beside its buffers, and the name of its device.
pub record Terminal : Type 0 where
  pub tty_id : ℕ
  pub input : ℕ
  pub output : ℕ
  pub selfdevice : ℕ
  pub name : List ℕ
  pub buffered : Bool

-- The terminals that exist, and the registered devices.
pub record Ttys : Type 0 where
  pub ttys : List Terminal
  pub active_tty : ℤ
  pub default_input : ℕ
  pub default_output : ℕ
  pub devices : List ℕ

unfoldable pub tty_set_default_output : ℕ → Ttys → Ttys
tty_set_default_output d st = record st { default_output = d }

unfoldable pub tty_set_default_input : ℕ → Ttys → Ttys
tty_set_default_input d st = record st { default_input = d }

unfoldable pub tty_set_current : ℤ → Ttys → Ttys
tty_set_current n st = record st { active_tty = n }

-- Entry `i` of the table, where 0 stands for none.
unfoldable pub nth_tty : ℕ → List Terminal → Option Terminal
nth_tty i [] = none
nth_tty zero (t ∷ ttys) = some t
nth_tty (suc i) (t ∷ ttys) = nth_tty i ttys

-- The number of the active terminal is not guarded.
unfoldable pub get_active_tty : Ttys → Outcome (Option Terminal)
get_active_tty st = elim st.active_tty [
  | negsuc n ↦ if n == 0 then ok none else fault
  | pos i ↦ if leb tty_count i then fault else ok (nth_tty i st.ttys)
]

unfoldable pub get_tty : ℤ → Ttys → Option Terminal
get_tty (negsuc n) st = none
get_tty (pos i) st = if leb tty_count i then none else nth_tty i st.ttys

-- The call of the output's `write` that a character leads to: the output, the device that it is given,
-- which is the terminal's own, and the bytes.
unfoldable pub write_tty_char : ℤ → ℕ → Ttys → Option (ℕ × ℕ × List ℕ)
write_tty_char id c st = elim (get_tty id st) [
  | none ↦ none
  | some t ↦ if t.output == 0 then none else some (t.output, t.selfdevice, c ∷ [])
]

unfoldable pub tty_set_input : ℕ → Terminal → Terminal
tty_set_input d t = record t { input = d }

unfoldable pub tty_set_output : ℕ → Terminal → Terminal
tty_set_output d t = record t { output = d }

unfoldable pub tty_set_buffered : Bool → Terminal → Terminal
tty_set_buffered buf t = record t { buffered = buf }

-- The loop `for_each_tty` with its body, `rounds` times.
unfoldable pub override_defaults : ℕ → Ttys → List Terminal → List Terminal
override_defaults zero st ttys = ttys
override_defaults (suc rounds) st [] = []
override_defaults (suc rounds) st (t ∷ ttys) =
    tty_set_output st.default_output (tty_set_input st.default_input t)
    ∷ override_defaults rounds st ttys

unfoldable pub tty_override_all_defaults : Ttys → Ttys
tty_override_all_defaults st = record st { ttys = override_defaults (tty_count - 1) st st.ttys }

-- The name is "tty0" with `tty_id` added to its last character.
unfoldable pub tty_create_device : (ℕ → ℕ) → Terminal → Terminal
tty_create_device new_device t =
    if t.selfdevice == 0
    then record t {
      selfdevice = new_device t.tty_id;
      name = b't' ∷ b't' ∷ b'y' ∷ (b'0' + t.tty_id) ∷ [];
    }
    else t

-- The loop of `tty_init`, with `rounds` left.
unfoldable pub make_ttys : (ℕ → ℕ) → ℕ → ℕ → Ttys → Ttys
make_ttys new_device zero i st = st
make_ttys new_device (suc rounds) i st =
    let t = tty_create_device new_device (record {
      tty_id = i;
      input = st.default_input;
      output = st.default_output;
      selfdevice = 0;
      name = [];
      buffered = true;
    }) in
    make_ttys new_device rounds (i + 1) (record st {
      ttys = st.ttys ++ (t ∷ []);
      devices = (device_register (pos t.selfdevice) st.devices).1;
    })

-- Entry `i` of the table, changed by `f`.
unfoldable pub change_tty : ℕ → (Terminal → Terminal) → List Terminal → List Terminal
change_tty i f [] = []
change_tty zero f (t ∷ ttys) = f t ∷ ttys
change_tty (suc i) f (t ∷ ttys) = t ∷ change_tty i f ttys

-- `printk_switch_tty` of kernel/printk.c for a terminal that is there: from then on `printk` writes to it.
unfoldable pub printk_switch_tty : ℕ → ℕ → ℕ → Ttys → Ttys
printk_switch_tty console_dev keyboard_dev ctty st = record st {
  ttys =
      change_tty ctty
        (λ t. tty_set_buffered false (tty_set_input keyboard_dev (tty_set_output console_dev t)))
        st.ttys;
}

unfoldable pub tty_init : (ℕ → ℕ) → ℕ → ℕ → Ttys → Ttys
tty_init new_device console_dev keyboard_dev st =
    printk_switch_tty console_dev keyboard_dev 0
      (tty_override_all_defaults (tty_set_current (pos 0) (make_ttys new_device tty_count 0 st)))
