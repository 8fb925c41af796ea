-- ===== src/Drivers/Tty/Table/Setup.antt =====
-- drivers/tty.c: what `tty_init` and `tty_override_all_defaults` leave in the table.
use levos.Prelude.{
  ℕ, zero, suc, ◌+◌, ◌≤◌, ◌<◌, ◌≡◌, ◌≢◌, refl, arith, List, [], ◌∷◌, ◌++◌, some, true, false, ◌==◌,
  leb, length, append_assoc, append-nil, length-append, ◌∙◌,
}
use levos.Prelude.Int.{pos}
use levos.Prelude.Outcome.{ok}
use levos.Kernel.Log.{device_register, max_devices}
use levos.Drivers.Tty.Table.{
  printk_switch_tty, change_tty, tty_set_buffered, tty_count, Terminal, Ttys, nth_tty, get_tty,
  get_active_tty, tty_set_current, tty_set_input, tty_set_output, override_defaults,
  tty_override_all_defaults, tty_create_device, make_ttys, tty_init,
}

registered :
    (dev : ℕ) (devs : List ℕ)
    → dev ≢ 0
    → length devs < max_devices
    → (device_register (pos dev) devs).1 ≡ devs ++ (dev ∷ [])
unfolding device_register
registered dev devs ne room =
    let here : (dev == 0) ≡ false = ground arith in
    let low : leb max_devices (length devs) ≡ false = ground arith in rw (here, low) refl

first_three :
    (st : Ttys) (t0 t1 t2 t3 : Terminal) (i : ℕ)
    → i < 3
    → (t : Terminal) × (nth_tty i (override_defaults 3 st (t0 ∷ t1 ∷ t2 ∷ t3 ∷ [])) ≡ some t)
      × (t.input ≡ st.default_input)
      × (t.output ≡ st.default_output)
unfolding override_defaults nth_tty tty_set_output tty_set_input
first_three st t0 t1 t2 t3 zero h = (_, refl, refl, refl)
first_three st t0 t1 t2 t3 (suc zero) h = (_, refl, refl, refl)
first_three st t0 t1 t2 t3 (suc (suc zero)) h = (_, refl, refl, refl)
first_three st t0 t1 t2 t3 (suc (suc (suc i))) h = absurd (omega arith)

-- `tty_override_all_defaults` gives the default devices to the first three of the four terminals, and
-- leaves the last one as it is.
pub tty_override_all_defaults-but_last :
    (st : Ttys) (t0 t1 t2 t3 : Terminal)
    → st.ttys ≡ t0 ∷ t1 ∷ t2 ∷ t3 ∷ []
    → (get_tty (pos 3) (tty_override_all_defaults st) ≡ some t3)
      × ((i : ℕ)
          → i < 3
          → (t : Terminal) × (get_tty (pos i) (tty_override_all_defaults st) ≡ some t)
            × (t.input ≡ st.default_input)
            × (t.output ≡ st.default_output))
unfolding get_tty tty_override_all_defaults override_defaults nth_tty
tty_override_all_defaults-but_last st t0 t1 t2 t3 four = rw four (
  refl,
  λ i h.
      let low : leb tty_count i ≡ false = ground arith in rw low (first_three st t0 t1 t2 t3 i h),
)

-- A terminal as `tty_init` makes it.
abbrev pub made : (ℕ → ℕ) → Ttys → ℕ → Terminal
made new_device st i = record {
  tty_id = i;
  input = st.default_input;
  output = st.default_output;
  selfdevice = new_device i;
  name = b't' ∷ b't' ∷ b'y' ∷ (b'0' + i) ∷ [];
  buffered = true;
}

-- What a function gives for `n` numbers from `i` on.
abbrev pub from {ℓ} : {A : Type ℓ} → (ℕ → A) → ℕ → ℕ → List A
from f zero i = []
from f (suc n) i = f i ∷ from f n (i + 1)

make_ttys-made :
    (new_device : ℕ → ℕ) (rounds i : ℕ) (st : Ttys)
    → ((k : ℕ) → new_device k ≢ 0)
    → length st.devices + rounds ≤ max_devices
    → (make_ttys new_device rounds i st ≡ record st {
      ttys = st.ttys ++ from (made new_device st) rounds i;
      devices = st.devices ++ from new_device rounds i;
    })
unfolding make_ttys tty_create_device
make_ttys-made new_device zero i st fresh room = rw (append-nil st.ttys, append-nil st.devices) refl
make_ttys-made new_device (suc rounds) i st fresh room =
    let dev = registered (new_device i) st.devices (fresh i) (omega arith) in
    let st' : Ttys = record st {
      ttys = st.ttys ++ (made new_device st i ∷ []);
      devices = st.devices ++ (new_device i ∷ []);
    } in
    let longer = length-append st.devices (new_device i ∷ []) in
    rw dev (
      make_ttys-made new_device rounds (i + 1) st' fresh (omega (arith, longer))
      ∙ rw
          (
            append_assoc st.ttys (made new_device st i ∷ [])
                (from (made new_device st) rounds (i + 1)),
            append_assoc st.devices (new_device i ∷ []) (from new_device rounds (i + 1)),
          )
          refl)

-- The first terminal, which `printk` writes to.
abbrev pub made_first : (ℕ → ℕ) → ℕ → ℕ → Ttys → Terminal
made_first new_device console_dev keyboard_dev st = record (made new_device st 0) {
  input = keyboard_dev;
  output = console_dev;
  buffered = false;
}

-- The table after `tty_init`.
set_up :
    (new_device : ℕ → ℕ) (console_dev keyboard_dev : ℕ) (st : Ttys)
    → ((k : ℕ) → new_device k ≢ 0)
    → st.ttys ≡ []
    → length st.devices + 4 ≤ max_devices
    → tty_init new_device console_dev keyboard_dev st ≡ record st {
      ttys = made_first new_device console_dev keyboard_dev st ∷ from (made new_device st) 3 1;
      active_tty = pos 0;
      devices = st.devices ++ from new_device 4 0;
    }
unfolding tty_init printk_switch_tty change_tty tty_set_current tty_override_all_defaults
    override_defaults tty_set_output tty_set_input tty_set_buffered
set_up new_device console_dev keyboard_dev st fresh empty room =
    rw (make_ttys-made new_device tty_count 0 st fresh room, empty) refl

nth_made :
    (new_device : ℕ → ℕ) (st : Ttys) (t : Terminal) (i : ℕ)
    → 1 ≤ i
    → i < 4
    → nth_tty i (t ∷ from (made new_device st) 3 1) ≡ some (made new_device st i)
unfolding nth_tty
nth_made new_device st t zero lo h = absurd (omega arith)
nth_made new_device st t (suc zero) lo h = refl
nth_made new_device st t (suc (suc zero)) lo h = refl
nth_made new_device st t (suc (suc (suc zero))) lo h = refl
nth_made new_device st t (suc (suc (suc (suc i)))) lo h = absurd (omega arith)

-- `tty_init` on a system without terminals, with room for four more devices: the terminals from 1 to 3
-- have the default devices and are buffered, terminal 0 has the console and the keyboard, is not
-- buffered, and is the active one. Each has its number and a device of its own, "tty0" to "tty3", and
-- these are registered in this order behind the others.
pub tty_init-get_tty :
    (new_device : ℕ → ℕ) (console_dev keyboard_dev : ℕ) (st : Ttys)
    → ((k : ℕ) → new_device k ≢ 0)
    → st.ttys ≡ []
    → length st.devices + 4 ≤ max_devices
    → let end = tty_init new_device console_dev keyboard_dev st in
      ((i : ℕ) → 1 ≤ i → i < 4 → get_tty (pos i) end ≡ some (made new_device st i))
      × (get_tty (pos 0) end ≡ some (made_first new_device console_dev keyboard_dev st))
      × (get_active_tty end ≡ ok (some (made_first new_device console_dev keyboard_dev st)))
      × (end.devices ≡ st.devices ++ from new_device 4 0)
unfolding get_tty get_active_tty nth_tty
tty_init-get_tty new_device console_dev keyboard_dev st fresh empty room =
    rw (set_up new_device console_dev keyboard_dev st fresh empty room) (
      λ i lo h.
          let low : leb tty_count i ≡ false = ground arith in
          rw low
            (nth_made new_device st (made_first new_device console_dev keyboard_dev st) i lo h),
      refl,
      refl,
      refl,
    )
