-- ===== src/Arch/Serial.antt =====
-- arch/x86/serial.c: the serial port, over the ports of the machine. `d` is the state of the hardware, and
-- `fuel` bounds each loop that waits for a status.
pub mod Line
use levos.Prelude.{ℕ, zero, suc, ◌+◌, List, [], ◌∷◌, bit_and, ◌==◌, if◌then◌else◌, length}
use levos.Prelude.Int.{ℤ, pos}
use levos.Prelude.Outcome.{Outcome, ok, hang, ◌>>=◌}
use levos.Kernel.Log.{device_register, console_register}
use levos.Drivers.Ports.{Ports}
use levos.Drivers.Tty.Table.{Ttys, tty_set_default_input}

abbrev pub serial_port : ℕ
serial_port = 0x3F8

module _ {D : Type 0} (hw : Ports D) where
  unfoldable pub serial_out : ℕ → ℕ → D → D
  serial_out o v d = hw.outportb (serial_port + o) v d

  unfoldable pub serial_is_ready_to_send : D → ℕ × D
  serial_is_ready_to_send d =
      let (status, d') = hw.inportb (serial_port + 5) d in (bit_and status 0x20, d')

  unfoldable pub serial_has_recv : D → ℕ × D
  serial_has_recv d = let (status, d') = hw.inportb (serial_port + 5) d in (bit_and status 0x01, d')

  unfoldable pub serial_out_data : ℕ → ℕ → D → Outcome D
  serial_out_data zero v d = hang
  serial_out_data (suc fuel) v d =
      let (ready, d') = serial_is_ready_to_send d in
      let again = serial_out_data fuel v d' in if ready == 0 then again else ok (serial_out 0 v d')

  unfoldable pub serial_read_data : ℕ → D → Outcome (ℕ × D)
  serial_read_data zero d = hang
  serial_read_data (suc fuel) d =
      let (ready, d') = serial_has_recv d in
      let again = serial_read_data fuel d' in
      if ready == 0 then again else ok (hw.inportb (serial_port + 0) d')

  unfoldable pub serial_try_read_data : D → ℕ × D
  serial_try_read_data d =
      let (ready, d') = serial_has_recv d in
      if ready == 0 then (0, d') else hw.inportb (serial_port + 0) d'

  -- The loop of `serial_write`, which returns how often it ran.
  unfoldable pub send_all : ℕ → List ℕ → D → Outcome D
  send_all fuel [] d = ok d
  send_all fuel (c ∷ buf) d = serial_out_data fuel c d >>= send_all fuel buf

  unfoldable pub serial_write : ℕ → List ℕ → D → Outcome (ℤ × D)
  serial_write fuel buf d = send_all fuel buf d >>= λ d'. ok (pos (length buf), d')

  -- The loop of `serial_read`, with `count` rounds left: the bytes that it stores.
  unfoldable pub receive : ℕ → D → List ℕ × D
  receive zero d = ([], d)
  receive (suc count) d =
      let (val, d') = serial_try_read_data d in
      let (rest, d'') = receive count d' in if val == 0 then ([], d') else (val ∷ rest, d'')

  unfoldable pub serial_read : ℕ → D → ℤ × List ℕ × D
  serial_read count d = let (got, d') = receive count d in (pos (length got), got, d')

  -- `x86_serial_init`, for its device and its console: the hardware, the terminals with the device as
  -- their default input, and the list of consoles.
  unfoldable pub x86_serial_init : ℕ → ℕ → Ttys → List ℕ → D → D × Ttys × List ℕ
  x86_serial_init serial_dev serial_con st cons d =
      let d1 = serial_out 3 0x80 (serial_out 1 0x00 d) in
      let d2 = serial_out 1 0x00 (serial_out 0 0x03 d1) in
      let d3 = serial_out 4 0x0B (serial_out 2 0xC7 (serial_out 3 0x03 d2)) in
      let st' = tty_set_default_input serial_dev st in
      (
        d3,
        record st' { devices = (device_register (pos serial_dev) st'.devices).1 },
        (console_register serial_con cons).1,
      )
