-- ===== src/Arch/Serial/Line.antt =====
-- arch/x86/serial.c on a line that takes what is sent, as the data sheet of the 16550 describes it. The
-- hardware is not part of the repository.
use levos.Prelude.{
  ℕ, zero, suc, ◌<◌, ◌≤◌, ◌≡◌, ◌≢◌, refl, sym, ap, ◌∙◌, arith, List, [], ◌∷◌, ◌++◌, false, bit_and,
  ◌==◌, length, append_assoc, append-nil,
}
use levos.Prelude.Int.{pos}
use levos.Prelude.Outcome.{ok}
use levos.Arch.Serial.{serial_out, serial_is_ready_to_send, serial_out_data, send_all, serial_write}
use levos.Drivers.Ports.{Ports}

-- `Busy w d`: the line can take a byte after at most `w` more reads of the status. `sent` are the bytes
-- that it has taken.
pub record UartLine {D : Type 0} (hw : Ports D) (latency : ℕ) : Type 1 where
  pub Busy : ℕ → D → Type 0
  pub sent : D → List ℕ
  pub wait :
      (w : ℕ) (d : D)
      → Busy (suc w) d
      → (bit_and (hw.inportb 0x3FD d).0 0x20 ≡ 0)
        × Busy w (hw.inportb 0x3FD d).1
        × (sent (hw.inportb 0x3FD d).1 ≡ sent d)
  pub ready :
      (d : D)
      → Busy 0 d
      → (bit_and (hw.inportb 0x3FD d).0 0x20 ≢ 0)
        × Busy 0 (hw.inportb 0x3FD d).1
        × (sent (hw.inportb 0x3FD d).1 ≡ sent d)
  pub take_byte :
      (v : ℕ) (d : D)
      → Busy 0 d
      → (w : ℕ) × (w ≤ latency)
        × Busy w (hw.outportb 0x3F8 v d)
        × (sent (hw.outportb 0x3F8 v d) ≡ sent d ++ (v ∷ []))

module _ {D : Type 0} (hw : Ports D) (latency : ℕ) (line : UartLine hw latency) where
  serial_out_data-sent :
      (fuel w v : ℕ) (d : D)
      → w < fuel
      → line.Busy w d
      → (d' : D) × (w' : ℕ) × (serial_out_data hw fuel v d ≡ ok d')
        × (w' ≤ latency)
        × line.Busy w' d'
        × (line.sent d' ≡ line.sent d ++ (v ∷ []))
  unfolding serial_out_data serial_is_ready_to_send serial_out
  serial_out_data-sent zero w v d few busy = absurd (omega arith)
  serial_out_data-sent (suc fuel) zero v d few busy =
      let (free, next, same) = line.ready d busy in
      let (w', soon, later, more) = line.take_byte v (hw.inportb 0x3FD d).1 next in
      let now : (bit_and (hw.inportb 0x3FD d).0 0x20 == 0) ≡ false = ground arith in
      (_, w', rw now refl, soon, later, rw same at more)
  serial_out_data-sent (suc fuel) (suc w) v d few busy =
      let (not_yet, next, same) = line.wait w d busy in
      let (d', w', run, soon, later, more) =
        serial_out_data-sent fuel w v (hw.inportb 0x3FD d).1 (omega arith) next in
      (d', w', rw not_yet run, soon, later, rw same at more)

  send_all-sent :
      (fuel w : ℕ) (buf : List ℕ) (d : D)
      → latency < fuel
      → w ≤ latency
      → line.Busy w d
      → (d' : D) × (send_all hw fuel buf d ≡ ok d') × (line.sent d' ≡ line.sent d ++ buf)
  unfolding send_all
  send_all-sent fuel w [] d enough soon busy = (d, refl, sym (append-nil (line.sent d)))
  send_all-sent fuel w (c ∷ buf) d enough soon busy =
      let (d', w', run, soon', busy', one) = serial_out_data-sent fuel w c d (omega arith) busy in
      let (d'', runs, rest) = send_all-sent fuel w' buf d' enough soon' busy' in
      (d'', rw run runs, rest ∙ ap (λ l. l ++ buf) one ∙ append_assoc (line.sent d) (c ∷ []) buf)

  -- On such a line, with fuel for its latency, serial_write ends: it returns the count, and the line has
  -- taken all the bytes of the buffer in their order.
  pub serial_write-sent :
      (fuel w : ℕ) (buf : List ℕ) (d : D)
      → latency < fuel
      → w ≤ latency
      → line.Busy w d
      → (d' : D) × (serial_write hw fuel buf d ≡ ok (pos (length buf), d'))
        × (line.sent d' ≡ line.sent d ++ buf)
  unfolding serial_write
  serial_write-sent fuel w buf d enough soon busy =
      let (d', run, all) = send_all-sent fuel w buf d enough soon busy in (d', rw run refl, all)
