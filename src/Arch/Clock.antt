-- ===== src/Arch/Clock.antt =====
-- arch/x86/pit.c: the timer, over the ports of the machine. The line that pit_init prints is in Arch.Init.
use levos.Prelude.{ℕ, ◌+◌, ◌/◌, ◌%◌, ◌^◌, bit_and, bit_or, ◌==◌, if◌then◌else◌}
use levos.Prelude.Int.{ℤ, pos}
use levos.Prelude.Outcome.{Outcome, ok, fault, ◌>>=◌}
use levos.Arch.Tables.{Idt, irq_set}
use levos.Drivers.Ports.{Ports}

-- The body of `pit_irq`, with what `sched_schedule` makes of the rest of the state; the ticks wrap in 32 bits.
unfoldable pub pit_irq : {S : Type 0} → (S → Outcome S) → ℕ × S → Outcome (ℕ × S)
pit_irq sched_schedule (pit_ticks, s) = sched_schedule s >>= λ s'. ok ((pit_ticks + 1) % 2 ^ 32, s')

-- The port of a counter.
unfoldable pub counter_port : ℕ → ℕ
counter_port counter = if counter == 0 then 0x40 else if counter == 0x40 then 0x41 else 0x42

-- The control word, from a byte of 0; 0xF1, 0xCF and 0x3F are the masks `~PIT_OCW_MASK_MODE`,
-- `~PIT_OCW_MASK_RL` and `~PIT_OCW_MASK_COUNTER` of a byte.
unfoldable pub control_word : ℕ → ℕ → ℕ
control_word counter mode =
    let ocw1 = bit_or (bit_and 0 0xF1) mode in
    let ocw2 = bit_or (bit_and ocw1 0xCF) 0x30 in bit_or (bit_and ocw2 0x3F) counter

-- `divisor`, of a frequency whose low 16 bits are not 0.
unfoldable pub divisor_of : ℕ → ℕ
divisor_of freq = 1193181 / (freq % 2 ^ 16) % 2 ^ 16

module _ {D : Type 0} (hw : Ports D) where
  unfoldable pub pit_send_cmd : ℕ → D → D
  pit_send_cmd cmd d = hw.outportb 0x43 cmd d

  unfoldable pub pit_send_data : ℕ → ℕ → D → D
  pit_send_data value counter d = hw.outportb (counter_port counter) (value % 256) d

  unfoldable pub pit_read_data : ℕ → D → ℕ × D
  pit_read_data counter d = hw.inportb (counter_port counter) d

  -- A frequency whose low 16 bits are 0 is a division by 0.
  unfoldable pub pit_start_counter : ℕ → ℕ → ℕ → D → Outcome D
  pit_start_counter freq counter mode d =
      if freq == 0
      then ok d
      else if freq % 2 ^ 16 == 0
      then fault
      else (let divisor = divisor_of freq in
          let d' = pit_send_data (divisor % 256) 0 (pit_send_cmd (control_word counter mode) d) in
          ok (pit_send_data (divisor / 2 ^ 8 % 256) 0 d'))

  -- `pit_init`, for the address of `pit_irq`.
  unfoldable pub pit_init : ℕ → Idt → D → Outcome (ℤ × Idt × D)
  pit_init handler idt d =
      pit_start_counter 200 0 0x6 d >>= λ d'. ok (pos 0, irq_set 32 handler idt, d')
