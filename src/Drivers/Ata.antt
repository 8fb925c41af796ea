-- ===== src/Drivers/Ata.antt =====
-- drivers/ata.c: the disk driver, over the ports of the machine. `d` is the state of the hardware, and a
-- buffer is memory, a function from addresses to bytes. `fuel` bounds each loop that waits for a status.
pub mod Disk
pub mod Command
pub mod Transfer
use levos.Prelude.{
  ℕ, zero, suc, ◌+◌, ◌*◌, ◌/◌, ◌%◌, ◌^◌, Bool, false, not, bit_and, bit_or, ◌==◌, if◌then◌else◌,
  put_word,
}
use levos.Prelude.Int.{ℤ, pos, neg}
use levos.Prelude.Errno.{enosys, enomem}
use levos.Prelude.Outcome.{Outcome, ok, panic, hang, ◌>>=◌}
use levos.Arch.Tables.{Idt, irq_set}
use levos.Drivers.Ports.{Ports}

abbrev pub ata_primary_io : ℕ
ata_primary_io = 0x1F0

module _ {D : Type 0} (hw : Ports D) where
  unfoldable pub ide_select_drive : ℕ → ℕ → D → D
  ide_select_drive bus i d =
      let io = if bus == 0x00 then ata_primary_io else 0x170 in
      hw.outportb (io + 0x06) (if i == 0x00 then 0xA0 else 0xB0) d

  unfoldable pub read_altstatus : ℕ → ℕ → D → D
  read_altstatus zero io d = d
  read_altstatus (suc rounds) io d = read_altstatus rounds io (hw.inportb (io + 0x0C) d).1

  unfoldable pub ide_400ns_delay : ℕ → D → D
  ide_400ns_delay io d = read_altstatus 4 io d

  -- The jumps to `retry`, while the device is busy.
  unfoldable pub poll_busy : ℕ → ℕ → D → Outcome D
  poll_busy zero io d = hang
  poll_busy (suc fuel) io d =
      let (status, d') = hw.inportb (io + 0x07) d in
      let again = poll_busy fuel io d' in if bit_and status 0x80 == 0 then ok d' else again

  -- The jumps to `retry2`, until data is there.
  unfoldable pub poll_data : ℕ → ℕ → D → Outcome D
  poll_data zero io d = hang
  poll_data (suc fuel) io d =
      let (status, d') = hw.inportb (io + 0x07) d in
      let again = poll_data fuel io d' in
      if bit_and status 0x01 == 0
      then (if bit_and status 0x08 == 0 then again else ok d')
      else panic

  unfoldable pub ide_poll : ℕ → ℕ → D → Outcome D
  ide_poll fuel io d = poll_busy fuel io (ide_400ns_delay io d) >>= poll_data fuel io

  -- The loop over `i` that takes the words of a sector, with `rounds` left.
  unfoldable pub read_words : ℕ → ℕ → ℕ → ℕ → D → (ℕ → ℕ) → D × (ℕ → ℕ)
  read_words zero i io buf d m = (d, m)
  read_words (suc rounds) i io buf d m =
      let (w, d') = hw.inportw (io + 0x00) d in
      read_words rounds (i + 1) io buf d' (put_word (buf + i * 2) w m)

  -- The seven writes that ask for one sector.
  unfoldable pub command_read : ℕ → ℕ → D → D
  command_read io lba d =
      let d1 = hw.outportb (io + 0x06) (bit_or (lba / 2 ^ 24 % 16) 0xE0) d in
      let d2 = hw.outportb (io + 1) 0x00 d1 in
      let d3 = hw.outportb (io + 0x02) 1 d2 in
      let d4 = hw.outportb (io + 0x03) (lba % 256) d3 in
      let d5 = hw.outportb (io + 0x04) (lba / 2 ^ 8 % 256) d4 in
      let d6 = hw.outportb (io + 0x05) (lba / 2 ^ 16 % 256) d5 in hw.outportb (io + 0x07) 0x20 d6

  unfoldable pub take_sector : ℕ → ℕ → (ℕ → ℕ) → D → Outcome (D × (ℕ → ℕ))
  take_sector io buf m d =
      let (d', m') = read_words 256 0 io buf d m in ok (ide_400ns_delay io d', m')

  unfoldable pub ata_read_one : ℕ → ℕ → ℕ → D × (ℕ → ℕ) → Outcome (D × (ℕ → ℕ))
  ata_read_one fuel buf lba (d, m) =
      ide_poll fuel ata_primary_io (command_read ata_primary_io lba d)
      >>= take_sector ata_primary_io buf m

  -- The loop over `i` of `ata_read`, with `rounds` left.
  unfoldable pub read_sectors : ℕ → ℕ → ℕ → ℕ → ℕ → D × (ℕ → ℕ) → Outcome (D × (ℕ → ℕ))
  read_sectors fuel zero i buf at (d, m) = ok (d, m)
  read_sectors fuel (suc rounds) i buf at (d, m) =
      ata_read_one fuel buf (at + i) (d, m) >>= read_sectors fuel rounds (i + 1) (buf + 512) at

  -- `dev` is not read. The result is `count`.
  unfoldable pub ata_read : ℕ → ℕ → ℕ → ℕ → D × (ℕ → ℕ) → Outcome (ℤ × D × (ℕ → ℕ))
  ata_read fuel buf count at (d, m) =
      read_sectors fuel count 0 buf at (d, m) >>= λ (d', m'). ok (pos count, d', m')

  -- What `ide_identify` finds: the result, whether the device `sda` is registered, and the hardware.
  -- `room` and `room'` say whether the two calls of `kmalloc` succeed; the words that are read are freed.
  identify_words : ℕ → ℕ → D → D
  identify_words zero io d = d
  identify_words (suc rounds) io d = identify_words rounds io (hw.inportw (io + 0x00) d).1

  identify_command : ℕ → D → D
  identify_command io d =
      let d1 = hw.outportb (ata_primary_io + 0x06) 0xA0 d in
      let d2 = hw.outportb (io + 0x02) 0 d1 in
      let d3 = hw.outportb (io + 0x03) 0 d2 in
      let d4 = hw.outportb (io + 0x04) 0 d3 in
      let d5 = hw.outportb (io + 0x05) 0 d4 in hw.outportb (io + 0x07) 0xEC d5

  unfoldable pub ide_identify : Bool → Bool → D → ℤ × Bool × D
  unfolding identify_words identify_command
  ide_identify room room' d =
      let io : ℕ = 0x1F0 in
      let (status, d') = hw.inportb (io + 0x07) (identify_command io d) in
      if status == 0
      then (pos 0, false, d')
      else if not room
      then (neg enomem, false, d')
      else (if room' then pos 1 else neg enomem, room', identify_words 256 io d')

  -- Whether `sda` is registered afterwards, and the result, which is 0 in either case.
  unfoldable pub ata_probe : Bool → Bool → D → ℤ × Bool × D
  unfolding ide_identify
  ata_probe room room' d = let (found, sda, d') = ide_identify room room' d in (pos 0, sda, d')

  -- `ata_init`, for the address of `ide_prim_irq`: the result, whether `sda` is registered, the table of
  -- interrupts and the hardware.
  unfoldable pub ata_init : Bool → Bool → ℕ → Idt → D → ℤ × Bool × Idt × D
  ata_init room room' handler idt d =
      let (rc, sda, d') = ata_probe room room' d in (rc, sda, irq_set (0x20 + 14) handler idt, d')

unfoldable pub ata_write : ℕ → ℕ → ℤ
ata_write c p = neg enosys

unfoldable pub ata_sync : ℤ
ata_sync = neg enosys
