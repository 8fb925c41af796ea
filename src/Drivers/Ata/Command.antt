-- ===== src/Drivers/Ata/Command.antt =====
-- drivers/ata.c: the wait for a disk of `PioDisk`, and the writes that ask it for a sector.
use levos.Prelude.{
  ℕ, zero, suc, ◌+◌, ◌/◌, ◌%◌, ◌^◌, ◌≤◌, ◌<◌, ◌≡◌, inl, inr, refl, arith, List, [], ◌∷◌, false,
  ◌==◌, if◌then◌else◌, Bool-cases, bit_and, bit_or,
}
use levos.Prelude.Bits.{bit_or-low}
use levos.Prelude.Outcome.{ok}
use levos.Drivers.Ports.{Ports}
use levos.Drivers.Ata.{ata_primary_io, poll_busy, poll_data, command_read}
use levos.Drivers.Ata.Disk.{PioDisk, lba_of}

module _ {D : Type 0} (hw : Ports D) (word : ℕ → ℕ → ℕ) (size latency : ℕ)
    (disk : PioDisk hw word size latency) where
  pub poll_busy-serving :
      (fuel n w : ℕ) (d : D)
      → w < fuel
      → disk.Serving n 0 w d
      → (d' : D) × (w' : ℕ) × (poll_busy hw fuel ata_primary_io d ≡ ok d')
        × (w' ≤ w)
        × disk.Serving n 0 w' d'
  unfolding poll_busy
  poll_busy-serving zero n w d few serving = absurd (omega arith)
  poll_busy-serving (suc fuel) n zero d few serving =
      let (idle, _, _, next) = disk.ready n d serving in (_, 0, rw idle refl, omega arith, next)
  poll_busy-serving (suc fuel) n (suc w) d few serving =
      let (_, _, next) = disk.wait n w d serving in
      let status = (hw.inportb 0x1F7 d).0 in
      let (d', w', run, fewer, there) =
        poll_busy-serving fuel n w (hw.inportb 0x1F7 d).1 (omega arith) next in
      elim (Bool-cases (bit_and status 0x80 == 0)) [
        | inl free ↦ ((hw.inportb 0x1F7 d).1, w, rw free refl, omega arith, next)
        | inr busy ↦ (d', w', rw busy run, omega arith, there)
      ]

  pub poll_data-serving :
      (fuel n w : ℕ) (d : D)
      → w < fuel
      → disk.Serving n 0 w d
      → (d' : D) × (poll_data hw fuel ata_primary_io d ≡ ok d') × disk.Serving n 0 0 d'
  unfolding poll_data
  poll_data-serving zero n w d few serving = absurd (omega arith)
  poll_data-serving (suc fuel) n zero d few serving =
      let (_, fine, some_data, next) = disk.ready n d serving in
      let there : (bit_and (hw.inportb 0x1F7 d).0 0x08 == 0) ≡ false = ground arith in
      ((hw.inportb 0x1F7 d).1, rw (fine, there) refl, next)
  poll_data-serving (suc fuel) n (suc w) d few serving =
      let (fine, none_yet, next) = disk.wait n w d serving in
      let (d', run, there) = poll_data-serving fuel n w (hw.inportb 0x1F7 d).1 (omega arith) next in
      (d', rw (fine, none_yet) run, there)

  -- Writes to registers, the first one first, and what the last one of them to a register left.
  after : List (ℕ × ℕ) → D → D
  after [] d = d
  after ((p, v) ∷ ws) d = after ws (hw.outportb (0x1F0 + p) v d)

  latest : ℕ → List (ℕ × ℕ) → ℕ → ℕ
  latest q [] x = x
  latest q ((p, v) ∷ ws) x = latest q ws (if p == q then v else x)

  AreRegisters : List (ℕ × ℕ) → Type 0
  AreRegisters [] = Unit
  AreRegisters ((p, v) ∷ ws) = (1 ≤ p) × (p ≤ 6) × AreRegisters ws

  after-latest :
      (ws : List (ℕ × ℕ)) (d : D)
      → AreRegisters ws
      → disk.Idle d
      → disk.Idle (after ws d) × ((q : ℕ) → disk.reg (after ws d) q ≡ latest q ws (disk.reg d q))
  unfolding after latest AreRegisters
  after-latest [] d h idle = (idle, λ q. refl)
  after-latest ((p, v) ∷ ws) d (low, high, h) idle =
      let (still, regs) =
        after-latest ws (hw.outportb (0x1F0 + p) v d) h (disk.latch_idle d p v idle low high) in
      (still, λ q. rw (disk.latch d p v q idle low high) at (regs q))

  ask :
      (lba : ℕ) (d : D)
      → disk.Idle d
      → disk.reg d 2 ≡ 1
      → disk.reg d 6 / 16 ≡ 14
      → lba_of (disk.reg d) ≡ lba
      → lba < size
      → (w : ℕ) × (w ≤ latency) × disk.Serving lba 0 w (hw.outportb 0x1F7 0x20 d)
  ask lba d idle one mode same inside =
      let (w, soon, serving) = disk.start d idle one mode (rw same inside) in
      (w, soon, rw same at serving)

  -- The seven writes ask for the sector, as far as 28 bits reach.
  pub command_read-serving :
      (lba : ℕ) (d : D)
      → lba < size
      → lba < 2 ^ 28
      → disk.Idle d
      → (w : ℕ) × (w ≤ latency) × disk.Serving lba 0 w (command_read hw ata_primary_io lba d)
  unfolding command_read after latest AreRegisters
  command_read-serving lba d inside small idle =
      let high = lba / 2 ^ 24 % 16 in
      let ws : List (ℕ × ℕ) =
        (6, bit_or high 0xE0)
        ∷ (1, 0x00)
        ∷ (2, 1)
        ∷ (3, lba % 256)
        ∷ (4, lba / 2 ^ 8 % 256)
        ∷ (5, lba / 2 ^ 16 % 256)
        ∷ [] in
      let (still, regs) = after-latest ws d (omega arith) idle in
      let top : bit_or high 0xE0 ≡ high + 0xE0 = bit_or-low high 14 (omega arith) in
      let mode : disk.reg (after ws d) 6 / 16 ≡ 14 = omega (arith, regs 6, top) in
      let same : lba_of (disk.reg (after ws d)) ≡ lba =
        omega (arith, regs 3, regs 4, regs 5, regs 6, top) in
      ask lba (after ws d) still (regs 2) mode same inside
