-- ===== src/Drivers/Ata/Disk.antt =====
-- What drivers/ata.c relies on: the disk behind the ports 0x1F0 to 0x1F7, as the ATA standard describes
-- reads by programmed input. The hardware is not part of the repository.
use levos.Prelude.{ℕ, suc, ◌+◌, ◌*◌, ◌/◌, ◌%◌, ◌^◌, ◌≤◌, ◌<◌, ◌≡◌, ◌≢◌, bit_and, update}
use levos.Drivers.Ports.{Ports}

-- The number of the sector that the registers 3 to 6 ask for.
abbrev pub lba_of : (ℕ → ℕ) → ℕ
lba_of reg = reg 3 + reg 4 * 2 ^ 8 + reg 5 * 2 ^ 16 + reg 6 % 16 * 2 ^ 24

-- `word n k` is word `k` of sector `n` of a disk of `size` sectors. `reg` are the registers, `Idle` says
-- that no command is under way, and `Serving n k w` that word `k` of sector `n` is next, after at most
-- `w` more reads of the status.
pub record PioDisk {D : Type 0} (hw : Ports D) (word : ℕ → ℕ → ℕ) (size latency : ℕ) : Type 1 where
  pub reg : D → ℕ → ℕ
  pub Idle : D → Type 0
  pub Serving : ℕ → ℕ → ℕ → D → Type 0
  pub latch :
      (d : D) (p v q : ℕ)
      → Idle d
      → 1 ≤ p
      → p ≤ 6
      → reg (hw.outportb (0x1F0 + p) v d) q ≡ update (reg d) p v q
  pub latch_idle : (d : D) (p v : ℕ) → Idle d → 1 ≤ p → p ≤ 6 → Idle (hw.outportb (0x1F0 + p) v d)
  -- The command 0x20 with a count of 1 and addressing by sectors.
  pub start :
      (d : D)
      → Idle d
      → reg d 2 ≡ 1
      → reg d 6 / 16 ≡ 14
      → lba_of (reg d) < size
      → (w : ℕ) × (w ≤ latency) × Serving (lba_of (reg d)) 0 w (hw.outportb 0x1F7 0x20 d)
  -- The read that only passes time.
  pub pause : (n k w : ℕ) (d : D) → Serving n k w d → Serving n k w (hw.inportb 0x1FC d).1
  pub pause_idle : (d : D) → Idle d → Idle (hw.inportb 0x1FC d).1
  -- No error is reported, nor data before it is there, and in the end the disk is not busy and has data.
  pub wait :
      (n w : ℕ) (d : D)
      → Serving n 0 (suc w) d
      → (bit_and (hw.inportb 0x1F7 d).0 0x01 ≡ 0)
        × (bit_and (hw.inportb 0x1F7 d).0 0x08 ≡ 0)
        × Serving n 0 w (hw.inportb 0x1F7 d).1
  pub ready :
      (n : ℕ) (d : D)
      → Serving n 0 0 d
      → (bit_and (hw.inportb 0x1F7 d).0 0x80 ≡ 0)
        × (bit_and (hw.inportb 0x1F7 d).0 0x01 ≡ 0)
        × (bit_and (hw.inportb 0x1F7 d).0 0x08 ≢ 0)
        × Serving n 0 0 (hw.inportb 0x1F7 d).1
  pub transfer :
      (n k : ℕ) (d : D)
      → Serving n k 0 d
      → k < 256
      → ((hw.inportw 0x1F0 d).0 ≡ word n k) × Serving n (k + 1) 0 (hw.inportw 0x1F0 d).1
  pub done : (n : ℕ) (d : D) → Serving n 256 0 d → Idle d
