-- ===== src/Tests/OnDisk.antt =====
-- A disk, and runs of the theorems about drivers/ata.c on it.
use levos.Prelude.{
  ℕ, zero, suc, ◌+◌, ◌-◌, ◌*◌, ◌≤◌, ◌<◌, ◌≡◌, ◌⊎◌, refl, arith, false, ◌==◌, if◌then◌else◌, update,
}
use levos.Prelude.Int.{pos}
use levos.Prelude.Outcome.{ok}
use levos.Drivers.Ports.{Ports}
use levos.Drivers.Ata.{ata_read}
use levos.Drivers.Ata.Disk.{PioDisk, lba_of}
use levos.Drivers.Ata.Transfer.{HoldsSectors, ata_read-HoldsSectors}

-- Nothing, or the sector, the next word and the reads of the status that still find the disk busy.
data Phase : Type 0 where
  idle : Phase
  serving : ℕ → ℕ → ℕ → Phase

record Drive : Type 0 where
  regs : ℕ → ℕ
  phase : Phase

abbrev word : ℕ → ℕ → ℕ
word n k = n * 256 + k

abbrev status_of : Phase → ℕ × Phase
status_of idle = (0, idle)
status_of (serving n k zero) = (0x08, serving n k zero)
status_of (serving n k (suc w)) = (0x80, serving n k w)

abbrev word_of : Phase → ℕ × Phase
word_of idle = (0, idle)
word_of (serving n k w) = (word n k, serving n (k + 1) w)

abbrev drive : Ports Drive
drive = record {
  inportb = λ p d.
      if p == 0x1F7
      then ((status_of d.phase).0, record d { phase = (status_of d.phase).1 })
      else (0, d);
  inportw = λ p d. ((word_of d.phase).0, record d { phase = (word_of d.phase).1 });
  outportb = λ p v d.
      if p == 0x1F7
      then record d { phase = serving (lba_of d.regs) 0 1 }
      else record d { regs = update d.regs (p - 0x1F0) v };
}

drive-latch :
    (d : Drive) (p v q : ℕ) → p ≤ 6 → (drive.outportb (0x1F0 + p) v d).regs q ≡ update d.regs p v q
drive-latch d p v q h =
    let e : (0x1F0 + p == 0x1F7) ≡ false = ground arith in
    let back : 0x1F0 + p - 0x1F0 ≡ p = omega arith in rw (e, back) refl

drive-PioDisk : PioDisk drive word 9 1
drive-PioDisk = record {
  reg = λ d. d.regs;
  Idle = λ d. Unit;
  Serving = λ n k w d. d.phase ≡ serving n k w;
  latch = λ d p v q _ _ h. drive-latch d p v q h;
  latch_idle = λ d p v _ _ _. tt;
  start = λ d _ _ _ _. (1, omega arith, refl);
  pause = λ n k w d h. h;
  pause_idle = λ d _. tt;
  wait = λ n w d h. rw h (refl, refl, refl);
  ready = λ n d h. rw h (refl, refl, (λ e. omega arith), refl);
  transfer = λ n k d h _. rw h (refl, refl);
  done = λ n d _. tt;
}

ata_read-HoldsSectors_example :
    (d' : Drive) × (m' : ℕ → ℕ) × (ata_read drive 2 4096 2 3
        (record { regs = λ _. 0; phase = idle }, λ _. 0)
      ≡ ok (pos 2, d', m'))
    × drive-PioDisk.Idle d'
    × HoldsSectors drive word 9 1 drive-PioDisk 4096 3 2 m'
    × ((b : ℕ) → (b < 4096) ⊎ (4096 + 512 * 2 ≤ b) → m' b ≡ 0)
unfolding drive-PioDisk
ata_read-HoldsSectors_example =
    ata_read-HoldsSectors drive word 9 1 drive-PioDisk 2 4096 2 3
      (record { regs = λ _. 0; phase = idle }) (λ _. 0) (omega arith) (omega arith) (omega arith) tt
