-- ===== src/Drivers/Ata/Transfer.antt =====
-- drivers/ata.c: a read of sectors gives their words, over any disk of `PioDisk`.
use levos.Prelude.{
  ℕ, zero, suc, ◌+◌, ◌*◌, ◌/◌, ◌%◌, ◌^◌, ◌≤◌, ◌<◌, ◌≡◌, ◌∙◌, ◌⊎◌, inl, inr, refl, arith, ◌==◌,
  Bool-cases, put_word,
}
use levos.Prelude.Int.{pos}
use levos.Prelude.Outcome.{ok}
use levos.Drivers.Ports.{Ports}
use levos.Drivers.Ata.{
  ata_primary_io, ide_400ns_delay, ide_poll, read_words, read_altstatus, take_sector, ata_read_one,
  read_sectors, ata_read,
}
use levos.Drivers.Ata.Command.{poll_busy-serving, poll_data-serving, command_read-serving}
use levos.Drivers.Ata.Disk.{PioDisk}

module _ {D : Type 0} (hw : Ports D) (word : ℕ → ℕ → ℕ) (size latency : ℕ)
    (disk : PioDisk hw word size latency) where
  -- The first `c` words of sector `n` are at `a`.
  Filled : ℕ → ℕ → ℕ → (ℕ → ℕ) → Type 0
  Filled n a c m =
      (k : ℕ)
      → k < c
      → (m (a + k * 2) ≡ word n k % 256) × (m (a + k * 2 + 1) ≡ word n k / 256 % 256)

  Filled-put_word :
      (n a c : ℕ) (m : ℕ → ℕ)
      → Filled n a c m
      → Filled n a (c + 1) (put_word (a + c * 2) (word n c) m)
  unfolding Filled
  Filled-put_word n a c m h k below = elim (Bool-cases (c == k)) [
    | inl e ↦ let same : c ≡ k = ground arith in rw same (ground arith)
    | inr e ↦ let kept = h k (ground arith) in ground (arith, kept.0, kept.1)
  ]

  -- What lies outside `len` bytes from `a` on is the same.
  Outside : ℕ → ℕ → (ℕ → ℕ) → (ℕ → ℕ) → Type 0
  Outside a len m m' = (b : ℕ) → (b < a) ⊎ (a + len ≤ b) → m' b ≡ m b

  Outside-put_word :
      (a i : ℕ) (m m' : ℕ → ℕ) (v : ℕ)
      → i < 256
      → Outside a 512 (put_word (a + i * 2) v m) m'
      → Outside a 512 m m'
  unfolding Outside
  Outside-put_word a i m m' v inside h b (inl below) = h b (inl below) ∙ ground arith
  Outside-put_word a i m m' v inside h b (inr above) = h b (inr above) ∙ ground arith

  read_words-Filled :
      (rounds i n a : ℕ) (d : D) (m : ℕ → ℕ)
      → i + rounds ≡ 256
      → disk.Serving n i 0 d
      → Filled n a i m
      → (d' : D) × (m' : ℕ → ℕ) × (read_words hw rounds i ata_primary_io a d m ≡ (d', m'))
        × disk.Serving n 256 0 d'
        × Filled n a 256 m'
        × Outside a 512 m m'
  unfolding read_words
  read_words-Filled zero i n a d m all serving h =
      let full : i ≡ 256 = omega arith in
      (d, m, refl, rw full at serving, rw full at h, unfold Outside in λ b off. refl)
  read_words-Filled (suc rounds) i n a d m all serving h =
      let (value, next) = disk.transfer n i d serving (omega arith) in
      let m1 = put_word (a + i * 2) (word n i) m in
      let (d', m', run, there, full, off) =
        read_words-Filled rounds (i + 1) n a (hw.inportw 0x1F0 d).1 m1 (omega arith) next
          (Filled-put_word n a i m h) in
      (d', m', rw value run, there, full, Outside-put_word a i m m' (word n i) (omega arith) off)

  pause_serving :
      (n k w rounds : ℕ) (d : D)
      → disk.Serving n k w d
      → disk.Serving n k w (read_altstatus hw rounds ata_primary_io d)
  unfolding read_altstatus
  pause_serving n k w zero d h = h
  pause_serving n k w (suc rounds) d h = pause_serving n k w rounds _ (disk.pause n k w d h)

  pause_idle :
      (rounds : ℕ) (d : D) → disk.Idle d → disk.Idle (read_altstatus hw rounds ata_primary_io d)
  unfolding read_altstatus
  pause_idle zero d h = h
  pause_idle (suc rounds) d h = pause_idle rounds _ (disk.pause_idle d h)

  ata_read_one-Filled :
      (fuel lba a : ℕ) (d : D) (m : ℕ → ℕ)
      → latency < fuel
      → lba < size
      → lba < 2 ^ 28
      → disk.Idle d
      → (d' : D) × (m' : ℕ → ℕ) × (ata_read_one hw fuel a lba (d, m) ≡ ok (d', m'))
        × disk.Idle d'
        × Filled lba a 256 m'
        × Outside a 512 m m'
  unfolding ata_read_one take_sector ide_poll ide_400ns_delay
  ata_read_one-Filled fuel lba a d m patient inside small idle =
      let (w, soon, asked) =
        command_read-serving hw word size latency disk lba d inside small idle in
      let (d1, w1, run1, fewer, calm) =
        poll_busy-serving hw word size latency disk fuel lba w _ (omega arith)
          (pause_serving lba 0 w 4 _ asked) in
      let (d2, run2, there) =
        poll_data-serving hw word size latency disk fuel lba w1 d1 (omega arith) calm in
      let (d3, m', run3, end, full, off) =
        read_words-Filled 256 0 lba a d2 m refl there
          (unfold Filled in λ k below. absurd (omega arith)) in
      (
        read_altstatus hw 4 ata_primary_io d3,
        m',
        rw (run1, run2, run3) refl,
        pause_idle 4 d3 (disk.done lba d3 end),
        full,
        off,
      )

  -- Words that are behind a part of memory do not change in it.
  Filled-Outside :
      (n a b len : ℕ) (m m' : ℕ → ℕ)
      → a + 512 ≤ b
      → Outside b len m m'
      → Filled n a 256 m
      → Filled n a 256 m'
  unfolding Filled Outside
  Filled-Outside n a b len m m' apart off h k below =
      let (low, high) = h k below in
      (off (a + k * 2) (inl (omega arith)) ∙ low, off (a + k * 2 + 1) (inl (omega arith)) ∙ high)

  Outside-append :
      (a len : ℕ) (m m1 m' : ℕ → ℕ)
      → Outside a 512 m m1
      → Outside (a + 512) len m1 m'
      → Outside a (512 + len) m m'
  unfolding Outside
  Outside-append a len m m1 m' h h' b (inl below) = h' b (inl (omega arith)) ∙ h b (inl below)
  Outside-append a len m m1 m' h h' b (inr above) =
      h' b (inr (omega arith)) ∙ h b (inr (omega arith))

  -- Memory holds `n` sectors from sector `at` on, each with its 256 words, at `a`.
  abbrev pub HoldsSectors : ℕ → ℕ → ℕ → (ℕ → ℕ) → Type 0
  HoldsSectors a at n m =
      (j k : ℕ)
      → j < n
      → k < 256
      → (m (a + j * 512 + k * 2) ≡ word (at + j) k % 256)
        × (m (a + j * 512 + k * 2 + 1) ≡ word (at + j) k / 256 % 256)

  HoldsSectors-more :
      (a at i n : ℕ) (m : ℕ → ℕ)
      → Filled (at + i) a 256 m
      → HoldsSectors (a + 512) (at + (i + 1)) n m
      → HoldsSectors a (at + i) (suc n) m
  unfolding Filled
  HoldsSectors-more a at i n m h rest zero k inside below =
      let here : a + 0 * 512 ≡ a = omega arith in
      let first : at + i + 0 ≡ at + i = omega arith in rw (here, first) (h k below)
  HoldsSectors-more a at i n m h rest (suc j) k inside below =
      let here : a + suc j * 512 ≡ a + 512 + j * 512 = omega arith in
      let later : at + i + suc j ≡ at + (i + 1) + j = omega arith in
      rw (here, later) (rest j k (omega arith) below)

  read_sectors-HoldsSectors :
      (fuel rounds i a at : ℕ) (d : D) (m : ℕ → ℕ)
      → latency < fuel
      → at + (i + rounds) ≤ size
      → size ≤ 2 ^ 28
      → disk.Idle d
      → (d' : D) × (m' : ℕ → ℕ) × (read_sectors hw fuel rounds i a at (d, m) ≡ ok (d', m'))
        × disk.Idle d'
        × HoldsSectors a (at + i) rounds m'
        × Outside a (512 * rounds) m m'
  unfolding read_sectors
  read_sectors-HoldsSectors fuel zero i a at d m patient inside small idle =
      (d, m, refl, idle, (λ j k below. absurd (omega arith)), unfold Outside in λ b off. refl)
  read_sectors-HoldsSectors fuel (suc rounds) i a at d m patient inside small idle =
      let (d1, m1, run1, idle1, full, off1) =
        ata_read_one-Filled fuel (at + i) a d m patient (omega arith) (omega arith) idle in
      let (d', m', run, idle', rest, off) =
        read_sectors-HoldsSectors fuel rounds (i + 1) (a + 512) at d1 m1 patient (omega arith) small
          idle1 in
      let kept = Filled-Outside (at + i) a (a + 512) (512 * rounds) m1 m' (omega arith) off full in
      let len : 512 * suc rounds ≡ 512 + 512 * rounds = omega arith in
      (
        d',
        m',
        rw (run1, run) refl,
        idle',
        HoldsSectors-more a at i rounds m' kept rest,
        rw len (Outside-append a (512 * rounds) m m1 m' off1 off),
      )

  -- Over a disk that keeps to the standard and is idle, `ata_read` of sectors that the disk has and that
  -- 28 bits can address returns their number within the fuel, leaves the disk idle, and stores each
  -- word of each sector at its place, low byte first. No other byte of memory changes.
  pub ata_read-HoldsSectors :
      (fuel a count at : ℕ) (d : D) (m : ℕ → ℕ)
      → latency < fuel
      → at + count ≤ size
      → size ≤ 2 ^ 28
      → disk.Idle d
      → (d' : D) × (m' : ℕ → ℕ) × (ata_read hw fuel a count at (d, m) ≡ ok (pos count, d', m'))
        × disk.Idle d'
        × HoldsSectors a at count m'
        × ((b : ℕ) → (b < a) ⊎ (a + 512 * count ≤ b) → m' b ≡ m b)
  unfolding ata_read Outside
  ata_read-HoldsSectors fuel a count at d m patient inside small idle =
      let (d', m', run, idle', holds, off) =
        read_sectors-HoldsSectors fuel count 0 a at d m patient (omega arith) small idle in
      let first : at + 0 ≡ at = omega arith in (d', m', rw run refl, idle', rw first at holds, off)
