-- ===== src/Main/Boot.antt =====
-- main.c: the root directory once the drivers have started.
use levos.Prelude.{
  ℕ, zero, suc, ◌+◌, ◌≤◌, ◌<◌, ◌≡◌, ◌≢◌, inl, inr, refl, ap, arith, List, [], ◌∷◌, ◌++◌, Option,
  none, some, Bool, true, false, ◌==◌, leb, length, length-append, Bool-cases,
}
use levos.Prelude.Int.{pos}
use levos.Prelude.Outcome.{ok}
use levos.Kernel.Log.{device_register, max_devices}
use levos.Arch.Tables.{Idt}
use levos.Drivers.Ports.{Ports}
use levos.Drivers.Tty.Table.{
  Ttys, tty_count, tty_create_device, make_ttys, tty_set_current, tty_override_all_defaults,
  printk_switch_tty, tty_init,
}
use levos.Drivers.Ata.{ata_init}
use levos.Drivers.Keyboard.{keyboard_init}
use levos.Fs.Vfs.{Driver, Mount, Vfs, root_path, vfs_mount_fs, register_fs}
use levos.Fs.Devfs.{devfs, devfs_init}
use levos.Fs.Init.{ext2_init, vfs_init}
use levos.Main.{Devices, Kernel, do_mount, drivers_init}
use levos.Main.Root.{mount_or, last_taken, do_mount-last_taken}

-- The device is in the list.
pub data Registered (d : ℕ) : List ℕ → Type 0 where
  first : {ds : List ℕ} → Registered d (d ∷ ds)
  later : {e : ℕ} {ds : List ℕ} → Registered d ds → Registered d (e ∷ ds)

Registered-append : {d : ℕ} {ds : List ℕ} (es : List ℕ) → Registered d ds → Registered d (ds ++ es)
Registered-append es first = first
Registered-append es (later r) = later (Registered-append es r)

Registered-last : (d : ℕ) (ds : List ℕ) → Registered d (ds ++ (d ∷ []))
Registered-last d [] = first
Registered-last d (e ∷ ds) = later (Registered-last d ds)

registers :
    (d : ℕ) (ds : List ℕ)
    → d ≢ 0
    → length ds < max_devices
    → (device_register (pos d) ds).1 ≡ ds ++ (d ∷ [])
unfolding device_register
registers d ds some_dev room = ground arith

-- Each terminal registers one device at most.
make_ttys-devices :
    (new : ℕ → ℕ) (rounds i : ℕ) (st : Ttys)
    → length (make_ttys new rounds i st).devices ≤ length st.devices + rounds
unfolding make_ttys device_register
make_ttys-devices new zero i st = omega arith
make_ttys-devices new (suc rounds) i st =
    let t = tty_create_device new (record {
      tty_id = i;
      input = st.default_input;
      output = st.default_output;
      selfdevice = 0;
      name = [];
      buffered = true;
    }) in
    let devs = (device_register (pos t.selfdevice) st.devices).1 in
    let one : length devs ≤ length st.devices + 1 =
      ground (arith, length-append st.devices (t.selfdevice ∷ [])) in
    omega (
      arith,
      one,
      make_ttys-devices new rounds (i + 1)
          (record st { ttys = st.ttys ++ (t ∷ []); devices = devs }),
    )

tty_init-devices :
    (new : ℕ → ℕ) (console_dev keyboard_dev : ℕ) (st : Ttys)
    → length (tty_init new console_dev keyboard_dev st).devices ≤ length st.devices + tty_count
unfolding tty_init printk_switch_tty tty_override_all_defaults tty_set_current
tty_init-devices new console_dev keyboard_dev st = make_ttys-devices new tty_count 0 st

registers-Registered :
    (d : ℕ) (ds : List ℕ)
    → d ≢ 0
    → length ds < max_devices
    → Registered d (device_register (pos d) ds).1
      × length (device_register (pos d) ds).1 ≤ max_devices
registers-Registered d ds some_dev room =
    rw (registers d ds some_dev room)
      (Registered-last d ds, omega (arith, length-append ds (d ∷ [])))

-- Another device is added at most.
device_register-Registered :
    (d e : ℕ) (ds : List ℕ) → Registered d ds → Registered d (device_register (pos e) ds).1
unfolding device_register
device_register-Registered d e ds r = elim (Bool-cases (e == 0)) [
  | inl null ↦ rw null r
  | inr there ↦ elim (Bool-cases (leb max_devices (length ds))) [
    | inl full ↦ rw (there, full) r
    | inr room ↦ rw (there, room) (Registered-append (e ∷ []) r)
  ]
]

registers_one :
    (e : ℕ) (ds : List ℕ)
    → length ds ≤ max_devices
    → length (device_register (pos e) ds).1 ≤ max_devices
unfolding device_register
registers_one e ds fits = ground (arith, length-append ds (e ∷ []))

keyboard_init-Registered :
    (d e : ℕ) (room : Bool) (handler : ℕ) (idt : Idt) (ds : List ℕ)
    → Registered d ds
    → length ds ≤ max_devices
    → Registered d (keyboard_init room handler e idt ds).2
      × length (keyboard_init room handler e idt ds).2 ≤ max_devices
unfolding keyboard_init
keyboard_init-Registered d e true handler idt ds r fits =
    (device_register-Registered d e ds r, registers_one e ds fits)
keyboard_init-Registered d e false handler idt ds r fits = (r, fits)

module _ {F : Type 0} (ext2_mount : ℕ → Option F) (sda : ℕ) (fs : F)
    (taken : ext2_mount sda ≡ some fs) (refused : (d : ℕ) → d ≢ sda → ext2_mount d ≡ none) where
  abbrev drivers : List (Driver ℕ F)
  drivers = devfs ∷ record { mount = some ext2_mount } ∷ []

  abbrev disk_mount : Mount ℕ F
  disk_mount = record { point = root_path; fs = fs; dev = sda }

  other_devices : (d : ℕ) → d ≢ sda → vfs_mount_fs d drivers ≡ none
  unfolding vfs_mount_fs
  other_devices d other = rw (refused d other) refl

  the_disk : vfs_mount_fs sda drivers ≡ some fs
  unfolding vfs_mount_fs
  the_disk = rw taken refl

  kept : (devs : List ℕ) → last_taken drivers devs (some disk_mount) ≡ some disk_mount
  unfolding last_taken mount_or
  kept [] = refl
  kept (d ∷ devs) = elim (Bool-cases (d == sda)) [
    | inl same ↦ let e : d ≡ sda = ground arith in rw (e, the_disk) (kept devs)
    | inr other ↦ rw (other_devices d (ground arith)) (kept devs)
  ]

  found :
      (devs : List ℕ) (before : Option (Mount ℕ F))
      → Registered sda devs
      → last_taken drivers devs before ≡ some disk_mount
  unfolding last_taken mount_or
  found [] before none_there = elim none_there [ ]
  found (d ∷ devs) before first = rw the_disk (kept devs)
  found (d ∷ devs) before (later r) = found devs _ r

  mounted_disk :
      (devs : List ℕ) (st : Vfs ℕ F)
      → Registered sda devs
      → length devs ≤ max_devices
      → st ≡ record { mounts = []; root_mount = none; filesystems = drivers }
      → (st' : Vfs ℕ F) × (do_mount devs st ≡ ok st') × (st'.root_mount ≡ some disk_mount)
  mounted_disk devs st r fits is =
      (do_mount-last_taken devs st fits (omega (arith, ap (λ (v : Vfs ℕ F). length v.mounts) is))).0
        disk_mount (rw is (found devs none r))

-- Once `drivers_init` has found the disk, `do_mount` makes the ext2 of the disk the root directory. Before, no
-- mount and no filesystem stands in the tables; ext2 takes the disk, whose device is not null, and no other
-- device; and the list of devices has room for those of the terminals and the disk.
pub drivers_init-do_mount :
    {D F : Type 0} (hw : Ports D) (at : Devices) (ext2_mount : ℕ → Option F)
    (room room' room'' : Bool) (k : Kernel D F) (fs : F)
    → ext2_mount at.sda_dev ≡ some fs
    → ((d : ℕ) → d ≢ at.sda_dev → ext2_mount d ≡ none)
    → at.sda_dev ≢ 0
    → k.vfs ≡ record { mounts = []; root_mount = none; filesystems = [] }
    → length k.ttys.devices + tty_count < max_devices
    → (ata_init hw room room' at.ide_handler k.idt k.hardware).1 ≡ true
    → (k' : Kernel D F) × (drivers_init hw at ext2_mount room room' room'' k ≡ ok (pos 0, k'))
      × (st' : Vfs ℕ F) × (do_mount k'.ttys.devices k'.vfs ≡ ok st')
      × (st'.root_mount ≡ some (record { point = root_path; fs = fs; dev = at.sda_dev }))
unfolding drivers_init vfs_init devfs_init ext2_init register_fs
drivers_init-do_mount hw at ext2_mount room room' room'' k fs taken refused some_dev none_yet fits
      found_sda =
    let ds = (tty_init at.new_tty at.console_dev at.keyboard_dev k.ttys).devices in
    let disk =
      registers-Registered at.sda_dev ds some_dev
        (omega (arith, tty_init-devices at.new_tty at.console_dev at.keyboard_dev k.ttys, fits)) in
    let devs =
      keyboard_init-Registered at.sda_dev at.keyboard_dev room'' at.kbd_handler _ _ disk.0 disk.1 in
    let (st', run, root) =
      mounted_disk ext2_mount at.sda_dev fs taken refused _ _ devs.0 devs.1 refl in
    rw (found_sda, none_yet) (_, refl, st', run, root)
