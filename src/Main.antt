-- ===== src/Main.antt =====
-- main.c: the start of the drivers and the mount of the root directory. A device is its address.
pub mod Root
pub mod Boot
use levos.Prelude.{ℕ, zero, suc, ◌+◌, List, Option, Bool, ◌==◌, if◌then◌else◌}
use levos.Prelude.Int.{ℤ, pos, negsuc}
use levos.Prelude.Outcome.{Outcome, ok, panic, ◌>>=◌}
use levos.Kernel.Log.{device_get, device_register, get_num_of_devices}
use levos.Drivers.Ports.{Ports}
use levos.Drivers.Tty.Table.{Ttys, tty_init}
use levos.Drivers.Ata.{ata_init}
use levos.Drivers.Keyboard.{keyboard_init}
use levos.Arch.Tables.{Idt}
use levos.Fs.Vfs.{Vfs, root_path, vfs_mount}
use levos.Fs.Init.{vfs_init, vfs_root_mounted}

-- The addresses and devices that the drivers register.
pub record Devices : Type 0 where
  pub console_dev : ℕ
  pub keyboard_dev : ℕ
  pub ide_handler : ℕ
  pub kbd_handler : ℕ
  pub sda_dev : ℕ
  pub new_tty : ℕ → ℕ

-- What the drivers set up.
pub record Kernel (D F : Type 0) : Type 0 where
  pub hardware : D
  pub vfs : Vfs ℕ F
  pub ttys : Ttys
  pub idt : Idt

module _ {F : Type 0} where
  -- The loop of `do_mount` over `i`, with `rounds` left. What `vfs_mount` returns is not looked at.
  unfoldable pub mount_devices : ℕ → ℕ → List ℕ → Vfs ℕ F → Outcome (Vfs ℕ F)
  mount_devices zero i devs st = ok st
  mount_devices (suc rounds) i devs st = device_get (pos i) devs >>= λ dev.
      vfs_mount root_path dev st >>= λ (_, st'). mount_devices rounds (i + 1) devs st'

  unfoldable pub do_mount : List ℕ → Vfs ℕ F → Outcome (Vfs ℕ F)
  do_mount devs st = mount_devices (get_num_of_devices devs) 0 devs st >>= λ st'.
      if vfs_root_mounted st' then ok st' else panic

  -- `drivers_init`: a driver that fails is reported, and the next one starts. `room` and `room'` are those
  -- of `ata_init`, which registers the disk that it finds, and `room''` that of `keyboard_init`.
  unfoldable pub drivers_init :
      {D : Type 0}
      → Ports D
      → Devices
      → (ℕ → Option F)
      → Bool
      → Bool
      → Bool
      → Kernel D F
      → Outcome (ℤ × Kernel D F)
  drivers_init hw at ext2_mount room room' room'' k = vfs_init ext2_mount k.vfs >>= λ (_, vfs).
      let ttys = tty_init at.new_tty at.console_dev at.keyboard_dev k.ttys in
      let (_, sda, idt, d) = ata_init hw room room' at.ide_handler k.idt k.hardware in
      let devs = if sda then (device_register (pos at.sda_dev) ttys.devices).1 else ttys.devices in
      let (_, idt', devs') = keyboard_init room'' at.kbd_handler at.keyboard_dev idt devs in
      ok (
        pos 0,
        record { hardware = d; vfs = vfs; ttys = record ttys { devices = devs' }; idt = idt' },
      )
