-- ===== src/Tests/OnMain.antt =====
-- main.c, arch/x86/init.c and arch/x86/serial.c at concrete inputs.
use levos.Prelude.{
  ℕ, ◌≡◌, ◌≢◌, refl, Option, true, ◌+◌, arith, List, [], ◌∷◌, ◌++◌, none, some, ◌==◌, if◌then◌else◌,
  bit_and,
}
use levos.Prelude.Text.{codes}
use levos.Prelude.Int.{pos, negsuc}
use levos.Prelude.Outcome.{Outcome, ok, panic}
use levos.Drivers.Ports.{Ports}
use levos.Drivers.Ata.{ide_identify, ata_probe, ata_init}
use levos.Arch.Tables.{null_gate}
use levos.Arch.Init.{Symbols, Machine, arch_early_init}
use levos.Arch.Init.Gates.{arch_early_init-IsWired}
use levos.Arch.Init.Wiring.{IsWired}
use levos.Arch.Serial.{serial_write}
use levos.Arch.Serial.Line.{UartLine, serial_write-sent}
use levos.Fs.Vfs.{Driver, Mount, Vfs, root_path}
use levos.Main.{Devices, Kernel, drivers_init, do_mount}
use levos.Main.Boot.{drivers_init-do_mount}
use levos.Main.Root.{last_taken, do_mount-last_taken}

-- Ports behind which the state is what was written to the serial port, which is always ready.
abbrev recording : Ports (List ℕ)
recording = record {
  inportb = λ p d. (0x20, d);
  inportw = λ p d. (0, d);
  outportb = λ p v d. if p == 0x3F8 then d ++ (v ∷ []) else d;
}

ready_at_once : (bit_and 0x20 0x20) ≢ 0
ready_at_once e = cc

recording-UartLine : UartLine recording 0
recording-UartLine = record {
  Busy = λ w d. w ≡ 0;
  sent = λ d. d;
  wait = λ w d busy. absurd (omega arith);
  ready = λ d busy. (ready_at_once, refl, refl);
  take_byte = λ v d busy. (0, omega arith, refl, refl);
}

serial_write-sent_example :
    (d' : List ℕ) × (serial_write recording 1 (b'o' ∷ b'k' ∷ []) [] ≡ ok (pos 2, d'))
    × (recording-UartLine.sent d' ≡ recording-UartLine.sent [] ++ (b'o' ∷ b'k' ∷ []))
unfolding recording-UartLine
serial_write-sent_example =
    serial_write-sent recording 0 recording-UartLine 1 0 (b'o' ∷ b'k' ∷ []) [] (omega arith)
      (omega arith) refl

abbrev symbols : Symbols
symbols = record {
  serial_dev = 0x1000;
  serial_con = 0x1010;
  textmode_dev = 0x1020;
  textmode_con = 0x1030;
  idt_noop_irq = 0x104000;
  post_schedule_noirq = 0x104100;
  exception = λ h. 0x104200;
  pit_handler = 0x104300;
  gdt_init_name = 0x2000;
  idt_init_name = 0x2010;
}

abbrev cold : Machine (List ℕ)
cold = record {
  hardware = [];
  text = λ a. 0;
  tp = record { x = 0; y = 0; col = 0 };
  ttys = record {
    ttys = [];
    active_tty = negsuc 0;
    default_input = 0;
    default_output = 0;
    devices = [];
  };
  consoles = [];
  gdt = λ n. record {
    limit_low = 0;
    base_low = 0;
    base_mid = 0;
    access = 0;
    gran = 0;
    base_high = 0;
  };
  idt = λ n. null_gate;
}

-- A character that is sent to the hardware.
abbrev sent : ℕ → Machine (List ℕ) → Outcome (Machine (List ℕ))
sent c s = ok (record s { hardware = s.hardware ++ (c ∷ []) })

abbrev names : ℕ → List ℕ
names p = if p == 0x2000 then codes "gdt_init" else codes "idt_init"

arch_early_init-IsWired_example :
    (s' : Machine (List ℕ)) × (arch_early_init recording symbols sent names (λ s. 0) cold
      ≡ ok (pos 0, s'))
    × IsWired symbols s'.idt
arch_early_init-IsWired_example =
    arch_early_init-IsWired recording symbols sent names (λ s. 0) (λ s. omega arith)
      (λ c s. (_, refl, refl)) (omega arith) (omega arith) cold

-- A filesystem that takes the devices 5 and 7.
abbrev odd_fs : Driver ℕ ℕ
odd_fs = record {
  mount = some (λ dev. if dev == 5 then some 50 else if dev == 7 then some 70 else none);
}

abbrev no_mounts : Vfs ℕ ℕ
no_mounts = record { mounts = []; root_mount = none; filesystems = odd_fs ∷ [] }

do_mount-last_taken_example :
    ((m : Mount ℕ ℕ)
      → last_taken (odd_fs ∷ []) (4 ∷ 5 ∷ 7 ∷ 8 ∷ []) none ≡ some m
      → (st' : Vfs ℕ ℕ) × (do_mount (4 ∷ 5 ∷ 7 ∷ 8 ∷ []) no_mounts ≡ ok st')
        × (st'.root_mount ≡ some m))
    × (last_taken (odd_fs ∷ []) (4 ∷ 5 ∷ 7 ∷ 8 ∷ []) none ≡ none
        → do_mount (4 ∷ 5 ∷ 7 ∷ 8 ∷ []) no_mounts ≡ panic)
do_mount-last_taken_example =
    do_mount-last_taken (4 ∷ 5 ∷ 7 ∷ 8 ∷ []) no_mounts (omega arith) (omega arith)

abbrev addresses : Devices
addresses = record {
  console_dev = 0x100;
  keyboard_dev = 0x200;
  ide_handler = 0x300;
  kbd_handler = 0x400;
  sda_dev = 0x500;
  new_tty = λ i. 0x600 + i;
}

-- The filesystem 9 on the disk.
abbrev mount_sda : ℕ → Option ℕ
mount_sda dev = if dev == 0x500 then some 9 else none

refused : (d : ℕ) → d ≢ 0x500 → mount_sda d ≡ none
refused d other = ground arith

abbrev cold_kernel : Kernel (List ℕ) ℕ
cold_kernel = record {
  hardware = [];
  vfs = record { mounts = []; root_mount = none; filesystems = [] };
  ttys = cold.ttys;
  idt = cold.idt;
}

sda_there : (ata_init recording true true 0x300 cold.idt []).1 ≡ true
unfolding ata_init ata_probe ide_identify
sda_there = refl

drivers_init-do_mount_example :
    (k' : Kernel (List ℕ) ℕ) × (drivers_init recording addresses mount_sda true true true
        cold_kernel
      ≡ ok (pos 0, k'))
    × (st' : Vfs ℕ ℕ) × (do_mount k'.ttys.devices k'.vfs ≡ ok st')
    × (st'.root_mount ≡ some (record { point = root_path; fs = 9; dev = 0x500 }))
drivers_init-do_mount_example =
    drivers_init-do_mount recording addresses mount_sda true true true cold_kernel 9 refl refused
      (λ e. omega arith) refl (omega arith) sda_there
