-- ===== src/Fs/Devfs.antt =====
-- fs/devfs/super.c: a filesystem that is registered and never mounts or opens.
use levos.Prelude.{Bool, not, if◌then◌else◌, none, some}
use levos.Prelude.Int.{ℤ, pos, neg}
use levos.Prelude.Errno.{einval, enosys}
use levos.Prelude.Outcome.{Outcome, ok, ◌>>=◌}
use levos.Fs.Vfs.{Driver, Vfs, register_fs}

-- `devfs_mount` gives -ENODEV for every device.
abbrev pub devfs : {D F : Type 0} → Driver D F
devfs = record { mount = some (λ _. none) }

-- The error pointer that `devfs_open` gives; `valid` says that neither argument is null.
unfoldable pub devfs_open : Bool → ℤ
devfs_open valid = if not valid then neg einval else neg enosys

-- `devfs_init`; what registering the filesystem returns is not looked at.
unfoldable pub devfs_init : {D F : Type 0} → Vfs D F → Outcome (ℤ × Vfs D F)
devfs_init st = register_fs (some devfs) st >>= λ (_, st'). ok (pos 0, st')
