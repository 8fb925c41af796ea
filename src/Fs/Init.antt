-- ===== src/Fs/Init.antt =====
-- vfs_init of fs/vfs.c and ext2_init of fs/ext2/super.c. `ext2_mount` is the mount function of ext2, as the
-- virtual filesystem calls it; `kmalloc` is taken to succeed.
use levos.Prelude.{Option, none, some, Bool, true, false}
use levos.Prelude.Int.{ℤ, pos}
use levos.Prelude.Outcome.{Outcome, ok, ◌>>=◌}
use levos.Fs.Vfs.{Vfs, register_fs}
use levos.Fs.Devfs.{devfs_init}

module _ {D F : Type 0} where
  unfoldable pub vfs_root_mounted : Vfs D F → Bool
  vfs_root_mounted st = elim st.root_mount [ none ↦ false | some m ↦ true ]

  unfoldable pub ext2_init : (D → Option F) → Vfs D F → Outcome (ℤ × Vfs D F)
  ext2_init ext2_mount st =
      register_fs (some (record { mount = some ext2_mount })) st >>= λ (_, st'). ok (pos 0, st')

  unfoldable pub vfs_init : (D → Option F) → Vfs D F → Outcome (ℤ × Vfs D F)
  vfs_init ext2_mount st =
      devfs_init st >>= λ (_, st1). ext2_init ext2_mount st1 >>= λ (_, st2). ok (pos 0, st2)
