-- ===== src/Fs/Vfs/AtRoot.antt =====
-- `vfs_mount` of fs/vfs.c at the root directory, which is never too early.
use levos.Prelude.{
  ◌<◌, ◌≡◌, refl, arith, [], ◌∷◌, ◌++◌, Option, none, some, true, false, not, ◌&&◌, leb, length,
}
use levos.Prelude.Int.{pos, neg}
use levos.Prelude.Errno.{enxio}
use levos.Prelude.Outcome.{ok}
use levos.Fs.Vfs.{
  is_same, root_path, max_mounts, Mount, Vfs, vfs_mount_fs, set_mount, mount_found, is_none,
  vfs_mount,
}
use levos.Fs.Vfs.Table.{is_same_iff}

root_same : is_same root_path root_path ≡ true
root_same = (is_same_iff root_path root_path (omega arith) (omega arith)).1 refl

never_early : {D F : Type 0} (o : Option (Mount D F)) → (is_none o && not true) ≡ false
unfolding is_none
never_early none = refl
never_early (some m) = refl

module _ {D F : Type 0} (dev : D) (st : Vfs D F) where
  pub vfs_mount-refused :
      vfs_mount_fs dev st.filesystems ≡ none → vfs_mount root_path dev st ≡ ok (neg enxio, st)
  unfolding vfs_mount mount_found
  vfs_mount-refused h = rw (root_same, never_early st.root_mount, h) refl

  pub vfs_mount-taken :
      (fs : F)
      → vfs_mount_fs dev st.filesystems ≡ some fs
      → length st.mounts < max_mounts
      → let m : Mount D F = record { point = root_path; fs = fs; dev = dev } in
        vfs_mount root_path dev st
        ≡ ok (pos 0, record st { mounts = st.mounts ++ (m ∷ []); root_mount = some m })
  unfolding vfs_mount mount_found set_mount
  vfs_mount-taken fs h room =
      let free : leb max_mounts (length st.mounts) ≡ false = ground arith in
      rw (root_same, never_early st.root_mount, h, free, root_same) refl
