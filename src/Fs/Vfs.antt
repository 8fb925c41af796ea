-- ===== src/Fs/Vfs.antt =====
-- fs/vfs.c: the registered filesystems, the mount table, and the choice of a mount for a path. A path is
-- the list of its characters without the terminator. Devices and mounted filesystems are what the
-- filesystems make of them, and so are parameters; `kmalloc` is taken to succeed.
pub mod Table
pub mod Mounting
pub mod AtRoot
use levos.Prelude.{
  ℕ, zero, suc, ◌+◌, List, [], ◌∷◌, ◌++◌, Option, none, some, Bool, true, false, not, ◌&&◌, ◌==◌,
  leb, if◌then◌else◌, length, take,
}
use levos.Prelude.Int.{ℤ, pos, neg}
use levos.Prelude.Errno.{eagain, enxio, einval, enosys}
use levos.Prelude.Outcome.{Outcome, ok, panic, fault, ◌>>=◌}
use levos.Libc.Str.{strcmp}
use levos.Libc.Str.Compare.{c_string}

-- `strcmp(s, t) == 0`
is_zero : Outcome ℕ → Bool
is_zero (ok n) = n == 0
is_zero _ = false

unfoldable pub is_same : List ℕ → List ℕ → Bool
unfolding is_zero
is_same s t = is_zero (strcmp (c_string s []) (c_string t []))

abbrev pub root_path : List ℕ
root_path = b'/' ∷ []

abbrev pub max_mounts : ℕ
max_mounts = 256

abbrev pub max_filesystems : ℕ
max_filesystems = 8

module _ (D F : Type 0) where
  -- `struct filesystem`, as registered: `mount` may be null, and gives null or an error pointer for a
  -- device that it refuses.
  pub record Driver : Type 0 where
    pub mount : Option (D → Option F)

  -- `struct mount`
  pub record Mount : Type 0 where
    pub point : List ℕ
    pub fs : F
    pub dev : D

  pub record Vfs : Type 0 where
    pub mounts : List Mount
    pub root_mount : Option Mount
    pub filesystems : List Driver

or_next : {F : Type 0} → Option F → Option F → Option F
or_next (some fs) rest = some fs
or_next none rest = rest

module _ {D F : Type 0} where
  -- `__check_mounts`: the first mount at a point.
  unfoldable pub check_mounts : List ℕ → List (Mount D F) → Option (Mount D F)
  check_mounts str [] = none
  check_mounts str (m ∷ mounts) = if is_same m.point str then some m else check_mounts str mounts

  or_shorter : Option (Mount D F) → Option (Mount D F) → Option (Mount D F)
  or_shorter (some m) rest = some m
  or_shorter none rest = rest

  -- `while (strlen(str) > 1)`, with the first `n` characters left.
  find_from : Vfs D F → List ℕ → ℕ → Option (Mount D F)
  find_from st path zero = st.root_mount
  find_from st path (suc zero) = st.root_mount
  find_from st path (suc (suc n)) =
      let rest = find_from st path (suc n) in
      or_shorter (check_mounts (take (suc (suc n)) path) st.mounts) rest

  unfoldable pub find_mount : List ℕ → Vfs D F → Option (Mount D F)
  unfolding find_from or_shorter
  find_mount path st =
      if is_same path root_path then st.root_mount else find_from st path (length path)

  try_driver : Option (D → Option F) → D → Option F
  try_driver none dev = none
  try_driver (some mount) dev = mount dev

  unfoldable pub vfs_mount_fs : D → List (Driver D F) → Option F
  unfolding try_driver or_next
  vfs_mount_fs dev [] = none
  vfs_mount_fs dev (d ∷ drivers) = or_next (try_driver d.mount dev) (vfs_mount_fs dev drivers)

  -- `__vfs_set_mount`. The table has no test for its end: a write behind it is a fault.
  unfoldable pub set_mount : List ℕ → D → F → Vfs D F → Outcome (ℤ × Vfs D F)
  set_mount p dev fs st =
      let m : Mount D F = record { point = p; fs = fs; dev = dev } in
      if leb max_mounts (length st.mounts)
      then fault
      else ok (
        pos 0,
        record st {
          mounts = st.mounts ++ (m ∷ []);
          root_mount = if is_same p root_path then some m else st.root_mount;
        },
      )

  mount_found : List ℕ → D → Option F → Vfs D F → Outcome (ℤ × Vfs D F)
  mount_found path dev none st = ok (neg enxio, st)
  mount_found path dev (some fs) st = set_mount path dev fs st

  is_none : Option (Mount D F) → Bool
  is_none none = true
  is_none (some m) = false

  unfoldable pub vfs_mount : List ℕ → D → Vfs D F → Outcome (ℤ × Vfs D F)
  unfolding mount_found is_none
  vfs_mount path dev st =
      if is_none st.root_mount && not (is_same root_path path)
      then ok (neg eagain, st)
      else mount_found path dev (vfs_mount_fs dev st.filesystems) st

  -- A null filesystem is refused; a ninth one is written behind the array.
  unfoldable pub register_fs : Option (Driver D F) → Vfs D F → Outcome (ℤ × Vfs D F)
  register_fs none st = ok (neg einval, st)
  register_fs (some d) st =
      if leb max_filesystems (length st.filesystems)
      then fault
      else ok (pos 0, record st { filesystems = st.filesystems ++ (d ∷ []) })

  -- `vfs_open`, with the filesystem's `open`: no mount is a read through null.
  unfoldable pub vfs_open : {R : Type 0} → (F → List ℕ → Outcome R) → List ℕ → Vfs D F → Outcome R
  vfs_open opener path st = elim (find_mount path st) [ none ↦ fault | some m ↦ opener m.fs path ]

  -- `vfs_stat`, with the filesystem's `stat`, which may be null.
  unfoldable stat_at : (F → Option (List ℕ → Outcome ℤ)) → List ℕ → Option (Mount D F) → Outcome ℤ
  stat_at stat p none = panic
  stat_at stat p (some m) = elim (stat m.fs) [ none ↦ ok (neg enosys) | some f ↦ f p ]

  unfoldable pub vfs_stat : (F → Option (List ℕ → Outcome ℤ)) → List ℕ → Vfs D F → Outcome ℤ
  unfolding stat_at
  vfs_stat stat p st = stat_at stat p (find_mount p st)
