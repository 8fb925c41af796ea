-- ===== src/Main/Root.antt =====
-- main.c: which device becomes the root directory.
use levos.Prelude.{
  ℕ, ◌+◌, ◌≤◌, ◌<◌, ◌≡◌, ◌∙◌, refl, sym, ap, arith, List, [], ◌∷◌, ◌++◌, Option, none, some, true,
  false, leb, length, length-append, get_or, append_assoc,
}
use levos.Prelude.Int.{pos}
use levos.Prelude.Outcome.{Outcome, ok, panic, ◌>>=◌}
use levos.Kernel.Log.{max_devices, device_get, get_num_of_devices}
use levos.Fs.Vfs.{Driver, Mount, Vfs, root_path, max_mounts, vfs_mount_fs, vfs_mount}
use levos.Fs.Vfs.AtRoot.{vfs_mount-refused, vfs_mount-taken}
use levos.Fs.Init.{vfs_root_mounted}
use levos.Main.{mount_devices, do_mount}

get_or-at : (done rest : List ℕ) (d : ℕ) → get_or (done ++ (d ∷ rest)) (length done) 0 ≡ d
get_or-at [] rest d = refl
get_or-at (x ∷ done) rest d = get_or-at done rest d

device_get-at :
    (done rest full : List ℕ) (d : ℕ)
    → full ≡ done ++ (d ∷ rest)
    → length full ≤ max_devices
    → device_get (pos (length done)) full ≡ ok d
unfolding device_get
device_get-at done rest full d split fits =
    let size = ap (length {A = ℕ}) split ∙ length-append done (d ∷ rest) in
    let inside : leb max_devices (length done) ≡ false = ground arith in
    rw (inside, split) (ap ok (get_or-at done rest d))

module _ {F : Type 0} where
  -- The mount of a device after a filesystem took it, or the mount before.
  unfoldable pub mount_or : Option F → ℕ → Option (Mount ℕ F) → Option (Mount ℕ F)
  mount_or none dev before = before
  mount_or (some fs) dev before = some (record { point = root_path; fs = fs; dev = dev })

  -- The mount of the last device that a filesystem takes, or `before`.
  unfoldable pub last_taken : List (Driver ℕ F) → List ℕ → Option (Mount ℕ F) → Option (Mount ℕ F)
  last_taken drivers [] before = before
  last_taken drivers (dev ∷ devs) before =
      last_taken drivers devs (mount_or (vfs_mount_fs dev drivers) dev before)

  -- What one call of `vfs_mount` leaves.
  record Mounted (dev : ℕ) (o : Option F) (st st' : Vfs ℕ F) : Type 0 where
    same : st'.filesystems ≡ st.filesystems
    one_more : length st'.mounts ≤ length st.mounts + 1
    root : st'.root_mount ≡ mount_or o dev st.root_mount

  mount_one :
      (dev : ℕ) (o : Option F) (st : Vfs ℕ F)
      → vfs_mount_fs dev st.filesystems ≡ o
      → length st.mounts < max_mounts
      → (st' : Vfs ℕ F) × ((k : Vfs ℕ F → Outcome (Vfs ℕ F))
          → (vfs_mount root_path dev st >>= λ (_, st''). k st'') ≡ k st')
        × Mounted dev o st st'
  unfolding mount_or
  mount_one dev none st h room = (
    st,
    λ k. rw (vfs_mount-refused dev st h) refl,
    record { same = refl; one_more = omega arith; root = refl },
  )
  mount_one dev (some fs) st h room = (
    let m : Mount ℕ F = record { point = root_path; fs = fs; dev = dev } in
        record st { mounts = st.mounts ++ (m ∷ []); root_mount = some m },
    λ k. rw (vfs_mount-taken dev st fs h room) refl,
    record { same = refl; one_more = omega (arith, length-append {0} st.mounts); root = refl },
  )

  mount_rest :
      (rest done full : List ℕ) (st : Vfs ℕ F)
      → full ≡ done ++ rest
      → length full ≤ max_devices
      → length st.mounts + length rest ≤ max_mounts
      → (st' : Vfs ℕ F) × (mount_devices (length rest) (length done) full st ≡ ok st')
        × (st'.root_mount ≡ last_taken st.filesystems rest st.root_mount)
  unfolding mount_devices last_taken
  mount_rest [] done full st split fits room = (st, refl, refl)
  mount_rest (d ∷ rest) done full st split fits room =
      let o = vfs_mount_fs d st.filesystems in
      let (st1, run, m) = mount_one d o st refl (omega arith) in
      let (st', runs, root) =
        mount_rest rest (done ++ (d ∷ [])) full st1 (split ∙ sym (append_assoc done (d ∷ []) rest))
          fits (omega (arith, m.one_more)) in
      let long : length (done ++ (d ∷ [])) ≡ length done + 1 =
        omega (arith, length-append {0} done) in
      (
        st',
        rw (device_get-at done rest full d split fits)
            (run (mount_devices (length rest) (length done + 1) full) ∙ rw (sym long) runs),
        root
            ∙ ap (λ (ds : List (Driver ℕ F)). last_taken ds rest st1.root_mount) m.same
            ∙ ap (last_taken st.filesystems rest) m.root,
      )

  mounted_test :
      (st : Vfs ℕ F) (o : Option (Mount ℕ F))
      → st.root_mount ≡ o
      → vfs_root_mounted st ≡ elim o [ none ↦ false | some m ↦ true ]
  unfolding vfs_root_mounted
  mounted_test st o is = rw (sym is) refl

  -- If a filesystem takes one of the devices, then `do_mount` returns, and the root directory is on the
  -- last such device, with the filesystem that took it; if there is none, and was no root before, it
  -- panics. There is room in the table for a mount of each device.
  pub do_mount-last_taken :
      (devs : List ℕ) (st : Vfs ℕ F)
      → length devs ≤ max_devices
      → length st.mounts + length devs ≤ max_mounts
      → ((m : Mount ℕ F)
          → last_taken st.filesystems devs st.root_mount ≡ some m
          → (st' : Vfs ℕ F) × (do_mount devs st ≡ ok st') × (st'.root_mount ≡ some m))
        × (last_taken st.filesystems devs st.root_mount ≡ none → do_mount devs st ≡ panic)
  unfolding do_mount get_num_of_devices
  do_mount-last_taken devs st fits room =
      let (st', run, root) = mount_rest devs [] devs st refl fits room in
      (
        λ m is. (st', rw (run, mounted_test st' (some m) (root ∙ is)) refl, root ∙ is),
        λ is. rw (run, mounted_test st' none (root ∙ is)) refl,
      )
