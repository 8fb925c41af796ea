-- ===== src/Fs/Vfs/Mounting.antt =====
-- `vfs_mount` of fs/vfs.c: what it refuses, and that a mounted path is found.
use mathlib.Core.Bool.{false≢true}
use levos.Prelude.{
  ℕ, ◌≤◌, ◌≡◌, ◌≢◌, ◌⊎◌, ◌∙◌, refl, sym, ap, arith, List, [], ◌∷◌, ◌++◌, Option, none, some, true,
  false, not, ◌&&◌, leb, if◌then◌else◌, length, take_all, Bool-cases, inl, inr,
}
use levos.Prelude.Int.{ℤ, pos, neg}
use levos.Prelude.Errno.{eagain, enxio}
use levos.Prelude.Outcome.{ok, ok-injective}
use levos.Libc.Str.Compare.{IsText}
use levos.Fs.Vfs.{
  is_same, root_path, max_mounts, Mount, Vfs, check_mounts, or_shorter, find_from, find_mount,
  vfs_mount_fs, set_mount, mount_found, is_none, vfs_mount,
}
use levos.Fs.Vfs.Table.{HasText, Unmounted, is_same_iff}

root_cases :
    (path : List ℕ)
    → IsText path
    → ((is_same path root_path ≡ true) × (path ≡ root_path))
      ⊎ ((is_same path root_path ≡ false) × (path ≢ root_path))
root_cases path h =
    let same = is_same_iff path root_path h (omega arith) in
    elim (Bool-cases (is_same path root_path)) [
      | inl e ↦ inl (e, same.0 e)
      | inr e ↦ inr (e, λ eq. false≢true (sym e ∙ same.1 eq))
    ]

module _ {D F : Type 0} where
  -- Nothing is mounted before the root directory, and the root mount is at the root directory.
  pub record IsRooted (st : Vfs D F) : Type 0 where
    pub first : st.root_mount ≡ none → st.mounts ≡ []
    pub at_slash : (m : Mount D F) → st.root_mount ≡ some m → m.point ≡ root_path

  new_mount : List ℕ → D → F → Mount D F
  new_mount path dev fs = record { point = path; fs = fs; dev = dev }

  -- A successful `vfs_mount`, step by step.
  record Done (path : List ℕ) (dev : D) (st st' : Vfs D F) : Type 0 where
    fs : F
    accepts : vfs_mount_fs dev st.filesystems ≡ some fs
    table : st'.mounts ≡ st.mounts ++ (new_mount path dev fs ∷ [])
    root :
        st'.root_mount
        ≡ (if is_same path root_path then some (new_mount path dev fs) else st.root_mount)

  set_mount-Done :
      (path : List ℕ) (dev : D) (fs : F) (st st' : Vfs D F) (r : ℤ)
      → vfs_mount_fs dev st.filesystems ≡ some fs
      → set_mount path dev fs st ≡ ok (r, st')
      → (r ≡ pos 0) × Done path dev st st'
  unfolding set_mount new_mount
  set_mount-Done path dev fs st st' r accepts e =
      elim (Bool-cases (leb max_mounts (length st.mounts))) [
        | inl full ↦ cc (rw full at e)
        | inr room ↦
            let e' = rw room at e in
            let same = ok-injective e' in
            (
              sym (ap (λ (p : ℤ × Vfs D F). p.0) same),
              record {
                fs = fs;
                accepts = accepts;
                table = sym (ap (λ (p : ℤ × Vfs D F). p.1.mounts) same);
                root = sym (ap (λ (p : ℤ × Vfs D F). p.1.root_mount) same);
              },
            )
      ]

  -- `vfs_mount` changes nothing, and says why, or it succeeds.
  Ended : List ℕ → D → Vfs D F → ℤ → Vfs D F → Type 0
  Ended path dev st r st' =
      ((st' ≡ st) × ((r ≡ neg eagain) ⊎ (r ≡ neg enxio))) ⊎ ((r ≡ pos 0) × Done path dev st st')

  mount_found-Ended :
      (path : List ℕ) (dev : D) (o : Option F) (st st' : Vfs D F) (r : ℤ)
      → vfs_mount_fs dev st.filesystems ≡ o
      → mount_found path dev o st ≡ ok (r, st')
      → Ended path dev st r st'
  unfolding mount_found Ended
  mount_found-Ended path dev none st st' r accepts e =
      let same = ok-injective e in
      inl (sym (ap (λ (p : ℤ × Vfs D F). p.1) same), inr (sym (ap (λ (p : ℤ × Vfs D F). p.0) same)))
  mount_found-Ended path dev (some fs) st st' r accepts e =
      inr (set_mount-Done path dev fs st st' r accepts e)

  vfs_mount-Ended :
      (path : List ℕ) (dev : D) (st st' : Vfs D F) (r : ℤ)
      → vfs_mount path dev st ≡ ok (r, st')
      → Ended path dev st r st'
  unfolding vfs_mount
  vfs_mount-Ended path dev st st' r e =
      elim (Bool-cases (is_none st.root_mount && not (is_same root_path path))) [
        | inl early ↦
            let same = ok-injective (rw early at e) in
            unfold Ended in
            inl (
              sym (ap (λ (p : ℤ × Vfs D F). p.1) same),
              inl (sym (ap (λ (p : ℤ × Vfs D F). p.0) same)),
            )
        | inr late ↦
            mount_found-Ended path dev (vfs_mount_fs dev st.filesystems) st st' r refl
              (rw late at e)
      ]

  vfs_mount-early :
      (path : List ℕ) (dev : D) (st : Vfs D F)
      → IsText path
      → path ≢ root_path
      → st.root_mount ≡ none
      → vfs_mount path dev st ≡ ok (neg eagain, st)
  unfolding vfs_mount is_none
  vfs_mount-early path dev st h ne unrooted = elim (Bool-cases (is_same root_path path)) [
    | inl e ↦ absurd (ne (sym ((is_same_iff root_path path (omega arith) h).0 e)))
    | inr e ↦ rw (unrooted, e) refl
  ]

  Done-IsRooted :
      (path : List ℕ) (dev : D) (st st' : Vfs D F)
      → IsText path
      → IsRooted st
      → (path ≢ root_path → st.root_mount ≢ none)
      → Done path dev st st'
      → IsRooted st'
  unfolding new_mount
  Done-IsRooted path dev st st' h inv rooted done = elim (root_cases path h) [
    | inl (t, slash) ↦
        let root = rw t at done.root in
        record {
          first = λ e. let both = sym root ∙ e in cc;
          at_slash = λ m e.
              let both = sym root ∙ e in
              let same : new_mount path dev done.fs ≡ m = cc in
              sym (ap (λ (n : Mount D F). n.point) same) ∙ slash;
        }
    | inr (f, ne) ↦
        let root = rw f at done.root in
        record {
          first = λ e. absurd (rooted ne (sym root ∙ e));
          at_slash = λ m e. inv.at_slash m (sym root ∙ e);
        }
  ]

  -- On a path that is a string `vfs_mount`, failing or not, keeps a table well-formed: nothing is
  -- mounted before the root directory, and the root mount is at `/`.
  pub vfs_mount-IsRooted :
      (path : List ℕ) (dev : D) (st st' : Vfs D F) (r : ℤ)
      → IsText path
      → IsRooted st
      → vfs_mount path dev st ≡ ok (r, st')
      → IsRooted st'
  unfolding Ended
  vfs_mount-IsRooted path dev st st' r h inv e = elim (vfs_mount-Ended path dev st st' r e) [
    | inl (same, _) ↦ rw same inv
    | inr (zero_result, done) ↦
        Done-IsRooted path dev st st' h inv
          (λ ne unrooted.
            let both = sym (vfs_mount-early path dev st h ne unrooted) ∙ e in
            let refused = ap (λ (p : ℤ × Vfs D F). p.0) (ok-injective both) in cc)
          done
  ]

  check_mounts-append :
      (path : List ℕ) (m : Mount D F) (ms : List (Mount D F))
      → IsText path
      → HasText ms
      → Unmounted path ms
      → m.point ≡ path
      → check_mounts path (ms ++ (m ∷ [])) ≡ some m
  unfolding check_mounts
  check_mounts-append path m [] hp h free at =
      let same = (is_same_iff path path hp hp).1 refl in rw (at, same) refl
  check_mounts-append path m (m' ∷ ms) hp (hm, h) (ne, free) at =
      elim (Bool-cases (is_same m'.point path)) [
        | inl e ↦ absurd (ne ((is_same_iff m'.point path hm hp).0 e))
        | inr e ↦ rw e (check_mounts-append path m ms hp h free at)
      ]

  find_mount-append :
      (path : List ℕ) (m : Mount D F) (st : Vfs D F)
      → IsText path
      → path ≢ root_path
      → 2 ≤ length path
      → check_mounts path st.mounts ≡ some m
      → find_mount path st ≡ some m
  unfolding find_mount find_from or_shorter
  find_mount-append [] m st hp ne two e = absurd (omega arith)
  find_mount-append (a ∷ []) m st hp ne two e = absurd (omega arith)
  find_mount-append (a ∷ b ∷ path) m st hp ne two e = elim (root_cases (a ∷ b ∷ path) hp) [
    | inl (t, slash) ↦ absurd (ne slash)
    | inr (f, _) ↦ rw (f, take_all (length path) path (omega arith), e) refl
  ]

  find_mount-Done :
      (path : List ℕ) (dev : D) (st st' : Vfs D F)
      → IsText path
      → HasText st.mounts
      → Unmounted path st.mounts
      → (path ≡ root_path) ⊎ (2 ≤ length path)
      → (done : Done path dev st st') → find_mount path st' ≡ some (new_mount path dev done.fs)
  unfolding find_mount new_mount
  find_mount-Done path dev st st' hp ht free long done = elim (root_cases path hp) [
    | inl (t, slash) ↦ let root = rw t at done.root in rw (t, root) refl
    | inr (f, ne) ↦
        let m = new_mount path dev done.fs in
        let at_path = check_mounts-append path m st.mounts hp ht free refl in
        elim long [
          | inl slash ↦ absurd (ne slash)
          | inr two ↦ find_mount-append path m st' hp ne two (rw done.table at_path)
        ]
  ]

  -- Among mount points that are strings, a device whose mount on a free one succeeds, at `/` or at a
  -- path of two characters or more, is the one that `find_mount` then gives for that point, with the
  -- filesystem that took it.
  pub find_mount-vfs_mount :
      (path : List ℕ) (dev : D) (st st' : Vfs D F)
      → IsText path
      → HasText st.mounts
      → Unmounted path st.mounts
      → (path ≡ root_path) ⊎ (2 ≤ length path)
      → vfs_mount path dev st ≡ ok (pos 0, st')
      → (fs : F) × (vfs_mount_fs dev st.filesystems ≡ some fs)
        × (find_mount path st' ≡ some (record { point = path; fs = fs; dev = dev }))
  unfolding Ended new_mount
  find_mount-vfs_mount path dev st st' hp ht free long e =
      elim (vfs_mount-Ended path dev st st' (pos 0) e) [
        | inl (_, inl refused) ↦ cc
        | inl (_, inr refused) ↦ cc
        | inr (_, done) ↦
            (done.fs, done.accepts, find_mount-Done path dev st st' hp ht free long done)
      ]
