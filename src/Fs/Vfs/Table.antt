-- ===== src/Fs/Vfs/Table.antt =====
-- `find_mount` of fs/vfs.c: the longest mount point that the path begins with.
use levos.Prelude.{
  ℕ, zero, suc, ◌≤◌, ◌<◌, ◌≡◌, ◌≢◌, ◌↔◌, ◌∙◌, refl, sym, ap, arith, List, [], ◌∷◌, Option, none,
  some, true, ◌==◌, length, take, All, Bool-cases, inl, inr,
}
use mathlib.Core.Bool.{false≢true}
use levos.Libc.Str.Compare.{IsText, strcmp_iff}
use levos.Fs.Vfs.{is_same, root_path, Mount, Vfs, check_mounts, or_shorter, find_from, find_mount}

pub is_same_iff : (s t : List ℕ) → IsText s → IsText t → (is_same s t ≡ true) ↔ (s ≡ t)
unfolding is_same
is_same_iff s t hs ht =
    let (n, run, same) = strcmp_iff s t [] [] hs ht in
    rw run (λ e. same.0 (ground arith), λ e. ground (arith, same.1 e))

pub IsText-take : (n : ℕ) (s : List ℕ) → IsText s → IsText (take n s)
IsText-take zero s h = tt
IsText-take (suc n) [] h = tt
IsText-take (suc n) (c ∷ s) (hc, h) = (hc, IsText-take n s h)

module _ {D F : Type 0} where
  -- Every mount point is a string.
  abbrev pub HasText : List (Mount D F) → Type 0
  HasText = All (λ m. IsText m.point)

  -- No mount is at the point.
  abbrev pub Unmounted : List ℕ → List (Mount D F) → Type 0
  Unmounted str = All (λ m. m.point ≢ str)

  -- The mount is in the table, behind mounts at other points.
  pub data FirstAt (str : List ℕ) (m : Mount D F) : List (Mount D F) → Type 0 where
    here : {ms : List (Mount D F)} → m.point ≡ str → FirstAt str m (m ∷ ms)
    later :
        {m' : Mount D F} {ms : List (Mount D F)}
        → m'.point ≢ str
        → FirstAt str m ms
        → FirstAt str m (m' ∷ ms)

  abbrev Checked : List ℕ → List (Mount D F) → Option (Mount D F) → Type 0
  Checked str ms none = Unmounted str ms
  Checked str ms (some m) = FirstAt str m ms

  Checked-later :
      (str : List ℕ) (m : Mount D F) (ms : List (Mount D F)) (o : Option (Mount D F))
      → m.point ≢ str
      → Checked str ms o
      → Checked str (m ∷ ms) o
  Checked-later str m ms none ne h = (ne, h)
  Checked-later str m ms (some m') ne h = later ne h

  pub check_mounts-Checked :
      (str : List ℕ) (ms : List (Mount D F))
      → IsText str
      → HasText ms
      → Checked str ms (check_mounts str ms)
  unfolding check_mounts
  check_mounts-Checked str [] hs h = tt
  check_mounts-Checked str (m ∷ ms) hs (hm, h) =
      let same = is_same_iff m.point str hm hs in
      elim (Bool-cases (is_same m.point str)) [
        | inl e ↦ rw e (here (same.0 e))
        | inr e ↦ rw e (
            Checked-later str m ms (check_mounts str ms) (λ eq. false≢true (sym e ∙ same.1 eq))
              (check_mounts-Checked str ms hs h))
      ]

  -- What the search finds among the first `n` characters or fewer.
  pub data Found (st : Vfs D F) (path : List ℕ) (n : ℕ) : Option (Mount D F) → Type 0 where
    at_prefix :
        (k : ℕ) (m : Mount D F)
        → 2 ≤ k
        → k ≤ n
        → FirstAt (take k path) m st.mounts
        → ((j : ℕ) → k < j → j ≤ n → Unmounted (take j path) st.mounts)
        → Found st path n (some m)
    at_root :
        {o : Option (Mount D F)}
        → o ≡ st.root_mount
        → ((j : ℕ) → 2 ≤ j → j ≤ n → Unmounted (take j path) st.mounts)
        → Found st path n o

  Found-shorter :
      (st : Vfs D F) (path : List ℕ) (n : ℕ) (o : Option (Mount D F))
      → Unmounted (take (suc n) path) st.mounts
      → Found st path n o
      → Found st path (suc n) o
  Found-shorter st path n o none_here (at_prefix k m two le first longer) =
      at_prefix k m two (omega arith) first (λ j lo hi. elim (Bool-cases (j == suc n)) [
        | inl e ↦ let same : j ≡ suc n = ground arith in rw same none_here
        | inr e ↦ longer j lo (ground arith)
      ])
  Found-shorter st path n o none_here (at_root e h) = at_root e (λ j lo hi.
      elim (Bool-cases (j == suc n)) [
        | inl e' ↦ let same : j ≡ suc n = ground arith in rw same none_here
        | inr e' ↦ h j lo (ground arith)
      ])

  Found-step :
      (st : Vfs D F) (path : List ℕ) (n : ℕ) (o rest : Option (Mount D F))
      → Checked (take (suc (suc n)) path) st.mounts o
      → Found st path (suc n) rest
      → Found st path (suc (suc n)) (or_shorter o rest)
  unfolding or_shorter
  Found-step st path n none rest c h = Found-shorter st path (suc n) rest c h
  Found-step st path n (some m) rest c h =
      at_prefix (suc (suc n)) m (omega arith) (omega arith) c (λ j lo hi. absurd (omega arith))

  find_from-Found :
      (st : Vfs D F) (path : List ℕ) (n : ℕ)
      → IsText path
      → HasText st.mounts
      → Found st path n (find_from st path n)
  unfolding find_from
  find_from-Found st path zero hp hm = at_root refl (λ j lo hi. absurd (omega arith))
  find_from-Found st path (suc zero) hp hm = at_root refl (λ j lo hi. absurd (omega arith))
  find_from-Found st path (suc (suc n)) hp hm =
      Found-step st path n (check_mounts (take (suc (suc n)) path) st.mounts)
        (find_from st path (suc n))
        (check_mounts-Checked (take (suc (suc n)) path) st.mounts
          (IsText-take (suc (suc n)) path hp) hm)
        (find_from-Found st path (suc n) hp hm)

  -- For a path and mount points that are strings, `find_mount` returns the first mount in the table
  -- whose point is the longest possible beginning, of two characters or more, of the path, and the root
  -- mount if no mount point is such a beginning. The beginnings are cut by characters, not by names.
  pub find_mount-Found :
      (path : List ℕ) (st : Vfs D F)
      → IsText path
      → HasText st.mounts
      → Found st path (length path) (find_mount path st)
  unfolding find_mount
  find_mount-Found path st hp hm = elim (Bool-cases (is_same path root_path)) [
    | inl e ↦
        let slash : path ≡ root_path = (is_same_iff path root_path hp (omega arith)).0 e in
        rw e (at_root refl (λ j lo hi. absurd (omega (arith, ap length slash))))
    | inr e ↦ rw e (find_from-Found st path (length path) hp hm)
  ]
