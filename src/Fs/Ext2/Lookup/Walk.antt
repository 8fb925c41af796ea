-- ===== src/Fs/Ext2/Lookup/Walk.antt =====
-- Path lookup of fs/ext2/file.c against a walk through the directories, and what a failed lookup leaves.
use levos.Prelude.{
  ℕ, zero, suc, ◌≤◌, ◌<◌, ◌≡◌, refl, arith, List, [], ◌∷◌, ◌++◌, Option, none, some, length,
}
use levos.Prelude.Int.{ℤ, pos, negsuc, neg}
use levos.Prelude.Outcome.{Outcome, ok, panic, fault, hang, ◌>>=◌}
use levos.Prelude.Errno.{enoent}
use levos.Libc.Strtok.{strtok, scan}
use levos.Libc.Strtok.Components.{
  components, Scans, scan-Scans, next_call, strtok-fresh, strtok-stale,
}
use levos.Fs.Ext2.Disk.{Volume}
use levos.Fs.Ext2.Dir.{ext2_read_directory}
use levos.Fs.Ext2.Lookup.{slash, root_inode, Found, after_lookup, walk_tokens, ext2_find_file_inode}

module _ (disk : ℕ → ℕ) (v : Volume) where
  go_on : (ℕ → Outcome (Option ℕ)) → ℤ → Outcome (Option ℕ)
  go_on next (negsuc e) = ok none
  go_on next (pos ino) = next ino

  -- The inode at the end of a list of names, from a directory: `none` where a name is not found.
  pub walk : ℕ → List (List ℕ) → Outcome (Option ℕ)
  unfolding go_on
  walk ino [] = ok (some ino)
  walk ino (part ∷ parts) =
      ext2_read_directory disk v ino (part ++ (0 ∷ [])) >>= go_on (λ next. walk next parts)

  -- The lookup ends as the walk does. After a success strtok is ready for another path; after a
  -- failure it still holds the rest of this one.
  abbrev pub Agrees : Outcome (Option ℕ) → Found → Type 0
  Agrees (ok (some ino)) out = out ≡ ok (pos ino, none)
  Agrees (ok none) out = (rest : List ℕ) × (out ≡ ok (neg enoent, some rest))
  Agrees panic out = out ≡ panic
  Agrees fault out = out ≡ fault
  Agrees hang out = out ≡ hang

  Agrees-after :
      (d : Outcome ℤ) (parts : List (List ℕ)) (rest : List ℕ) (next : ℕ → Found)
      → ((ino : ℕ) → Agrees (walk ino parts) (next ino))
      → Agrees (d >>= go_on (λ ino. walk ino parts)) (d >>= after_lookup disk v (some rest) next)
  unfolding go_on after_lookup
  Agrees-after (ok (pos ino)) parts rest next h = h ino
  Agrees-after (ok (negsuc e)) parts rest next h = (rest, refl)
  Agrees-after panic parts rest next h = refl
  Agrees-after fault parts rest next h = refl
  Agrees-after hang parts rest next h = refl

  Agrees-step :
      (fuel ino n : ℕ) (parts : List (List ℕ)) (out : Option (List ℕ) × Option (List ℕ))
      → Scans slash n parts out
      → n ≤ fuel
      → ((r : List ℕ) (dir : ℕ)
          → length r < fuel
          → Agrees
              (walk dir (components slash r))
              (walk_tokens disk v fuel dir (scan slash (some r))))
      → Agrees (walk ino parts) (walk_tokens disk v (suc fuel) ino out)
  unfolding walk walk_tokens
  Agrees-step fuel ino n [] out e h ih = rw e refl
  Agrees-step fuel ino n (part ∷ parts) out (r, e, same, shorter) h ih = rw e (
      Agrees-after (ext2_read_directory disk v ino (part ++ (0 ∷ []))) parts r
        (λ found. walk_tokens disk v fuel found (strtok none slash (some r)))
        (λ found. rw (← same, next_call slash r (omega arith)) (ih r found (omega arith))))

  walk_tokens-Agrees :
      (fuel : ℕ) (r : List ℕ) (ino : ℕ)
      → length r < fuel
      → Agrees (walk ino (components slash r)) (walk_tokens disk v fuel ino (scan slash (some r)))
  walk_tokens-Agrees zero r ino h = absurd (omega arith)
  walk_tokens-Agrees (suc fuel) r ino h =
      Agrees-step fuel ino (length r) (components slash r) (scan slash (some r))
        (scan-Scans slash r) (omega arith) (λ r' dir h'. walk_tokens-Agrees fuel r' dir h')

  -- While strtok is ready for a new string, looking up a path is walking from the root directory
  -- through the names between its slashes: the lookup finds the inode that the walk ends at, it
  -- returns -ENOENT exactly where a name is not found, and it ends as the walk does where a read goes
  -- wrong. One more round than the path has characters is enough.
  pub find_file_inode-walk :
      (fuel : ℕ) (path : List ℕ)
      → length path < fuel
      → Agrees
          (walk root_inode (components slash path))
          (ext2_find_file_inode disk v fuel path none)
  unfolding ext2_find_file_inode
  find_file_inode-walk fuel path h =
      rw (strtok-fresh slash path (omega arith)) (walk_tokens-Agrees fuel path root_inode h)

  -- A lookup of a single name that fails leaves strtok with the rest of that path, which is empty: the
  -- next lookup, of whatever path, finds the root directory.
  pub failed_lookup_poisons :
      (fuel : ℕ) (path name : List ℕ) (e : ℕ)
      → components slash path ≡ name ∷ []
      → ext2_read_directory disk v root_inode (name ++ (0 ∷ [])) ≡ ok (negsuc e)
      → (rest : List ℕ) × (ext2_find_file_inode disk v (suc fuel) path none
          ≡ ok (neg enoent, some rest))
        × ((other : List ℕ)
            → ext2_find_file_inode disk v (suc fuel) other (some rest) ≡ ok (pos root_inode, none))
  unfolding ext2_find_file_inode walk_tokens after_lookup
  failed_lookup_poisons fuel path name e one missing =
      let (r, first, behind, shorter) = rw one at (scan-Scans slash path) in
      let nothing = rw behind at (scan-Scans slash r) in
      (
        r,
        rw (strtok-fresh slash path (omega arith), first, missing),
        λ other. rw (strtok-stale slash other r (omega arith), nothing),
      )
