-- ===== src/Fs/Ext2/Lookup.antt =====
-- `ext2_find_file_inode` of fs/ext2/file.c: a path is walked name by name. It cuts its copy of the path
-- with strtok, so strtok's static pointer `sp` is part of its state.
pub mod Walk
use levos.Prelude.{ℕ, zero, suc, ◌+◌, List, [], ◌∷◌, ◌++◌, Option, none, some}
use levos.Prelude.Int.{ℤ, pos, negsuc, neg}
use levos.Prelude.Outcome.{Outcome, ok, hang, ◌>>=◌}
use levos.Prelude.Errno.{enoent}
use levos.Libc.Strtok.{strtok}
use levos.Fs.Ext2.Disk.{Volume}
use levos.Fs.Ext2.Dir.{ext2_read_directory}

abbrev pub slash : List ℕ
slash = b'/' ∷ []

abbrev pub root_inode : ℕ
root_inode = 2

-- The result and strtok's pointer afterwards.
abbrev pub Found : Type 0
Found = Outcome (ℤ × Option (List ℕ))

module _ (disk : ℕ → ℕ) (v : Volume) where
  -- One name was looked up; `next` goes on from the inode found.
  after_lookup : Option (List ℕ) → (ℕ → Found) → ℤ → Found
  after_lookup sp next (negsuc e) = ok (neg enoent, sp)
  after_lookup sp next (pos ino) = next ino

  -- `while (pch != 0)`, in the directory `ino`; `fuel` bounds the names. A name is read with the
  -- terminator that strtok put behind it.
  walk_tokens : ℕ → ℕ → Option (List ℕ) × Option (List ℕ) → Found
  walk_tokens zero ino (pch, sp) = hang
  walk_tokens (suc fuel) ino (none, sp) = ok (pos ino, sp)
  walk_tokens (suc fuel) ino (some pch, sp) =
      ext2_read_directory disk v ino (pch ++ (0 ∷ []))
      >>= after_lookup sp (λ found. walk_tokens fuel found (strtok none slash sp))

  -- `sp` is strtok's pointer before the call. A path without a name is the root directory.
  unfoldable pub ext2_find_file_inode : ℕ → List ℕ → Option (List ℕ) → Found
  unfolding walk_tokens after_lookup
  ext2_find_file_inode fuel path sp = walk_tokens fuel root_inode (strtok (some path) slash sp)
