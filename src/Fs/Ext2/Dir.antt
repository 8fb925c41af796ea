-- ===== src/Fs/Ext2/Dir.antt =====
-- fs/ext2/dir.c: the search of a directory for a name.
pub mod Match
use levos.Prelude.{
  ℕ, zero, suc, ◌+◌, ◌-◌, ◌*◌, ◌^◌, List, [], ◌∷◌, Option, none, some, not, bit_and, ◌==◌, ◌||◌,
  ltb, leb, if◌then◌else◌, get_or,
}
use levos.Prelude.Int.{ℤ, pos, negsuc, neg}
use levos.Prelude.Outcome.{Outcome, ok, fault, hang, ◌>>=◌}
use levos.Prelude.Errno.{enoent, enotdir}
use levos.Libc.Str.{strncmp}
use levos.Fs.Ext2.Disk.{Volume, Buffer, read_u8, read_u16, read_u32, ext2_read_block}
use levos.Fs.Ext2.Inode.{Inode, ext2_read_inode}

-- `int k = d->inode`
abbrev pub to_int : ℕ → ℤ
to_int n = if ltb n (2 ^ 31) then pos n else negsuc (2 ^ 32 - 1 - n)

-- The `n` bytes of a buffer from `i` on.
abbrev pub bytes_from : (ℕ → ℕ) → ℕ → ℕ → List ℕ
bytes_from byte zero i = []
bytes_from byte (suc n) i = byte i ∷ bytes_from byte n (i + 1)

-- `&d->reserved + 1`: the bytes from the name of the entry at `r` to the end of the buffer.
abbrev pub name_at : Buffer → ℕ → List ℕ
name_at b r = bytes_from b.byte (b.size - (r + 8)) (r + 8)

-- `struct ext2_dir` at `r`.
pub record DirEntry : Type 0 where
  pub inode : ℕ
  pub size : ℕ
  pub namelength : ℕ

unfoldable pub read_entry : Buffer → ℕ → Outcome DirEntry
read_entry b r = do
  inode ← read_u32 b r
  size ← read_u16 b (r + 4)
  namelength ← read_u8 b (r + 6)
  ok (record { inode = inode; size = size; namelength = namelength })

-- The entry is the one looked for, or the search goes on behind it; `rest` is the rest of the loop.
after_compare : DirEntry → ℕ → Outcome (Option ℕ) → Outcome (Option ℕ)
after_compare d compared rest =
    if compared == 0
    then ok (some d.inode)
    else if d.size == 0 || d.namelength == 0
    then ok none
    else rest

-- `while (r < blocksize)`: `none` if no entry of the block matches. `fuel` bounds the rounds.
unfoldable pub search_block : ℕ → ℕ → Buffer → List ℕ → ℕ → Outcome (Option ℕ)
unfolding after_compare
search_block zero blocksize b f r = hang
search_block (suc fuel) blocksize b f r =
    let visit = (do
      d ← read_entry b r
      compared ← strncmp (name_at b r) f d.namelength
      let rest = search_block fuel blocksize b f (r + d.size)
      after_compare d compared rest) in
    if ltb r blocksize then visit else ok none

module _ (disk : ℕ → ℕ) where
  found_or : Option ℕ → Outcome ℤ → Outcome ℤ
  found_or none rest = rest
  found_or (some inode) rest = ok (to_int inode)

  -- One block of the directory: it is searched if its first entry is in use.
  in_block : Volume → Buffer → List ℕ → Outcome ℤ → Outcome ℤ
  in_block v b f rest = read_entry b 0 >>= λ d.
      if d.size == 0 || d.namelength == 0
      then ok (neg enoent)
      else search_block (v.blocksize + 1) v.blocksize b f 0 >>= λ found. found_or found rest

  -- The loop over the block pointers, with those that are left.
  unfoldable pub search_blocks : Volume → List ℕ → List ℕ → Outcome ℤ
  unfolding in_block found_or
  search_blocks v [] f = ok (neg enoent)
  search_blocks v (p ∷ dbp) f =
      let rest = search_blocks v dbp f in in_block v (ext2_read_block disk v p) f rest

  -- `inode->type & 0x4000 == 0` compares before it masks.
  unfoldable pub search_inode : Volume → List ℕ → Inode → Outcome ℤ
  search_inode v f inode =
      let test = if 0x4000 == 0 then 1 else 0 in
      if not (bit_and inode.type test == 0) then ok (neg enotdir) else search_blocks v inode.dbp f

  -- `f` is the name looked for with its terminator.
  unfoldable pub ext2_read_directory : Volume → ℕ → List ℕ → Outcome ℤ
  unfolding search_inode
  ext2_read_directory v dino f = ext2_read_inode disk v dino >>= search_inode v f
