-- ===== src/Fs/Ext2/Inode.antt =====
-- fs/ext2/inode.c: the read of an inode from the table of its block group.
pub mod Address
use levos.Prelude.{
  ℕ, suc, zero, ◌+◌, ◌-◌, ◌*◌, ◌/◌, ◌%◌, ◌^◌, List, [], ◌∷◌, ◌==◌, ◌||◌, leb, if◌then◌else◌,
}
use levos.Prelude.Outcome.{Outcome, ok, fault, ◌>>=◌}
use levos.Fs.Ext2.Disk.{Volume, Buffer, u32, read_u16, read_u32, ext2_read_block}

-- The fields of `struct ext2_inode` that the code uses.
pub record Inode : Type 0 where
  pub type : ℕ
  pub uid : ℕ
  pub size : ℕ
  pub gid : ℕ
  pub hardlinks : ℕ
  pub dbp : List ℕ
  pub singly_block : ℕ

abbrev pub inode_size : ℕ
inode_size = 128

-- The size of a block group descriptor, and where the block of the inode table stands in it.
abbrev bgd_size : ℕ
bgd_size = 32

abbrev table_field : ℕ
table_field = 8

-- `n` pointers from `i` on.
read_pointers : Buffer → ℕ → ℕ → Outcome (List ℕ)
read_pointers b zero i = ok []
read_pointers b (suc n) i = do p ← read_u32 b i; more ← read_pointers b n (i + 4); ok (p ∷ more)

-- `struct ext2_inode` at `i`.
unfoldable pub read_inode_at : Buffer → ℕ → Outcome Inode
unfolding read_pointers
read_inode_at b i = do
  type ← read_u16 b i
  uid ← read_u16 b (i + 2)
  size ← read_u32 b (i + 4)
  gid ← read_u16 b (i + 24)
  hardlinks ← read_u16 b (i + 26)
  dbp ← read_pointers b 12 (i + 40)
  singly ← read_u32 b (i + 88)
  ok (record {
    type = type;
    uid = uid;
    size = size;
    gid = gid;
    hardlinks = hardlinks;
    dbp = dbp;
    singly_block = singly;
  })

-- `inode - 1`, an `int` that is converted to 32 unsigned bits
abbrev pub before : ℕ → ℕ
before ino = u32 (ino + 2 ^ 32 - 1)

module _ (disk : ℕ → ℕ) where
  -- The block and the place in it that hold inode number `ino`, with the first block of its table.
  abbrev pub inode_block : Volume → ℕ → ℕ → ℕ
  inode_block v ino table =
      u32 (table + u32 (before ino % v.sb.inodes_in_blockgroup * inode_size) / v.blocksize)

  abbrev pub inode_place : Volume → ℕ → ℕ
  inode_place v ino = before ino % v.sb.inodes_in_blockgroup % v.inodes_per_block * inode_size

  -- The copy takes all 128 bytes, so a place too near the end of the buffer is a fault.
  copy_inode : Buffer → ℕ → Outcome Inode
  copy_inode b i = if leb (i + inode_size) b.size then read_inode_at b i else fault

  unfoldable pub ext2_read_inode : Volume → ℕ → Outcome Inode
  unfolding copy_inode
  ext2_read_inode v ino =
      if v.sb.inodes_in_blockgroup == 0 || v.blocksize == 0 || v.inodes_per_block == 0
      then fault
      else read_u32 (ext2_read_block disk v v.first_bgd)
          (before ino / v.sb.inodes_in_blockgroup * bgd_size + table_field)
        >>= λ table.
            copy_inode (ext2_read_block disk v (inode_block v ino table)) (inode_place v ino)
