-- ===== src/Fs/Ext2/Disk.antt =====
-- fs/ext2/super.c and fs/ext2/block.c: what is kept of a mounted volume, and the read of one block.
-- The device is a parameter: `disk` gives the byte at each address that its `read` delivers, in
-- sectors of 512 bytes. `malloc` is taken to succeed, as the source does.
use levos.Prelude.{ℕ, ◌+◌, ◌*◌, ◌/◌, ◌%◌, ◌^◌, not, ◌||◌, ◌==◌, leb, if◌then◌else◌}
use levos.Prelude.Int.{ℤ, neg}
use levos.Prelude.Outcome.{Outcome, ok, fault, ◌>>=◌}
use levos.Prelude.Errno.{enodev, einval}

-- The fields of `struct ext2_superblock` that the code uses.
pub record Superblock : Type 0 where
  pub blocks : ℕ
  pub superblock_id : ℕ
  pub blocksize_hint : ℕ
  pub blocks_in_blockgroup : ℕ
  pub inodes_in_blockgroup : ℕ
  pub ext2_sig : ℕ

-- `struct ext2_priv_data`
pub record Volume : Type 0 where
  pub sb : Superblock
  pub first_bgd : ℕ
  pub number_of_bgs : ℕ
  pub blocksize : ℕ
  pub sectors_per_block : ℕ
  pub inodes_per_block : ℕ

-- `size` bytes in memory, of which byte `i` is `byte i`.
pub record Buffer : Type 0 where
  pub size : ℕ
  pub byte : ℕ → ℕ

abbrev pub u32 : ℕ → ℕ
u32 n = n % 2 ^ 32

-- A little-endian field of 1, 2 or 4 bytes. A field behind the buffer is a fault.
unfoldable pub read_u8 : Buffer → ℕ → Outcome ℕ
read_u8 b i = if leb (i + 1) b.size then ok (b.byte i) else fault

unfoldable pub read_u16 : Buffer → ℕ → Outcome ℕ
read_u16 b i = if leb (i + 2) b.size then ok (b.byte i + 256 * b.byte (i + 1)) else fault

unfoldable pub read_u32 : Buffer → ℕ → Outcome ℕ
read_u32 b i =
    if leb (i + 4) b.size
    then ok (b.byte i + 256 * b.byte (i + 1) + 65536 * b.byte (i + 2) + 16777216 * b.byte (i + 3))
    else fault

abbrev pub sector_size : ℕ
sector_size = 512

module _ (disk : ℕ → ℕ) where
  -- `dev->read(dev, buf, count, pos)`
  abbrev pub read_sectors : ℕ → ℕ → Buffer
  read_sectors count sector = record {
    size = count * sector_size;
    byte = λ i. disk (sector * sector_size + i);
  }

  unfoldable pub ext2_read_block : Volume → ℕ → Buffer
  ext2_read_block v block =
      let spb = if v.sectors_per_block == 0 then 1 else v.sectors_per_block in
      read_sectors spb (u32 (block * spb))

unfoldable pub read_superblock : Buffer → Outcome Superblock
read_superblock b = do
  blocks ← read_u32 b 4
  id ← read_u32 b 20
  hint ← read_u32 b 24
  group_blocks ← read_u32 b 32
  group_inodes ← read_u32 b 40
  sig ← read_u16 b 56
  ok (record {
    blocks = blocks;
    superblock_id = id;
    blocksize_hint = hint;
    blocks_in_blockgroup = group_blocks;
    inodes_in_blockgroup = group_inodes;
    ext2_sig = sig;
  })

abbrev pub ext2_signature : ℕ
ext2_signature = 0xEF53

-- the result of `ext2_mount`: a filesystem, or an error pointer
pub data Mounted : Type 0 where
  mounted : Volume → Mounted
  failed : ℤ → Mounted

-- A shift by 32 or more has no meaning in C, and neither has a division by 0.
unfoldable pub volume_of : Superblock → Outcome Mounted
volume_of sb =
    let size = u32 (1024 * 2 ^ sb.blocksize_hint) in
    if not (sb.ext2_sig == ext2_signature)
    then ok (failed (neg einval))
    else if leb 32 sb.blocksize_hint || sb.blocks_in_blockgroup == 0 || size == 0
    then fault
    else ok (
        mounted (record {
          sb = sb;
          first_bgd = u32 (sb.superblock_id + 1024 / size);
          number_of_bgs =
              let groups = sb.blocks / sb.blocks_in_blockgroup in if groups == 0 then 1 else groups;
          blocksize = size;
          sectors_per_block = size / 512;
          inodes_per_block = size / 128;
        }))

module _ (disk : ℕ → ℕ) where
  -- `type` is the device's; 4 is DEV_TYPE_BLK.
  unfoldable pub ext2_mount : ℕ → Outcome Mounted
  ext2_mount type =
      if not (type == 4)
      then ok (failed (neg enodev))
      else read_superblock (read_sectors disk 2 2) >>= volume_of
