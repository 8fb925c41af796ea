-- ===== src/Fs/Ext2/Inode/Address.antt =====
-- Where on the disk fs/ext2/inode.c reads an inode.
use native.Mathlib.Nat.{mul-div-mul_right, div-add-mod', mod-lt}
use levos.Prelude.{ℕ, ◌+◌, ◌-◌, ◌*◌, ◌/◌, ◌%◌, ◌^◌, ◌≤◌, ◌<◌, ◌≡◌, ◌∙◌, sym, ap, arith, ◌==◌, false}
use levos.Fs.Ext2.Disk.{Volume, u32, sector_size, ext2_read_block}
use levos.Fs.Ext2.Inode.{inode_size, before, inode_block, inode_place}

-- What `ext2_mount` makes of a block size of 512 bytes or more: the sizes fit one another.
pub record IsVolume (v : Volume) : Type 0 where
  pub sectors : v.blocksize ≡ v.sectors_per_block * sector_size
  pub inodes : v.blocksize ≡ v.inodes_per_block * inode_size
  pub some_sectors : 0 < v.sectors_per_block
  pub some_inodes : 0 < v.inodes_per_block

-- The index of an inode in its table: inodes are numbered from 1.
abbrev pub index_of : Volume → ℕ → ℕ
index_of v ino = (ino - 1) % v.sb.inodes_in_blockgroup

before-eq : (ino : ℕ) → 0 < ino → ino < 2 ^ 32 → before ino ≡ ino - 1
before-eq ino numbered word = omega arith

inode_block-eq :
    (disk : ℕ → ℕ) (v : Volume) (ino table : ℕ)
    → IsVolume v
    → 0 < ino
    → ino < 2 ^ 32
    → index_of v ino * inode_size < 2 ^ 32
    → table + index_of v ino / v.inodes_per_block < 2 ^ 32
    → inode_block disk v ino table ≡ table + index_of v ino / v.inodes_per_block
inode_block-eq disk v ino table vol numbered word small fits =
    let index = before-eq ino numbered word in
    let e : u32 (index_of v ino * inode_size) ≡ index_of v ino * inode_size = omega arith in
    let cancel =
      mul-div-mul_right {m = inode_size} (index_of v ino) v.inodes_per_block (omega arith) in
    rw (index, e, vol.inodes, cancel) (omega arith)

block_address :
    (table index sectors inodes size : ℕ)
    → size ≡ sectors * sector_size
    → size ≡ inodes * inode_size
    → (table + index / inodes) * sectors * sector_size + index % inodes * inode_size
      ≡ table * size + index * inode_size
block_address table index sectors inodes size es ei = omega (
  arith,
  ap (λ (t : ℕ). table * t) es,
  ap (λ (t : ℕ). index / inodes * t) (sym es ∙ ei),
  div-add-mod' index inodes,
)

place_fits :
    (index inodes size : ℕ)
    → size ≡ inodes * inode_size
    → 0 < inodes
    → index % inodes * inode_size + inode_size ≤ size
place_fits index inodes size e some_inodes = omega (arith, mod-lt index {m = inodes} some_inodes)

-- On a volume whose sizes fit one another, and as long as no address wraps in 32 bits, the 128 bytes
-- that are copied as inode number `ino`, from 1 on, lie in the block that was read, and they are the bytes
-- of the disk 128 times the inode's index behind the table's first block. The index is `ino - 1`, counted
-- within the block group.
pub inode_address :
    (disk : ℕ → ℕ) (v : Volume) (ino table : ℕ)
    → IsVolume v
    → 0 < ino
    → ino < 2 ^ 32
    → index_of v ino * inode_size < 2 ^ 32
    → (table + index_of v ino / v.inodes_per_block) * v.sectors_per_block < 2 ^ 32
    → (inode_place disk v ino + inode_size
        ≤ (ext2_read_block disk v (inode_block disk v ino table)).size)
      × ((o : ℕ)
          → (ext2_read_block disk v (inode_block disk v ino table)).byte
              (inode_place disk v ino + o)
            ≡ disk (table * v.blocksize + index_of v ino * inode_size + o))
unfolding ext2_read_block
inode_address disk v ino table vol numbered word small fits =
    let index = before-eq ino numbered word in
    let q = index_of v ino / v.inodes_per_block in
    let low : table + q < 2 ^ 32 = grind (arith, vol.some_sectors) in
    let block = inode_block-eq disk v ino table vol numbered word small low in
    let there : (v.sectors_per_block == 0) ≡ false = ground (arith, vol.some_sectors) in
    let whole : u32 ((table + q) * v.sectors_per_block) ≡ (table + q) * v.sectors_per_block =
      omega arith in
    (
      rw (there, index)
          (omega (
            arith,
            vol.sectors,
            place_fits (index_of v ino) v.inodes_per_block v.blocksize vol.inodes vol.some_inodes,
          )),
      λ o.
          rw (there, block, whole, index)
            (ap disk (
              omega (
                arith,
                block_address table (index_of v ino) v.sectors_per_block v.inodes_per_block
                    v.blocksize vol.sectors vol.inodes,
              ))),
    )
