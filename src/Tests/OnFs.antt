-- ===== src/Tests/OnFs.antt =====
-- fs/ at concrete inputs.
use levos.Prelude.{
  ℕ, true, replicate, ◌<◌, ◌+◌, ◌*◌, ◌≤◌, ◌≡◌, refl, sym, ap, arith, List, [], ◌∷◌, ◌++◌, Option,
  none, some, ◌==◌, inr, if◌then◌else◌,
}
use levos.Prelude.Int.{pos, neg}
use levos.Prelude.Errno.{enoent, einval}
use levos.Prelude.Outcome.{ok, panic, fault}
use levos.Libc.Str.{strcmp, strncmp}
use levos.Libc.Strtok.{is_delim, strtok}
use levos.Libc.Strtok.Components.{components}
use levos.Fs.Ext2.Disk.{
  Superblock, Volume, Buffer, ext2_read_block, ext2_mount, mounted, volume_of, read_superblock,
  read_sectors, read_u8, read_u16, read_u32, ext2_signature,
}
use levos.Fs.Ext2.Mounted.{ext2_mount-IsVolume}
use levos.Fs.Ext2.Inode.{
  Inode, inode_size, inode_block, inode_place, ext2_read_inode, read_inode_at,
}
use levos.Fs.Ext2.Inode.Address.{IsVolume, index_of, inode_address}
use levos.Fs.Ext2.Dir.{
  DirEntry, read_entry, search_block, search_blocks, search_inode, ext2_read_directory,
}
use levos.Fs.Ext2.Lookup.{slash, root_inode, ext2_find_file_inode}
use levos.Fs.Ext2.Lookup.Walk.{walk, Agrees, find_file_inode-walk, failed_lookup_poisons}
use levos.Fs.Ext2.File.{Stat, File, opened, Reading, ext2_open, ext2_stat, ext2_read_file}
use levos.Fs.Ext2.File.Read.{IsAt, block_of, ext2_read_file-bytes, ext2_read_file-overrun}
use levos.Fs.Vfs.{
  Driver, Mount, Vfs, check_mounts, root_path, find_mount, is_same, set_mount, vfs_mount,
  vfs_mount_fs, register_fs, vfs_open, vfs_stat,
}
use levos.Fs.Vfs.Table.{Found, find_mount-Found}
use levos.Fs.Vfs.Mounting.{IsRooted, vfs_mount-IsRooted, find_mount-vfs_mount}

-- A disk with a superblock of 1 KiB blocks, 8192 blocks in a group and 16 inodes in a group, whose block
-- group descriptor in block 2 has the inode table in block 5. Inode 2 has a directory in block 9.
abbrev small_disk : ℕ → ℕ
small_disk a =
    if a == 1024 + 5
    then 4
    else if a == 1024 + 20
    then 1
    else if a == 1024 + 33
    then 32
    else if a == 1024 + 40
    then 16
    else if a == 1024 + 56
    then 0x53
    else if a == 1024 + 57
    then 0xEF
    else if a == 2048 + 8
    then 5
    else if a == 5 * 1024 + 128 + 40
    then 9
    else if a == 9 * 1024
    then 12
    else if a == 9 * 1024 + 5
    then 4
    else if a == 9 * 1024 + 6
    then 1
    else if a == 9 * 1024 + 8
    then b'a'
    else 0

abbrev small_superblock : Superblock
small_superblock = record {
  blocks = 1024;
  superblock_id = 1;
  blocksize_hint = 0;
  blocks_in_blockgroup = 8192;
  inodes_in_blockgroup = 16;
  ext2_sig = 0xEF53;
}

abbrev small_volume : Volume
small_volume = record {
  sb = small_superblock;
  first_bgd = 2;
  number_of_bgs = 1;
  blocksize = 1024;
  sectors_per_block = 2;
  inodes_per_block = 8;
}

abbrev block_device : ℕ
block_device = 4

mount-small : ext2_mount small_disk block_device ≡ ok (mounted small_volume)
unfolding ext2_mount volume_of read_superblock read_u32 read_u16
mount-small = refl

ext2_mount-IsVolume_example :
    (block_device ≡ 4)
    × (read_superblock (read_sectors small_disk 2 2) ≡ ok small_superblock)
    × (small_superblock.ext2_sig ≡ ext2_signature)
    × IsVolume small_volume
ext2_mount-IsVolume_example = ext2_mount-IsVolume small_disk block_device small_volume mount-small

small_volume-IsVolume : IsVolume small_volume
small_volume-IsVolume = record {
  sectors = refl;
  inodes = refl;
  some_sectors = omega arith;
  some_inodes = omega arith;
}

inode_address_example :
    (inode_place small_disk small_volume 2 + inode_size
      ≤ (ext2_read_block small_disk small_volume (inode_block small_disk small_volume 2 5)).size)
    × ((o : ℕ)
        → (ext2_read_block small_disk small_volume (inode_block small_disk small_volume 2 5)).byte
            (inode_place small_disk small_volume 2 + o)
          ≡ small_disk (5 * 1024 + index_of small_volume 2 * inode_size + o))
inode_address_example =
    inode_address small_disk small_volume 2 5 small_volume-IsVolume (omega arith) (omega arith)
      (omega arith) (omega arith)

-- A directory entry with the name `a` for inode 12.
abbrev entry_a : Buffer
entry_a = record {
  size = 16;
  byte = λ i.
      if i == 0
      then 12
      else if i == 4
      then 16
      else if i == 6
      then 1
      else if i == 8
      then b'a'
      else 0;
}

abbrev dir_entry_a : DirEntry
dir_entry_a = record { inode = 12; size = 16; namelength = 1 }

abbrev name_ab : List ℕ
name_ab = b'a' ∷ b'b' ∷ 0 ∷ []

read_entry_a : read_entry entry_a 0 ≡ ok dir_entry_a
unfolding read_entry read_u32 read_u16 read_u8
read_entry_a = refl

abbrev regular_file : Inode
regular_file = record {
  type = 0x8000;
  uid = 0;
  size = 12;
  gid = 0;
  hardlinks = 1;
  dbp = 9 ∷ [];
  singly_block = 0;
}

abbrev path_a : List ℕ
path_a = b'/' ∷ b'a' ∷ []

find_file_inode-walk_example :
    Agrees small_disk small_volume
      (walk small_disk small_volume root_inode (components slash path_a))
      (ext2_find_file_inode small_disk small_volume 3 path_a none)
find_file_inode-walk_example = find_file_inode-walk small_disk small_volume 3 path_a (omega arith)

abbrev name_b : List ℕ
name_b = b'b' ∷ []

no_b : ext2_read_directory small_disk small_volume root_inode (name_b ++ (0 ∷ [])) ≡ ok (neg enoent)
unfolding ext2_read_directory ext2_read_inode ext2_read_block read_inode_at search_inode
    search_blocks search_block read_entry read_u32 read_u16 read_u8 strncmp
no_b = refl

components_b : components slash name_b ≡ name_b ∷ []
unfolding components is_delim
components_b = refl

failed_lookup_poisons_example :
    (rest : List ℕ) × (ext2_find_file_inode small_disk small_volume 3 name_b none
      ≡ ok (neg enoent, some rest))
    × ((other : List ℕ)
        → ext2_find_file_inode small_disk small_volume 3 other (some rest)
          ≡ ok (pos root_inode, none))
failed_lookup_poisons_example =
    failed_lookup_poisons small_disk small_volume 2 name_b name_b 1 components_b no_b

-- The root directory, as the disk has it.
abbrev root_directory : Inode
root_directory = record {
  type = 0;
  uid = 0;
  size = 0;
  gid = 0;
  hardlinks = 0;
  dbp = 9 ∷ replicate 11 0;
  singly_block = 0;
}

root-IsAt : IsAt small_disk small_volume 3 root_path root_directory
unfolding ext2_find_file_inode strtok ext2_read_inode ext2_read_block read_inode_at read_u32
    read_u16 read_u8
root-IsAt = record { number = 2; found = refl; read = refl }

abbrev root_file : ℕ → File
root_file at = record { respath = root_path; pos = at }

opened_root : ext2_open true root_path ≡ opened (root_file 0)
unfolding ext2_open
opened_root = refl

ext2_read_file-bytes_example :
    (out : Reading) × (ext2_read_file small_disk small_volume 3
        (root_file 5)
        10
        (λ _. 0)
        (λ _. 0)
        none
      ≡ ok out)
    × (out.result ≡ pos 10)
    × (out.file ≡ root_file 15)
    × ((o q r : ℕ)
        → o < 10
        → r < 1024
        → 5 + o ≡ q * 1024 + r
        → out.bytes o ≡ (block_of small_disk small_volume 3 root_directory q).byte r)
ext2_read_file-bytes_example =
    ext2_read_file-bytes small_disk small_volume 3 (root_file 5) root_directory 10 (λ _. 0) (λ _. 0)
      small_volume-IsVolume root-IsAt (omega arith) (omega arith) (omega arith)

ext2_read_file-overrun_example :
    ext2_read_file small_disk small_volume 3 (root_file 1000) 100 (λ _. 0) (λ _. 0) none ≡ fault
ext2_read_file-overrun_example =
    ext2_read_file-overrun small_disk small_volume 3 (root_file 1000) root_directory 100 (λ _. 0)
      (λ _. 0) small_volume-IsVolume root-IsAt (omega arith) (omega arith) (omega arith)

stat_root :
    (st : Stat) × (sp : Option (List ℕ)) × (ext2_stat small_disk small_volume 3 true root_path none
      ≡ ok (pos 0, some st, sp))
    × (st.st_ino ≡ 2)
unfolding ext2_stat ext2_find_file_inode strtok ext2_read_inode ext2_read_block read_inode_at
    read_u32 read_u16 read_u8
stat_root = (_, _, refl, refl)

abbrev dev : List ℕ
dev = b'/' ∷ b'd' ∷ b'e' ∷ b'v' ∷ []

abbrev dev_tty : List ℕ
dev_tty = b'/' ∷ b'd' ∷ b'e' ∷ b'v' ∷ b'/' ∷ b't' ∷ []

-- A driver that takes each device but number 0.
abbrev driver : Driver ℕ ℕ
driver = record { mount = some (λ d. if d == 0 then none else some (d + 100)) }

abbrev root_mount : Mount ℕ ℕ
root_mount = record { point = root_path; fs = 101; dev = 1 }

abbrev dev_mount : Mount ℕ ℕ
dev_mount = record { point = dev; fs = 102; dev = 2 }

abbrev rooted : Vfs ℕ ℕ
rooted = record {
  mounts = root_mount ∷ [];
  root_mount = some root_mount;
  filesystems = driver ∷ [];
}

abbrev with_dev : Vfs ℕ ℕ
with_dev = record rooted { mounts = root_mount ∷ dev_mount ∷ [] }

mount_dev : vfs_mount dev 2 rooted ≡ ok (pos 0, with_dev)
unfolding vfs_mount vfs_mount_fs set_mount is_same strcmp
mount_dev = refl

rooted-IsRooted : IsRooted rooted
rooted-IsRooted = record { first = λ e. cc; at_slash = λ m e. sym (ap point_of e) }
  where
    point_of : Option (Mount ℕ ℕ) → List ℕ
    point_of none = []
    point_of (some m) = m.point

find_mount-Found_example : Found with_dev dev_tty 6 (find_mount dev_tty with_dev)
find_mount-Found_example = find_mount-Found dev_tty with_dev (omega arith) (omega arith)

vfs_mount-IsRooted_example : IsRooted with_dev
vfs_mount-IsRooted_example =
    vfs_mount-IsRooted dev 2 rooted with_dev (pos 0) (omega arith) rooted-IsRooted mount_dev

find_mount-vfs_mount_example :
    (fs : ℕ) × (vfs_mount_fs 2 rooted.filesystems ≡ some fs)
    × (find_mount dev with_dev ≡ some (record { point = dev; fs = fs; dev = 2 }))
find_mount-vfs_mount_example =
    find_mount-vfs_mount dev 2 rooted with_dev (omega arith) (omega arith) ((λ e. cc), tt)
      (inr (omega arith)) mount_dev

register_fs-null : register_fs none rooted ≡ ok (neg einval, rooted)
unfolding register_fs
register_fs-null = refl

vfs_open-dev : vfs_open (λ fs path. ok fs) dev_tty with_dev ≡ ok 102
unfolding vfs_open find_mount check_mounts is_same strcmp
vfs_open-dev = refl

vfs_stat-unmounted :
    vfs_stat (λ fs. none) dev (record with_dev { mounts = []; root_mount = none }) ≡ panic
unfolding vfs_stat find_mount check_mounts is_same strcmp
vfs_stat-unmounted = refl
