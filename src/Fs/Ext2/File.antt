-- ===== src/Fs/Ext2/File.antt =====
-- fs/ext2/file.c: stat, open, read and write of files. `malloc` is taken to succeed; what a new block of
-- memory holds is a parameter, `fresh`. Each lookup of the path changes strtok's pointer `sp`.
pub mod Read
use levos.Prelude.{
  ℕ, zero, suc, ◌+◌, ◌-◌, ◌*◌, ◌/◌, ◌%◌, ◌^◌, List, Option, none, some, Bool, true, false, not,
  ◌&&◌, ◌||◌, ◌==◌, ltb, leb, if◌then◌else◌, get_or,
}
use levos.Prelude.Int.{ℤ, pos, negsuc, neg}
use levos.Prelude.Errno.{einval, enosys, erofs}
use levos.Prelude.Outcome.{Outcome, ok, fault, ◌>>=◌}
use levos.Fs.Ext2.Disk.{Volume, Buffer, ext2_read_block}
use levos.Fs.Ext2.Inode.{Inode, ext2_read_inode}
use levos.Fs.Ext2.Lookup.{ext2_find_file_inode}

-- The fields of `struct stat` that are not always 0.
pub record Stat : Type 0 where
  pub st_ino : ℕ
  pub st_mode : ℕ
  pub st_nlink : ℕ
  pub st_uid : ℕ
  pub st_size : ℕ

-- The fields of `struct file` that change from file to file.
pub record File : Type 0 where
  pub respath : List ℕ
  pub pos : ℕ

-- The result of `ext2_open`: a file, or an error pointer.
pub data Opened : Type 0 where
  opened : File → Opened
  refused : ℤ → Opened

-- `valid` says that neither pointer is null.
unfoldable pub ext2_open : Bool → List ℕ → Opened
ext2_open valid p =
    if not valid then refused (neg einval) else opened (record { respath = p; pos = 0 })

unfoldable pub ext2_write_file : File → ℕ → ℤ
ext2_write_file f count = neg erofs

-- strtok's pointer goes along with a result.
abbrev pub Sp : Type 0
Sp = Option (List ℕ)

-- What a read returns, the bytes that it stores, the file and strtok's pointer afterwards.
pub record Reading : Type 0 where
  pub result : ℤ
  pub bytes : ℕ → ℕ
  pub file : File
  pub sp : Sp

module _ (disk : ℕ → ℕ) (v : Volume) (fuel : ℕ) where
  fill_stat : ℕ → Sp → Inode → Outcome (ℤ × Option Stat × Sp)
  fill_stat ino sp inode = ok (
    pos 0,
    some (record {
      st_ino = ino % 2 ^ 16;
      st_mode = inode.type;
      st_nlink = inode.hardlinks;
      st_uid = inode.uid;
      st_size = inode.size;
    }),
    sp,
  )

  stat_found : ℤ × Sp → Outcome (ℤ × Option Stat × Sp)
  stat_found (negsuc e, sp) = ok (negsuc e, none, sp)
  stat_found (pos ino, sp) = ext2_read_inode disk v ino >>= fill_stat ino sp

  unfoldable pub ext2_stat : Bool → List ℕ → Sp → Outcome (ℤ × Option Stat × Sp)
  unfolding stat_found fill_stat
  ext2_stat valid p sp =
      if not valid
      then ok (neg einval, none, sp)
      else ext2_find_file_inode disk v fuel p sp >>= stat_found

  -- Block `b` of a file. Behind the direct blocks the code indexes the indirect block by a variable that
  -- it has just declared and not set: a fault.
  file_block : ℕ → Sp → Inode → Outcome (ℤ × Option Buffer × Sp)
  file_block b sp inode =
      if ltb b 12
      then ok (pos 0, some (ext2_read_block disk v (get_or inode.dbp b 0)), sp)
      else if ltb b (v.blocksize / 4)
      then fault
      else ok (neg enosys, none, sp)

  block_found : ℕ → ℤ × Sp → Outcome (ℤ × Option Buffer × Sp)
  block_found b (negsuc e, sp) = ok (negsuc e, none, sp)
  block_found b (pos ino, sp) = ext2_read_inode disk v ino >>= file_block b sp

  -- The bytes that the block read stores, if there are any.
  unfoldable pub ext2_file_read_block : File → ℕ → Sp → Outcome (ℤ × Option Buffer × Sp)
  unfolding block_found file_block
  ext2_file_read_block f b sp = ext2_find_file_inode disk v fuel f.respath sp >>= block_found b

  -- A block that was read, stored at `at`. The result of the read is not looked at.
  store : ℕ → Option Buffer → (ℕ → ℕ) → ℕ → ℕ
  store at none m = m
  store at (some b) m = λ a. if leb at a && ltb a (at + b.size) then b.byte (a - at) else m a

  stored : ℕ → (ℕ → ℕ) → ℤ × Option Buffer × Sp → Outcome ((ℕ → ℕ) × Sp)
  stored i m (r, b, sp) = ok (store (i * v.blocksize) b m, sp)

  -- The first read and the loop over `i`: `rounds` blocks of the file from block `cblock + i` on.
  read_blocks : File → ℕ → ℕ → ℕ → (ℕ → ℕ) × Sp → Outcome ((ℕ → ℕ) × Sp)
  read_blocks f cblock zero i (m, sp) = ok (m, sp)
  read_blocks f cblock (suc rounds) i (m, sp) =
      ext2_file_read_block f (cblock + i) sp >>= stored i m >>= read_blocks f cblock rounds (i + 1)

  -- The copy of `count` bytes from the blocks, which are `size` bytes: more would be read behind them.
  copy_out : File → ℕ → ℕ → (ℕ → ℕ) × Sp → Outcome Reading
  copy_out f count size (block, sp) =
      let coff = f.pos - f.pos / v.blocksize * v.blocksize in
      if ltb size (coff + count)
      then fault
      else ok (record {
        result = pos count;
        bytes = λ o. block (coff + o);
        file = record f { pos = f.pos + count };
        sp = sp;
      })

  -- `buf`, before the read, holds `bytes`.
  read_found : File → ℕ → (ℕ → ℕ) → (ℕ → ℕ) → ℤ × Sp → Outcome Reading
  read_found f count fresh bytes (negsuc e, sp) =
      ok (record { result = negsuc e; bytes = bytes; file = f; sp = sp })
  read_found f count fresh bytes (pos ino, sp) =
      if v.blocksize == 0
      then fault
      else read_blocks f (f.pos / v.blocksize) (count / v.blocksize + 1) 0 (fresh, sp)
        >>= copy_out f count (v.blocksize * (count / v.blocksize + 1))

  -- `f` and `buf` are not null.
  unfoldable pub ext2_read_file : File → ℕ → (ℕ → ℕ) → (ℕ → ℕ) → Sp → Outcome Reading
  unfolding read_found copy_out read_blocks stored store
  ext2_read_file f count fresh bytes sp =
      if count == 0
      then ok (record { result = pos 0; bytes = bytes; file = f; sp = sp })
      else ext2_find_file_inode disk v fuel f.respath sp >>= read_found f count fresh bytes
