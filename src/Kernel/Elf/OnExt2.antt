-- ===== src/Kernel/Elf/OnExt2.antt =====
-- The files of fs/ext2/file.c, as kernel/bin/elf.c reads them.
use native.Mathlib.Nat.{div-add-mod', mod-lt}
use levos.Prelude.{ℕ, ◌+◌, ◌/◌, ◌%◌, ◌≤◌, ◌<◌, refl, arith, none}
use levos.Prelude.Outcome.{Outcome, ok, panic, fault, hang}
use levos.Kernel.Elf.{Bytes, Operations}
use levos.Kernel.Elf.Headers.{IsFile}
use levos.Fs.Ext2.Disk.{Volume}
use levos.Fs.Ext2.Inode.{Inode}
use levos.Fs.Ext2.Inode.Address.{IsVolume}
use levos.Fs.Ext2.File.{File, Reading, ext2_read_file}
use levos.Fs.Ext2.File.Read.{IsAt, block_of, ext2_read_file-bytes}

-- What a read that returns leaves; the loader does not go on from one that does not.
read_or : Outcome Reading → Bytes → File → Bytes × File
read_or (ok out) b f = (out.bytes, out.file)
read_or panic b f = (b, f)
read_or fault b f = (b, f)
read_or hang b f = (b, f)

module _ (disk : ℕ → ℕ) (v : Volume) (fuel : ℕ) (fresh : ℕ → ℕ) where
  pub ext2_operations : Operations File
  unfolding read_or
  ext2_operations = record {
    read = λ count b f. read_or (ext2_read_file disk v fuel f count fresh b none) b f;
    file_set_position = λ p f. record f { pos = p };
  }

  -- The byte of the file at a position.
  abbrev pub byte_of : Inode → Bytes
  byte_of inode a = (block_of disk v fuel inode (a / v.blocksize)).byte (a % v.blocksize)

  -- What `ext2_read_file` can read: some bytes of the direct blocks, whose offsets fit a block.
  abbrev pub CanReadExt2 : ℕ → ℕ → Type 0
  CanReadExt2 at count =
      (0 < count)
      × (at / v.blocksize + (count / v.blocksize + 1) ≤ 12)
      × (at % v.blocksize + count % v.blocksize ≤ v.blocksize)

  -- The files of ext2 are files for the loader, where the lookup of their path succeeds and the read
  -- does not run over its buffer.
  pub ext2-IsFile :
      (inode : Inode)
      → IsVolume v
      → IsFile ext2_operations
          (byte_of inode)
          File.pos
          (λ f. IsAt disk v fuel f.respath inode)
          CanReadExt2
  unfolding ext2_operations read_or
  ext2-IsFile inode vol = record {
    bytes = λ count b f o at (some_bytes, direct, fits) inside.
        let (out, run, result, file, bytes) =
          ext2_read_file-bytes disk v fuel f inode count fresh b vol at some_bytes direct fits in
        let place = div-add-mod' (f.pos + o) v.blocksize in
        rw run (
          bytes o ((f.pos + o) / v.blocksize) ((f.pos + o) % v.blocksize) inside
            (mod-lt (f.pos + o) {m = v.blocksize} (omega (arith, vol.sectors, vol.some_sectors)))
            (omega (arith, place)));
    moved = λ count b f at (some_bytes, direct, fits).
        let (out, run, result, file, bytes) =
          ext2_read_file-bytes disk v fuel f inode count fresh b vol at some_bytes direct fits in
        rw (run, file) refl;
    stays = λ count b f at (some_bytes, direct, fits).
        let (out, run, result, file, bytes) =
          ext2_read_file-bytes disk v fuel f inode count fresh b vol at some_bytes direct fits in
        rw (run, file) at;
    placed = λ p f at. (refl, at);
  }
