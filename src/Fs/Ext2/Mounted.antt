-- ===== src/Fs/Ext2/Mounted.antt =====
-- Which volumes `ext2_mount` of fs/ext2/super.c accepts, and what it keeps of them.
use levos.Prelude.{
  ℕ, ◌+◌, ◌*◌, ◌/◌, ◌^◌, ◌<◌, ◌≡◌, ◌≢◌, sym, ap, arith, ◌==◌, ◌||◌, leb, if◌then◌else◌, Bool-cases,
  inl, inr,
}
use levos.Prelude.Outcome.{ok, >>=-eq-ok}
use levos.Fs.Ext2.Disk.{
  Superblock, Volume, u32, sector_size, read_sectors, read_superblock, mounted, volume_of,
  ext2_mount, ext2_signature,
}
use levos.Fs.Ext2.Inode.{inode_size}
use levos.Fs.Ext2.Inode.Address.{IsVolume}

-- The block size of a superblock, as the code computes it.
abbrev block_size : Superblock → ℕ
block_size sb = u32 (1024 * 2 ^ sb.blocksize_hint)

whole_sectors : (n : ℕ) → u32 (1024 * n) ≡ u32 (1024 * n) / 512 * sector_size
whole_sectors n = omega arith

whole_inodes : (n : ℕ) → u32 (1024 * n) ≡ u32 (1024 * n) / 128 * inode_size
whole_inodes n = omega arith

some_sectors : (n : ℕ) → u32 (1024 * n) ≢ 0 → 0 < u32 (1024 * n) / 512
some_sectors n h = omega arith

some_inodes : (n : ℕ) → u32 (1024 * n) ≢ 0 → 0 < u32 (1024 * n) / 128
some_inodes n h = omega arith

-- The volume that is made of an accepted superblock.
volume : Superblock → Volume
volume sb = record {
  sb = sb;
  first_bgd = u32 (sb.superblock_id + 1024 / block_size sb);
  number_of_bgs =
      let groups = sb.blocks / sb.blocks_in_blockgroup in if groups == 0 then 1 else groups;
  blocksize = block_size sb;
  sectors_per_block = block_size sb / 512;
  inodes_per_block = block_size sb / 128;
}

volume-IsVolume : (sb : Superblock) → block_size sb ≢ 0 → IsVolume (volume sb)
unfolding volume
volume-IsVolume sb h =
    let n = 2 ^ sb.blocksize_hint in
    record {
      sectors = whole_sectors n;
      inodes = whole_inodes n;
      some_sectors = some_sectors n h;
      some_inodes = some_inodes n h;
    }

volume_of-IsVolume :
    (sb : Superblock) (v : Volume)
    → volume_of sb ≡ ok (mounted v)
    → (sb.ext2_sig ≡ ext2_signature) × (v.sb ≡ sb) × IsVolume v
unfolding volume_of volume
volume_of-IsVolume sb v e = elim (Bool-cases (sb.ext2_sig == ext2_signature)) [
  | inr bad ↦ let e' = rw bad at e in cc
  | inl good ↦
      elim (Bool-cases
        (leb 32 sb.blocksize_hint || sb.blocks_in_blockgroup == 0 || block_size sb == 0)) [
          | inl wrong ↦ let e' = rw (good, wrong) at e in cc
          | inr fine ↦
              let made : ok (mounted (volume sb)) ≡ ok (mounted v) = rw (good, fine) at e in
              let same : volume sb ≡ v = cc in
              let ne : block_size sb ≢ 0 = ground (arith, fine) in
              (
                ground (arith, good),
                sym (ap (λ (w : Volume). w.sb) same),
                rw (← same) (volume-IsVolume sb ne),
              )
        ]
]

-- A device that `ext2_mount` accepts is a block device with the signature of ext2, and the volume it
-- keeps is well-formed: its block is a whole number of sectors and of inodes, and at least one of each.
pub ext2_mount-IsVolume :
    (disk : ℕ → ℕ) (type : ℕ) (v : Volume)
    → ext2_mount disk type ≡ ok (mounted v)
    → (type ≡ 4)
      × (read_superblock (read_sectors disk 2 2) ≡ ok v.sb)
      × (v.sb.ext2_sig ≡ ext2_signature)
      × IsVolume v
unfolding ext2_mount
ext2_mount-IsVolume disk type v e = elim (Bool-cases (type == 4)) [
  | inr bad ↦ let e' = rw bad at e in cc
  | inl good ↦
      let (sb, made, run) =
        >>=-eq-ok volume_of (mounted v) (read_superblock (read_sectors disk 2 2)) (rw good at e) in
      let (sig, same, well) = volume_of-IsVolume sb v made in
      (ground (arith, good), rw same run, rw same sig, well)
]
