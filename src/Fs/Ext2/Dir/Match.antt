-- ===== src/Fs/Ext2/Dir/Match.antt =====
-- Which entry the search of fs/ext2/dir.c takes, and which directories it refuses.
use levos.Prelude.{
  ℕ, suc, ◌+◌, ◌≤◌, ◌<◌, ◌≡◌, ◌≢◌, arith, List, some, ◌==◌, ltb, length, take, true, false,
}
use levos.Prelude.Bits.{bit_and-none}
use levos.Prelude.Outcome.{ok}
use levos.Libc.Str.Compare.{IsBytes, strncmp_iff}
use levos.Fs.Ext2.Disk.{Volume, Buffer}
use levos.Fs.Ext2.Inode.{Inode}
use levos.Fs.Ext2.Dir.{DirEntry, name_at, read_entry, search_block, search_inode}

-- For an entry in use, inside the block, and for names that are at least as long as the entry says: the
-- name is compared on the entry's own length only, so the entry is taken as soon as its name is a
-- prefix of the name looked for; otherwise the search goes on behind it.
pub search_block-entry :
    (fuel blocksize r : ℕ) (b : Buffer) (f : List ℕ) (d : DirEntry)
    → r < blocksize
    → read_entry b r ≡ ok d
    → d.size ≢ 0
    → d.namelength ≢ 0
    → d.namelength ≤ length (name_at b r)
    → d.namelength ≤ length f
    → IsBytes (name_at b r)
    → IsBytes f
    → (take d.namelength (name_at b r) ≡ take d.namelength f
        → search_block (suc fuel) blocksize b f r ≡ ok (some d.inode))
      × (take d.namelength (name_at b r) ≢ take d.namelength f
          → search_block (suc fuel) blocksize b f r ≡ search_block fuel blocksize b f (r + d.size))
unfolding search_block
search_block-entry fuel blocksize r b f d inside entry sized named here there bytes bytes' =
    let (c, run, same) = strncmp_iff d.namelength (name_at b r) f here there bytes bytes' in
    let go : ltb r blocksize ≡ true = ground arith in
    (
      λ e. rw (go, entry, run, same.1 e),
      λ ne.
          let nz : (c == 0) ≡ false = ground (arith, same.0) in
          let ns : (d.size == 0) ≡ false = ground arith in
          let nn : (d.namelength == 0) ≡ false = ground arith in rw (go, entry, run, nz, ns, nn),
    )

module _ (disk : ℕ → ℕ) where
  -- The kind of file that an inode says it is makes no difference: a regular file is searched as a
  -- directory would be.
  pub search_inode-type :
      (v : Volume) (f : List ℕ) (inode : Inode) (type : ℕ)
      → search_inode disk v f (record inode { type = type }) ≡ search_inode disk v f inode
  unfolding search_inode
  search_inode-type v f inode type = rw (bit_and-none type, bit_and-none inode.type)
