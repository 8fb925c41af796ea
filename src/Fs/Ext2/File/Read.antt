-- ===== src/Fs/Ext2/File/Read.antt =====
-- Which bytes of the volume `ext2_read_file` of fs/ext2/file.c gives, and where it runs over its blocks.
use native.Mathlib.Nat.{div-add-mod', mul-le-mul_right, lt_of_mul-lt-mul_right, mul_comm, add-mul}
use levos.Prelude.{
  ℕ, zero, suc, ◌+◌, ◌-◌, ◌*◌, ◌/◌, ◌%◌, ◌≤◌, ◌<◌, ◌≡◌, ◌∙◌, refl, sym, ap, arith, List, none, some,
  true, false, ◌==◌, ltb, get_or, Bool-cases, inl, inr,
}
use levos.Prelude.Int.{pos}
use levos.Prelude.Outcome.{ok, fault}
use levos.Fs.Ext2.Disk.{Volume, Buffer, ext2_read_block}
use levos.Fs.Ext2.Inode.{Inode, ext2_read_inode}
use levos.Fs.Ext2.Inode.Address.{IsVolume}
use levos.Fs.Ext2.Lookup.{ext2_find_file_inode}
use levos.Fs.Ext2.File.{
  File, Reading, ext2_file_read_block, store, stored, read_blocks, copy_out, ext2_read_file,
}

rounds_fit : (i n size : ℕ) → i < n → i * size + size ≤ n * size
rounds_fit i n size h = omega (arith, mul-le-mul_right {m = i + 1} {n = n} size (omega arith))

-- A place at or behind the start of block `c` lies in block `c` or a later one.
first_block : (c q r size : ℕ) → c * size ≤ q * size + r → r < size → c ≤ q
first_block c q r size lo hi =
    omega (arith, lt_of_mul-lt-mul_right size {m = c} {n = q + 1} (omega arith))

module _ (disk : ℕ → ℕ) (v : Volume) (fuel : ℕ) where
  -- The path leads to the inode, and the lookup leaves strtok ready for another path.
  pub record IsAt (path : List ℕ) (inode : Inode) : Type 0 where
    pub number : ℕ
    pub found : ext2_find_file_inode disk v fuel path none ≡ ok (pos number, none)
    pub read : ext2_read_inode disk v number ≡ ok inode

  -- Block `q` of a file, by its direct pointers.
  abbrev pub block_of : Inode → ℕ → Buffer
  block_of inode q = ext2_read_block disk v (get_or inode.dbp q 0)

  block_size : (b : ℕ) → IsVolume v → (ext2_read_block disk v b).size ≡ v.blocksize
  unfolding ext2_read_block
  block_size b vol =
      let some : (v.sectors_per_block == 0) ≡ false = ground (arith, vol.some_sectors) in
      rw some (sym vol.sectors)

  read_direct :
      (f : File) (inode : Inode) (b : ℕ)
      → IsAt f.respath inode
      → b < 12
      → ext2_file_read_block disk v fuel f b none ≡ ok (pos 0, some (block_of inode b), none)
  unfolding ext2_file_read_block
  read_direct f inode b at direct =
      let low : ltb b 12 ≡ true = ground arith in rw (at.found, at.read, low)

  -- The first `n` blocks hold the blocks of the file from `cblock` on.
  Loaded : Inode → ℕ → ℕ → (ℕ → ℕ) → Type 0
  Loaded inode cblock n m =
      (i r : ℕ)
      → i < n
      → r < v.blocksize
      → m (i * v.blocksize + r) ≡ (block_of inode (cblock + i)).byte r

  Loaded-store :
      (inode : Inode) (cblock n : ℕ) (m : ℕ → ℕ)
      → IsVolume v
      → Loaded inode cblock n m
      → Loaded inode cblock
          (n + 1)
          (store disk v fuel (n * v.blocksize) (some (block_of inode (cblock + n))) m)
  unfolding Loaded store
  Loaded-store inode cblock n m vol h i r below inside = elim (Bool-cases (i == n)) [
    | inl e ↦
        let same : i ≡ n = ground arith in
        let size = block_size (get_or inode.dbp (cblock + n) 0) vol in
        let back : n * v.blocksize + r - n * v.blocksize ≡ r = omega arith in
        rw same (ground (arith, size, back, ap (block_of inode (cblock + n)).byte back))
    | inr e ↦
        let room = rounds_fit i n v.blocksize (ground arith) in
        let kept = h i r (ground arith) inside in ground (arith, room, kept)
  ]

  read_blocks-Loaded :
      (rounds i : ℕ) (f : File) (inode : Inode) (cblock : ℕ) (m : ℕ → ℕ)
      → IsVolume v
      → IsAt f.respath inode
      → cblock + (i + rounds) ≤ 12
      → Loaded inode cblock i m
      → (m' : ℕ → ℕ) × (read_blocks disk v fuel f cblock rounds i (m, none) ≡ ok (m', none))
        × Loaded inode cblock (i + rounds) m'
  unfolding read_blocks stored
  read_blocks-Loaded zero i f inode cblock m vol at direct h =
      let same : i + 0 ≡ i = omega arith in (m, refl, rw same h)
  read_blocks-Loaded (suc rounds) i f inode cblock m vol at direct h =
      let block = read_direct f inode (cblock + i) at (omega arith) in
      let m' = store disk v fuel (i * v.blocksize) (some (block_of inode (cblock + i))) m in
      let (end, run, all) =
        read_blocks-Loaded rounds (i + 1) f inode cblock m' vol at (omega arith)
          (Loaded-store inode cblock i m vol h) in
      let more : i + 1 + rounds ≡ i + suc rounds = omega arith in
      (end, rw (block, run), rw more at all)

  -- Where a byte of the file lies among the blocks that were read.
  Loaded-byte :
      (inode : Inode) (at n q r : ℕ) (m : ℕ → ℕ) (o : ℕ)
      → 0 < v.blocksize
      → Loaded inode (at / v.blocksize) n m
      → r < v.blocksize
      → at + o ≡ q * v.blocksize + r
      → at - at / v.blocksize * v.blocksize + o < v.blocksize * n
      → m (at - at / v.blocksize * v.blocksize + o) ≡ (block_of inode q).byte r
  unfolding Loaded
  Loaded-byte inode at n q r m o nonzero h inside place below =
      let c = at / v.blocksize in
      let whole = div-add-mod' at v.blocksize in
      let first : c ≤ q = first_block c q r v.blocksize (omega (arith, whole, place)) inside in
      let apart = add-mul c (q - c) v.blocksize in
      let again : c + (q - c) ≡ q = omega (arith, first) in
      let split : q * v.blocksize ≡ c * v.blocksize + (q - c) * v.blocksize = rw again at apart in
      let here : at - c * v.blocksize + o ≡ (q - c) * v.blocksize + r =
        omega (arith, whole, place, split) in
      let low : q - c < n =
        lt_of_mul-lt-mul_right v.blocksize (omega (arith, below, here, mul_comm v.blocksize n)) in
      rw here (rw again at (h (q - c) r low inside))

  -- A read up to the copy, with the blocks loaded.
  read_file-Loaded :
      (f : File) (inode : Inode) (count : ℕ) (fresh bytes : ℕ → ℕ)
      → IsVolume v
      → IsAt f.respath inode
      → 0 < count
      → f.pos / v.blocksize + (count / v.blocksize + 1) ≤ 12
      → (m : ℕ → ℕ) × (ext2_read_file disk v fuel f count fresh bytes none
          ≡ copy_out disk v fuel f count (v.blocksize * (count / v.blocksize + 1)) (m, none))
        × Loaded inode (f.pos / v.blocksize) (count / v.blocksize + 1) m
        × (0 < v.blocksize)
  unfolding ext2_read_file
  read_file-Loaded f inode count fresh bytes vol at some_bytes direct =
      let nonzero : 0 < v.blocksize = omega (arith, vol.sectors, vol.some_sectors) in
      let e1 : (count == 0) ≡ false = ground arith in
      let e2 : (v.blocksize == 0) ≡ false = ground arith in
      let (m, run, all) =
        read_blocks-Loaded (count / v.blocksize + 1) 0 f inode (f.pos / v.blocksize) fresh vol at
          (omega arith) (unfold Loaded in λ i r below inside. absurd (omega arith)) in
      let plain : 0 + (count / v.blocksize + 1) ≡ count / v.blocksize + 1 = omega arith in
      (m, rw (e1, at.found, e2, run), rw plain at all, nonzero)

  offset_sum :
      (at count size : ℕ)
      → at - at / size * size + count ≡ at % size + count % size + count / size * size
  offset_sum at count size = omega (arith, div-add-mod' at size, div-add-mod' count size)

  -- `ext2_read_file` of a file whose path leads to an inode, as far as the direct blocks reach. If the
  -- offsets of its position and of its length in a block add up to a block at most, it returns the
  -- length and moves the position by it, and each byte is the one that the file has there: byte `r` of
  -- block `q` for the position `q * blocksize + r`.
  pub ext2_read_file-bytes :
      (f : File) (inode : Inode) (count : ℕ) (fresh bytes : ℕ → ℕ)
      → IsVolume v
      → IsAt f.respath inode
      → 0 < count
      → f.pos / v.blocksize + (count / v.blocksize + 1) ≤ 12
      → f.pos % v.blocksize + count % v.blocksize ≤ v.blocksize
      → (out : Reading) × (ext2_read_file disk v fuel f count fresh bytes none ≡ ok out)
        × (out.result ≡ pos count)
        × (out.file ≡ record f { pos = f.pos + count })
        × ((o q r : ℕ)
            → o < count
            → r < v.blocksize
            → f.pos + o ≡ q * v.blocksize + r
            → out.bytes o ≡ (block_of inode q).byte r)
  unfolding copy_out
  ext2_read_file-bytes f inode count fresh bytes vol at some_bytes direct fits =
      let n = count / v.blocksize + 1 in
      let (m, run, all, nonzero) =
        read_file-Loaded f inode count fresh bytes vol at some_bytes direct in
      let sum = offset_sum f.pos count v.blocksize in
      let size = mul_comm v.blocksize n ∙ add-mul (count / v.blocksize) 1 v.blocksize in
      let coff = f.pos - f.pos / v.blocksize * v.blocksize in
      let room : coff + count ≤ v.blocksize * n = omega (arith, sum, size) in
      let inside : ltb (v.blocksize * n) (coff + count) ≡ false = ground arith in
      (
        record {
          result = pos count;
          bytes = λ o. m (coff + o);
          file = record f { pos = f.pos + count };
          sp = none;
        },
        run ∙ rw inside refl,
        refl,
        refl,
        λ o q r below inside_block place.
            Loaded-byte inode f.pos n q r m o nonzero all inside_block place (omega arith),
      )

  -- With the same file, if these offsets add up to more than a block, the read runs over the end of
  -- the blocks that the code has counted.
  pub ext2_read_file-overrun :
      (f : File) (inode : Inode) (count : ℕ) (fresh bytes : ℕ → ℕ)
      → IsVolume v
      → IsAt f.respath inode
      → 0 < count
      → f.pos / v.blocksize + (count / v.blocksize + 1) ≤ 12
      → v.blocksize < f.pos % v.blocksize + count % v.blocksize
      → ext2_read_file disk v fuel f count fresh bytes none ≡ fault
  unfolding copy_out
  ext2_read_file-overrun f inode count fresh bytes vol at some_bytes direct over =
      let n = count / v.blocksize + 1 in
      let (m, run, _, _) = read_file-Loaded f inode count fresh bytes vol at some_bytes direct in
      let sum = offset_sum f.pos count v.blocksize in
      let size = mul_comm v.blocksize n ∙ add-mul (count / v.blocksize) 1 v.blocksize in
      let coff = f.pos - f.pos / v.blocksize * v.blocksize in
      let behind : v.blocksize * n < coff + count = omega (arith, sum, size) in
      let beyond : ltb (v.blocksize * n) (coff + count) ≡ true = ground arith in
      run ∙ rw beyond refl
