-- ===== src/Libc/Mem.antt =====
-- memcpy, memset and their kin of lib/memset.c. Memory is a function from addresses to bytes.
pub mod Copy
use levos.Prelude.{ℕ, zero, suc, ◌+◌, ◌/◌, ◌%◌, ◌==◌, if◌then◌else◌, update, put_word}

abbrev pub Memory : Type 0
Memory = ℕ → ℕ

-- `dst8[i] = src8[i]`
abbrev pub copy_byte : ℕ → ℕ → Memory → Memory
copy_byte dst src m = update m dst (m src)

-- The loop over pairs of bytes.
copy_pairs : ℕ → ℕ → ℕ → Memory → Memory
copy_pairs zero dst src m = m
copy_pairs (suc count) dst src m =
    copy_pairs count (dst + 2) (src + 2) (copy_byte (dst + 1) (src + 1) (copy_byte dst src m))

unfoldable pub memcpy : ℕ → ℕ → ℕ → Memory → Memory
unfolding copy_pairs
memcpy dst src count m =
    if count % 2 == 1
    then copy_pairs (count / 2) (dst + 1) (src + 1) (copy_byte dst src m)
    else copy_pairs (count / 2) dst src m

-- `value` is a byte.
unfoldable pub memset : ℕ → ℕ → ℕ → Memory → Memory
memset p value zero m = m
memset p value (suc num) m = memset (p + 1) value num (update m p value)

-- `memcpy32` copies words: four bytes for each, the lowest first.
unfoldable pub memcpy32 : ℕ → ℕ → ℕ → Memory → Memory
memcpy32 dst src zero m = m
memcpy32 dst src (suc count) m = memcpy32 (dst + 4) (src + 4) count (λ a.
    if a == dst
    then m src
    else if a == dst + 1
    then m (src + 1)
    else if a == dst + 2
    then m (src + 2)
    else if a == dst + 3
    then m (src + 3)
    else m a)

-- `memset16` stores words; `value` is one of 16 bits.
unfoldable pub memset16 : ℕ → ℕ → ℕ → Memory → Memory
memset16 p value zero m = m
memset16 p value (suc num) m = memset16 (p + 2) value num (put_word p value m)
