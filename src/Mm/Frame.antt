-- ===== src/Mm/Frame.antt =====
-- mm/frame.c: the bitmap of physical frames. `frames` is the memory from the pointer `frames` on, a
-- 32-bit word at each index; an address is a 32-bit number and a frame is 0x1000 bytes. Nothing here compares a frame
-- with `nframes`: a mark behind the bitmap is written to the memory that follows it.
pub mod Bitmap
pub mod Search
pub mod Runs
pub mod Usage
use levos.Prelude.{
  ℕ, zero, suc, ◌+◌, ◌-◌, ◌*◌, ◌/◌, ◌%◌, ◌^◌, bit_and, bit_or, update, Bool, true, false, Option,
  none, some, ◌==◌, if◌then◌else◌,
}
use levos.Prelude.Outcome.{Outcome, ok, panic}

pub record FrameMap : Type 0 where
  pub nframes : ℕ
  pub frames : ℕ → ℕ

abbrev pub page_size : ℕ
page_size = 0x1000

abbrev pub u32 : ℕ → ℕ
u32 n = n % 2 ^ 32

abbrev pub index_bit : ℕ → ℕ
index_bit x = x / 32

abbrev pub offset_bit : ℕ → ℕ
offset_bit x = x % 32

abbrev pub no_frame : ℕ
no_frame = 0xffff_ffff

-- `~w` on 32 bits
abbrev pub complement : ℕ → ℕ
complement w = 2 ^ 32 - 1 - w

unfoldable pub set_frame : ℕ → FrameMap → FrameMap
set_frame a s =
    let f = a / page_size in
    let i = index_bit f in
    record s { frames = update s.frames i (bit_or (s.frames i) (2 ^ offset_bit f)) }

unfoldable pub clear_frame : ℕ → FrameMap → FrameMap
clear_frame a s =
    let f = a / page_size in
    let i = index_bit f in
    record s { frames = update s.frames i (bit_and (s.frames i) (complement (2 ^ offset_bit f))) }

-- Only whether the result is 0 is ever used.
unfoldable pub test_frame : ℕ → FrameMap → ℕ
test_frame a s = let f = a / page_size in bit_and (s.frames (index_bit f)) (2 ^ offset_bit f)

-- The loop over `j`, where an `int` that overflows, which C leaves open, is taken to wrap around: `rounds` are left, and `b` is one more than the last `j` whose frame is taken.
run_taken : FrameMap → ℕ → ℕ → ℕ → ℕ → ℕ
run_taken s i zero j b = b
run_taken s i (suc rounds) j b =
    run_taken s i rounds (j + 1) (if test_frame (u32 (i + page_size * j)) s == 0 then b else j + 1)

-- The loop over `i`, with `rounds` left.
run_from : FrameMap → ℕ → ℕ → ℕ → ℕ
run_from s n zero i = no_frame
run_from s n (suc rounds) i =
    let rest = run_from s n rounds (i + page_size) in
    if run_taken s i n 0 0 == 0 then i / page_size else rest

-- `nframes * 0x1000` wraps in 32 bits, and the loop steps by 0x1000 up to it.
unfoldable pub first_n_frames : ℕ → FrameMap → ℕ
unfolding run_from run_taken
first_n_frames n s = run_from s n (u32 (s.nframes * page_size) / page_size) 0

-- The loop over the bits of a word that is not all ones.
free_bit : ℕ → ℕ → ℕ → Option ℕ
free_bit w zero j = none
free_bit w (suc rounds) j =
    let rest = free_bit w rounds (j + 1) in if bit_and w (2 ^ j) == 0 then some j else rest

or_else : Option ℕ → ℕ → Outcome ℕ → Outcome ℕ
or_else none i rest = rest
or_else (some j) i rest = ok (i * 0x20 + j)

free_from : FrameMap → ℕ → ℕ → Outcome ℕ
free_from s zero i = panic
free_from s (suc rounds) i =
    let rest = free_from s rounds (i + 1) in
    if s.frames i == 0xffff_ffff then rest else or_else (free_bit (s.frames i) 32 0) i rest

unfoldable pub first_frame : FrameMap → Outcome ℕ
unfolding free_from or_else free_bit
first_frame s = free_from s (index_bit s.nframes) 0

-- `mem_used` counts the bits of word after word.
bits_used : ℕ → ℕ → ℕ → ℕ → ℕ
bits_used w zero j ret = ret
bits_used w (suc rounds) j ret =
    bits_used w rounds (j + 1) (if bit_and w (2 ^ j) == 0 then ret else ret + 1)

words_used : FrameMap → ℕ → ℕ → ℕ → ℕ
words_used s zero i ret = ret
words_used s (suc rounds) i ret = words_used s rounds (i + 1) (bits_used (s.frames i) 32 0 ret)

unfoldable pub mem_used : FrameMap → ℕ
unfolding words_used bits_used
mem_used s = u32 (words_used s (index_bit s.nframes) 0 0 * 4)
