-- ===== src/Mm/Frame/Bitmap.antt =====
-- One frame of the bitmap of mm/frame.c: what is marked, and what setting and clearing change.
use levos.Prelude.{ℕ, ◌/◌, ◌^◌, ◌≤◌, ◌<◌, ◌≡◌, arith, ◌==◌, if◌then◌else◌}
use levos.Prelude.Bits.{
  bit, bit-le, bit-or, bit-and, bit-not, bit-pow_self, bit-pow_ne, bit_and-pow, bit_or-lt,
  bit_and-le, pow-pos, pow-lt,
}
use levos.Mm.Frame.{
  FrameMap, page_size, index_bit, offset_bit, complement, set_frame, clear_frame, test_frame,
}

-- 1 for a frame that is taken, 0 for one that is free.
abbrev pub used : FrameMap → ℕ → ℕ
used s f = bit (s.frames (index_bit f)) (offset_bit f)

-- Each element of the bitmap is a word.
abbrev pub IsBitmap : FrameMap → Type 0
IsBitmap s = (i : ℕ) → s.frames i < 2 ^ 32

pub used-le : (s : FrameMap) (f : ℕ) → used s f ≤ 1
used-le s f = bit-le (s.frames (index_bit f)) (offset_bit f)

pub used-set_frame :
    (s : FrameMap) (a f : ℕ) → used (set_frame a s) f ≡ (if a / page_size == f then 1 else used s f)
unfolding set_frame
used-set_frame s a f = ground (
  arith,
  bit-or (s.frames (index_bit (a / page_size))) (2 ^ offset_bit (a / page_size)) (offset_bit f),
  bit-pow_self (offset_bit (a / page_size)),
  bit-pow_ne (offset_bit (a / page_size)) (offset_bit f),
  used-le s f,
)

-- Clearing needs the words to be words, since `complement` is taken on 32 bits.
pub used-clear_frame :
    (s : FrameMap) (a f : ℕ)
    → IsBitmap s
    → used (clear_frame a s) f ≡ (if a / page_size == f then 0 else used s f)
unfolding clear_frame
used-clear_frame s a f v = ground (
  arith,
  bit-and (s.frames (index_bit (a / page_size))) (complement (2 ^ offset_bit (a / page_size)))
      (offset_bit f),
  bit-not 32 (2 ^ offset_bit (a / page_size)) (offset_bit f),
  pow-lt (offset_bit (a / page_size)) 32,
  bit-pow_self (offset_bit (a / page_size)),
  bit-pow_ne (offset_bit (a / page_size)) (offset_bit f),
  used-le s f,
)

pub test_frame-used : (s : FrameMap) (a : ℕ) → (test_frame a s == 0) ≡ (used s (a / page_size) == 0)
unfolding test_frame
test_frame-used s a = ground (
  arith,
  bit_and-pow (s.frames (index_bit (a / page_size))) (offset_bit (a / page_size)),
  pow-pos (offset_bit (a / page_size)),
  used-le s (a / page_size),
)

pub set_frame-IsBitmap : (s : FrameMap) (a : ℕ) → IsBitmap s → IsBitmap (set_frame a s)
unfolding set_frame
set_frame-IsBitmap s a v i = ground (
  arith,
  v i,
  v (index_bit (a / page_size)),
  bit_or-lt 32 (s.frames (index_bit (a / page_size))) (2 ^ offset_bit (a / page_size)),
  pow-lt (offset_bit (a / page_size)) 32,
)

pub clear_frame-IsBitmap : (s : FrameMap) (a : ℕ) → IsBitmap s → IsBitmap (clear_frame a s)
unfolding clear_frame
clear_frame-IsBitmap s a v i = ground (
  arith,
  v i,
  v (index_bit (a / page_size)),
  bit_and-le (s.frames (index_bit (a / page_size))) (complement (2 ^ offset_bit (a / page_size))),
)
