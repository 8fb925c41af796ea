-- ===== src/Mm/Frame/Usage.antt =====
-- `mem_used` of mm/frame.c: the size of the frames that are taken, and how the other calls change it.
use levos.Prelude.{ℕ, zero, suc, ◌+◌, ◌*◌, ◌/◌, ◌%◌, ◌^◌, ◌≤◌, ◌<◌, ◌≡◌, ◌≢◌, refl, ap, arith}
use native.Mathlib.Decide.{ℕ_discrete}
use levos.Prelude.Bits.{bit, bit-le, bit_and-pow, pow-pos}
use levos.Prelude.Outcome.{ok}
use levos.Mm.Frame.{
  FrameMap, page_size, index_bit, set_frame, clear_frame, bits_used, words_used, mem_used,
  first_frame,
}
use levos.Mm.Frame.Bitmap.{used, used-le, used-set_frame, used-clear_frame, IsBitmap}
use levos.Mm.Frame.Search.{tracked, first_frame-FirstFree}

-- f a + f (a + 1) + ... , `n` terms.
pub sum_from : (ℕ → ℕ) → ℕ → ℕ → ℕ
sum_from f a zero = 0
sum_from f a (suc n) = f a + sum_from f (a + 1) n

sum_from-add :
    (f : ℕ → ℕ) (m a n : ℕ) → sum_from f a (m + n) ≡ sum_from f a m + sum_from f (a + m) n
unfolding sum_from
sum_from-add f zero a n =
    let e : 0 + n ≡ n = omega arith in let e' : a + 0 ≡ a = omega arith in rw (e, e') (omega arith)
sum_from-add f (suc m) a n =
    let e : suc m + n ≡ suc (m + n) = omega arith in
    let e' : a + suc m ≡ a + 1 + m = omega arith in
    rw (e, e') (omega (arith, sum_from-add f m (a + 1) n))

sum_from-eq :
    (f g : ℕ → ℕ) (n a b : ℕ)
    → ((k : ℕ) → k < n → f (a + k) ≡ g (b + k))
    → sum_from f a n ≡ sum_from g b n
unfolding sum_from
sum_from-eq f g zero a b h = refl
sum_from-eq f g (suc n) a b h =
    let now = h 0 (omega arith) in
    let ea : a + 0 ≡ a = omega arith in
    let eb : b + 0 ≡ b = omega arith in
    let ih = sum_from-eq f g n (a + 1) (b + 1) (λ k hk.
      let e : a + 1 + k ≡ a + suc k = omega arith in
      let e' : b + 1 + k ≡ b + suc k = omega arith in rw (e, e') (h (suc k) (omega arith))) in
    cc (ap f ea, ap g eb)

sum_from-le : (f : ℕ → ℕ) (n a : ℕ) → ((k : ℕ) → f k ≤ 1) → sum_from f a n ≤ n
unfolding sum_from
sum_from-le f zero a h = omega arith
sum_from-le f (suc n) a h = omega (arith, h a, sum_from-le f n (a + 1) h)

-- A sum whose terms differ at one place.
sum_from-bump :
    (f g : ℕ → ℕ) (p n a : ℕ)
    → a ≤ p
    → p < a + n
    → f p ≡ g p + 1
    → ((k : ℕ) → k ≢ p → f k ≡ g k)
    → sum_from f a n ≡ sum_from g a n + 1
unfolding sum_from
sum_from-bump f g p zero a lo hi at off = absurd (omega arith)
sum_from-bump f g p (suc n) a lo hi at off = elim (ℕ_discrete a p) [
  | yes e ↦ omega (
    arith,
    rw (← e) at at,
    sum_from-eq f g n (a + 1) (a + 1) (λ k hk. off (a + 1 + k) (omega arith)),
  )
  | no ne ↦
      omega (arith, off a ne, sum_from-bump f g p n (a + 1) (omega arith) (omega arith) at off)
]

-- The frames below `n` that are taken.
abbrev pub count_used : FrameMap → ℕ → ℕ
count_used s n = sum_from (used s) 0 n

bits_used-sum : (w r j ret : ℕ) → bits_used w r j ret ≡ ret + sum_from (bit w) j r
unfolding bits_used sum_from
bits_used-sum w zero j ret = omega arith
bits_used-sum w (suc r) j ret = ground (
  arith,
  bits_used-sum w r (j + 1) ret,
  bits_used-sum w r (j + 1) (ret + 1),
  bit_and-pow w j,
  pow-pos j,
  bit-le w j,
)

word_sum : (s : FrameMap) (i : ℕ) → sum_from (used s) (i * 32) 32 ≡ sum_from (bit (s.frames i)) 0 32
word_sum s i = sum_from-eq (used s) (bit (s.frames i)) 32 (i * 32) 0 (λ k hk.
    let e : (i * 32 + k) / 32 ≡ i = omega arith in
    let e' : (i * 32 + k) % 32 ≡ k = omega arith in
    let e'' : 0 + k ≡ k = omega arith in rw (e, e', e''))

words_used-sum :
    (s : FrameMap) (r i ret : ℕ) → words_used s r i ret ≡ ret + sum_from (used s) (i * 32) (r * 32)
unfolding words_used
words_used-sum s zero i ret = unfold sum_from in omega arith
words_used-sum s (suc r) i ret =
    let e : suc r * 32 ≡ 32 + r * 32 = omega arith in
    let e' : (i + 1) * 32 ≡ i * 32 + 32 = omega arith in
    let ih = words_used-sum s r (i + 1) (bits_used (s.frames i) 32 0 ret) in
    rw e (
      omega (
        arith,
        rw e' at ih,
        bits_used-sum (s.frames i) 32 0 ret,
        word_sum s i,
        sum_from-add (used s) 32 (i * 32) (r * 32),
      ))

-- Below 4 GiB of frames nothing wraps.
abbrev pub IsSmall : FrameMap → Type 0
IsSmall s = s.nframes < 2 ^ 30

-- With fewer than 2 ^ 30 frames `mem_used` is 4 for each taken frame that the bitmap's whole words
-- track, counted one by one.
pub mem_used-count : (s : FrameMap) → IsSmall s → mem_used s ≡ 4 * count_used s (tracked s)
unfolding mem_used
mem_used-count s small = omega (
  arith,
  words_used-sum s (index_bit s.nframes) 0 0,
  sum_from-le (used s) (tracked s) 0 (used-le s),
)

-- Taking a free frame that is tracked adds its 4 KiB to `mem_used`.
pub mem_used-set_frame :
    (s : FrameMap) (a : ℕ)
    → IsSmall s
    → a / page_size < tracked s
    → used s (a / page_size) ≡ 0
    → mem_used (set_frame a s) ≡ mem_used s + 4
unfolding set_frame
mem_used-set_frame s a small hi free = omega (
  arith,
  mem_used-count s small,
  mem_used-count (set_frame a s) small,
  sum_from-bump (used (set_frame a s)) (used s) (a / page_size) (tracked s) 0 (omega arith)
      (omega arith) (ground (arith, used-set_frame s a (a / page_size)))
      (λ k ne. ground (arith, used-set_frame s a k)),
)

-- With fewer than 2 ^ 30 frames and a bitmap of 32-bit words, releasing a taken frame that the whole
-- words track takes its 4 KiB from `mem_used`.
pub mem_used-clear_frame :
    (s : FrameMap) (a : ℕ)
    → IsBitmap s
    → IsSmall s
    → a / page_size < tracked s
    → used s (a / page_size) ≡ 1
    → mem_used (clear_frame a s) + 4 ≡ mem_used s
unfolding clear_frame
mem_used-clear_frame s a v small hi taken = omega (
  arith,
  mem_used-count s small,
  mem_used-count (clear_frame a s) small,
  sum_from-bump (used s) (used (clear_frame a s)) (a / page_size) (tracked s) 0 (omega arith)
      (omega arith) (ground (arith, used-clear_frame s a (a / page_size) v))
      (λ k ne. ground (arith, used-clear_frame s a k v)),
)

-- With fewer than 2 ^ 30 frames, the frame that `first_frame` returns was not counted, and once it is
-- set it is: `mem_used` grows by exactly its 4 KiB.
pub mem_used-first_frame :
    (s : FrameMap) (f : ℕ)
    → IsSmall s
    → first_frame s ≡ ok f
    → mem_used (set_frame (f * page_size) s) ≡ mem_used s + 4
mem_used-first_frame s f small e =
    let (lo, free, least) = rw e at (first_frame-FirstFree s) in
    let back : f * page_size / page_size ≡ f = omega arith in
    mem_used-set_frame s (f * page_size) small (rw back lo) (rw back free)
