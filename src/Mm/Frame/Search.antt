-- ===== src/Mm/Frame/Search.antt =====
-- `first_frame` of mm/frame.c: which frame it finds, and when it panics.
use levos.Prelude.{
  ℕ, zero, suc, ◌+◌, ◌*◌, ◌/◌, ◌%◌, ◌^◌, ◌≤◌, ◌<◌, bit_and, ◌≡◌, arith, ◌==◌, Option, none, some,
  Bool-cases, inl, inr, true,
}
use levos.Prelude.Bits.{bit, bit-le, bit-not, bit-zero, bit_and-pow, pow-pos}
use levos.Prelude.Outcome.{Outcome, ok, panic, fault, hang}
use levos.Mm.Frame.{FrameMap, index_bit, free_bit, free_from, or_else, first_frame}
use levos.Mm.Frame.Bitmap.{used}

-- The frames whose word is scanned: those of the whole words below `nframes`.
abbrev pub tracked : FrameMap → ℕ
tracked s = index_bit s.nframes * 32

eq_of_test : (a b : ℕ) → (a == b) ≡ true → a ≡ b
eq_of_test a b h = ground arith

-- What a scan of the bits `j .. j + r - 1` of a word finds.
abbrev FreeBit : ℕ → ℕ → ℕ → Option ℕ → Type 0
FreeBit w j r none = (k : ℕ) → j ≤ k → k < j + r → bit w k ≡ 1
FreeBit w j r (some f) =
    (j ≤ f) × (f < j + r) × (bit w f ≡ 0) × ((k : ℕ) → j ≤ k → k < f → bit w k ≡ 1)

bit_test : (w j : ℕ) → (bit_and w (2 ^ j) == 0) ≡ (bit w j == 0)
bit_test w j = ground (arith, bit_and-pow w j, pow-pos j, bit-le w j)

-- One more digit in front of a run of ones.
ones_from :
    (w j n : ℕ)
    → bit w j ≡ 1
    → ((k : ℕ) → j + 1 ≤ k → k < n → bit w k ≡ 1)
    → (k : ℕ) → j ≤ k
    → k < n
    → bit w k ≡ 1
ones_from w j n one h k lo hi = elim (Bool-cases (j == k)) [
  | inl e ↦ ground arith
  | inr e ↦ h k (ground arith) hi
]

FreeBit-later :
    (w j r : ℕ) (o : Option ℕ) → bit w j ≡ 1 → FreeBit w (j + 1) r o → FreeBit w j (suc r) o
FreeBit-later w j r none one h = ones_from w j (j + suc r) one (λ k lo hi. h k lo (omega arith))
FreeBit-later w j r (some f) one (lo, hi, free, h) =
    (omega arith, omega arith, free, ones_from w j f one h)

free_bit-FreeBit : (w r j : ℕ) → FreeBit w j r (free_bit w r j)
unfolding free_bit
free_bit-FreeBit w zero j = λ k lo hi. absurd (omega arith)
free_bit-FreeBit w (suc r) j = elim (Bool-cases (bit w j == 0)) [
  | inl e ↦
      rw (bit_test w j, e) (omega arith, omega arith, ground arith, λ k a b. absurd (omega arith))
  | inr e ↦
      rw (bit_test w j, e)
        (FreeBit-later w j r (free_bit w r (j + 1)) (ground (arith, bit-le w j))
          (free_bit-FreeBit w r (j + 1)))
]

-- What a scan of the words `i .. i + r - 1` finds.
abbrev FreeFrom : FrameMap → ℕ → ℕ → Outcome ℕ → Type 0
FreeFrom s i r (ok f) =
    (i * 32 ≤ f)
    × (f < (i + r) * 32)
    × (used s f ≡ 0)
    × ((g : ℕ) → i * 32 ≤ g → g < f → used s g ≡ 1)
FreeFrom s i r panic = (g : ℕ) → i * 32 ≤ g → g < (i + r) * 32 → used s g ≡ 1
FreeFrom s i r fault = ⊥
FreeFrom s i r hang = ⊥

used_at :
    (s : FrameMap) (i g : ℕ) → i * 32 ≤ g → g < i * 32 + 32 → used s g ≡ bit (s.frames i) (g % 32)
used_at s i g lo hi = let e : g / 32 ≡ i = omega arith in rw e

word_then :
    (s : FrameMap) (i n : ℕ)
    → ((k : ℕ) → 0 ≤ k → k < 32 → bit (s.frames i) k ≡ 1)
    → ((g : ℕ) → (i + 1) * 32 ≤ g → g < n → used s g ≡ 1)
    → (g : ℕ) → i * 32 ≤ g
    → g < n
    → used s g ≡ 1
word_then s i n word h g lo hi = elim (Bool-cases (g / 32 == i)) [
  | inl e ↦ rw (used_at s i g lo (ground arith)) (word (g % 32) (omega arith) (omega arith))
  | inr e ↦ h g (ground arith) hi
]

FreeFrom-word :
    (s : FrameMap) (i r : ℕ) (o : Option ℕ) (rest : Outcome ℕ)
    → FreeBit (s.frames i) 0 32 o
    → FreeFrom s (i + 1) r rest
    → FreeFrom s i (suc r) (or_else o i rest)
unfolding or_else
FreeFrom-word s i r none (ok f) w (lo, hi, free, h) =
    (omega arith, omega arith, free, word_then s i f w h)
FreeFrom-word s i r none panic w h =
    word_then s i ((i + suc r) * 32) w (λ g a b. h g a (omega arith))
FreeFrom-word s i r none fault w h = absurd h
FreeFrom-word s i r none hang w h = absurd h
FreeFrom-word s i r (some j) rest (lo, hi, free, w) h = (
  omega arith,
  omega arith,
  rw (used_at s i (i * 32 + j) (omega arith) (omega arith))
      (let e : (i * 32 + j) % 32 ≡ j = omega arith in rw e free),
  λ g a b. rw (used_at s i g a (omega arith)) (w (g % 32) (omega arith) (omega arith)),
)

full_word : (k : ℕ) → 0 ≤ k → k < 32 → bit 0xffff_ffff k ≡ 1
full_word k lo hi = omega (arith, bit-not 32 0 k (omega arith) hi, bit-zero k)

free_from-FreeFrom : (s : FrameMap) (r i : ℕ) → FreeFrom s i r (free_from s r i)
unfolding free_from or_else
free_from-FreeFrom s zero i = λ g lo hi. absurd (omega arith)
free_from-FreeFrom s (suc r) i = elim (Bool-cases (s.frames i == 0xffff_ffff)) [
  | inl e ↦ rw e (
      FreeFrom-word s i r none (free_from s r (i + 1))
        (λ k lo hi. rw (eq_of_test (s.frames i) 0xffff_ffff e) (full_word k lo hi))
        (free_from-FreeFrom s r (i + 1)))
  | inr e ↦ rw e (
      FreeFrom-word s i r (free_bit (s.frames i) 32 0) (free_from s r (i + 1))
        (free_bit-FreeBit (s.frames i) 32 0) (free_from-FreeFrom s r (i + 1)))
]

-- What `first_frame` owes its caller.
abbrev pub FirstFree : FrameMap → Outcome ℕ → Type 0
FirstFree s (ok f) = (f < tracked s) × (used s f ≡ 0) × ((g : ℕ) → g < f → used s g ≡ 1)
FirstFree s panic = (g : ℕ) → g < tracked s → used s g ≡ 1
FirstFree s fault = ⊥
FirstFree s hang = ⊥

FirstFree-from :
    (s : FrameMap) (o : Outcome ℕ) → FreeFrom s 0 (index_bit s.nframes) o → FirstFree s o
FirstFree-from s (ok f) (lo, hi, free, h) = (omega arith, free, λ g a. h g (omega arith) a)
FirstFree-from s panic h = λ g a. h g (omega arith) (omega arith)
FirstFree-from s fault h = h
FirstFree-from s hang h = h

-- `first_frame` returns the lowest free frame among the frames of the whole words of the bitmap, and
-- it panics only when each of them is taken.
pub first_frame-FirstFree : (s : FrameMap) → FirstFree s (first_frame s)
unfolding first_frame
first_frame-FirstFree s =
    FirstFree-from s (free_from s (index_bit s.nframes) 0)
      (free_from-FreeFrom s (index_bit s.nframes) 0)
