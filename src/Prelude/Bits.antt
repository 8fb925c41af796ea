-- ===== src/Prelude/Bits.antt =====
-- The binary digits of a word, and what `|`, `&` and `~` do to each.
use Prim.Native.Nat.{ℕ, zero, suc, ◌+◌, ◌-◌, ◌*◌, ◌/◌, ◌%◌, ◌^◌, ◌≤◌, ◌<◌, min, max}
use Prim.Native.Nat.{bit_and, bit_or, digits, bitwise, bit_and-bitwise, bit_or-bitwise}
use mathlib.Core.Path.{◌≡◌, refl, ap, ◌∙◌}
use mathlib.Core.Logic.{◌≢◌}
use native.Mathlib.Nat.{le_refl, pow-suc, one-le-pow, pow-le-pow_right}
use native.Mathlib.Omega.{arith}
use native.Mathlib.Decide.{ℕ_discrete}

-- Digit `k` of a number, the lowest first.
abbrev pub bit : ℕ → ℕ → ℕ
bit w zero = w % 2
bit w (suc k) = bit (w / 2) k

-- `digits` goes through the digits of its first number, so a round for each unit of it is enough.
module _ (z : ℕ → ℕ) (f : ℕ → ℕ → ℕ) where
  one_more_round : (m b a : ℕ) → a ≤ m → digits z f (suc m) a b ≡ digits z f m a b
  one_more_round zero b zero h = refl
  one_more_round zero b (suc a) h = absurd (omega arith)
  one_more_round (suc m) b zero h = refl
  one_more_round (suc m) b (suc a) h = rw (one_more_round m (b / 2) (suc a / 2) (omega arith))

  enough_rounds : (m b a : ℕ) → a ≤ m → digits z f m a b ≡ bitwise z f a b
  enough_rounds zero b zero h = refl
  enough_rounds zero b (suc a) h = absurd (omega arith)
  enough_rounds (suc m) b a h = elim (ℕ_discrete a (suc m)) [
    | yes e ↦ rw e
    | no ne ↦ one_more_round m b a (omega arith) ∙ enough_rounds m b a (omega arith)
  ]

  -- The lowest digit apart, if `z` too is the operation on each digit.
  lowest_digit :
      ((b : ℕ) → z b ≡ z (b / 2) * 2 + f 0 (b % 2))
      → (a b : ℕ) → bitwise z f a b ≡ bitwise z f (a / 2) (b / 2) * 2 + f (a % 2) (b % 2)
  lowest_digit h zero b = h b
  lowest_digit h (suc a) b = rw (enough_rounds a (b / 2) (suc a / 2) (omega arith))

bit_or_step : (a b : ℕ) → bit_or a b ≡ bit_or (a / 2) (b / 2) * 2 + max (a % 2) (b % 2)
bit_or_step a b = simp bit_or-bitwise (lowest_digit (λ y. y) max (λ _. omega arith) a b)

bit_and_step : (a b : ℕ) → bit_and a b ≡ bit_and (a / 2) (b / 2) * 2 + min (a % 2) (b % 2)
bit_and_step a b = simp bit_and-bitwise (lowest_digit (λ _. 0) min (λ _. omega arith) a b)

pub bit-le : (w k : ℕ) → bit w k ≤ 1
bit-le w zero = omega arith
bit-le w (suc k) = bit-le (w / 2) k

pub bit-zero : (k : ℕ) → bit 0 k ≡ 0
bit-zero zero = refl
bit-zero (suc k) = bit-zero k

halve_or : (a b : ℕ) → bit_or a b / 2 ≡ bit_or (a / 2) (b / 2)
halve_or a b = omega (arith, bit_or_step a b)

halve_and : (a b : ℕ) → bit_and a b / 2 ≡ bit_and (a / 2) (b / 2)
halve_and a b = omega (arith, bit_and_step a b)

pub bit-or : (a b k : ℕ) → bit (bit_or a b) k ≡ max (bit a k) (bit b k)
bit-or a b zero = omega (arith, bit_or_step a b)
bit-or a b (suc k) = rw (halve_or a b) (bit-or (a / 2) (b / 2) k)

pub bit-and : (a b k : ℕ) → bit (bit_and a b) k ≡ min (bit a k) (bit b k)
bit-and a b zero = omega (arith, bit_and_step a b)
bit-and a b (suc k) = rw (halve_and a b) (bit-and (a / 2) (b / 2) k)

halve_pow : (o : ℕ) → 2 ^ suc o / 2 ≡ 2 ^ o
halve_pow o = omega (arith, pow-suc 2 o)

pub bit-pow_self : (o : ℕ) → bit (2 ^ o) o ≡ 1
bit-pow_self zero = refl
bit-pow_self (suc o) = rw (halve_pow o) (bit-pow_self o)

pub bit-pow_ne : (o k : ℕ) → o ≢ k → bit (2 ^ o) k ≡ 0
bit-pow_ne zero zero h = absurd (h refl)
bit-pow_ne zero (suc k) h = bit-zero k
bit-pow_ne (suc o) zero h = omega (arith, pow-suc 2 o)
bit-pow_ne (suc o) (suc k) h = rw (halve_pow o) (bit-pow_ne o k (λ e. h (ap suc e)))

-- `~w` in a word of `n` digits.
pub bit-not : (n w k : ℕ) → w < 2 ^ n → k < n → bit (2 ^ n - 1 - w) k + bit w k ≡ 1
bit-not zero w k hw hk = absurd (omega arith)
bit-not (suc n) w zero hw hk = omega (arith, pow-suc 2 n)
bit-not (suc n) w (suc k) hw hk =
    let e : (2 ^ suc n - 1 - w) / 2 ≡ 2 ^ n - 1 - w / 2 = omega (arith, pow-suc 2 n) in
    rw e (bit-not n (w / 2) k (omega (arith, pow-suc 2 n)) (omega arith))

bit_and-zero : (n a : ℕ) → a ≤ n → bit_and a 0 ≡ 0
bit_and-zero n zero h = refl
bit_and-zero zero (suc a) h = absurd (omega arith)
bit_and-zero (suc n) (suc a) h =
    omega (arith, bit_and_step (suc a) 0, bit_and-zero n (suc a / 2) (omega arith))

-- `w & (1 << o)` is the digit in its place.
pub bit_and-pow : (w o : ℕ) → bit_and w (2 ^ o) ≡ bit w o * 2 ^ o
bit_and-pow w zero = omega (arith, bit_and_step w 1, bit_and-zero (w / 2) (w / 2) (le_refl _))
bit_and-pow w (suc o) = omega (
  arith,
  bit_and_step w (2 ^ suc o),
  ap (λ (t : ℕ). bit_and (w / 2) t) (halve_pow o),
  bit_and-pow (w / 2) o,
  pow-suc 2 o,
  ap (λ (t : ℕ). bit (w / 2) o * t) (pow-suc 2 o),
)

pub bit_or-lt : (n a b : ℕ) → a < 2 ^ n → b < 2 ^ n → bit_or a b < 2 ^ n
bit_or-lt zero a b ha hb = ground (arith, bit_or_step a b)
bit_or-lt (suc n) a b ha hb = omega (
  arith,
  bit_or_step a b,
  pow-suc 2 n,
  bit_or-lt n (a / 2) (b / 2) (omega (arith, pow-suc 2 n)) (omega (arith, pow-suc 2 n)),
)

bit_and-le_fuel : (n a b : ℕ) → a ≤ n → bit_and a b ≤ a
bit_and-le_fuel n zero b h = omega (arith, bit_and_step 0 b, bit_and-bitwise 0 b)
bit_and-le_fuel zero (suc a) b h = absurd (omega arith)
bit_and-le_fuel (suc n) (suc a) b h =
    omega (arith, bit_and_step (suc a) b, bit_and-le_fuel n (suc a / 2) (b / 2) (omega arith))

pub bit_and-le : (a b : ℕ) → bit_and a b ≤ a
bit_and-le a b = bit_and-le_fuel a a b (le_refl _)

-- A word of `n` digits that are all 1.
pub all_ones : (n w : ℕ) → w < 2 ^ n → ((k : ℕ) → k < n → bit w k ≡ 1) → w ≡ 2 ^ n - 1
all_ones zero w hw h = omega arith
all_ones (suc n) w hw h = omega (
  arith,
  pow-suc 2 n,
  h 0 (omega arith),
  all_ones n (w / 2) (omega (arith, pow-suc 2 n)) (λ k hk. h (suc k) (omega arith)),
)

pub pow-pos : (o : ℕ) → 1 ≤ 2 ^ o
pow-pos o = one-le-pow o 2 (omega arith)

pub pow-lt : (o n : ℕ) → o < n → 2 ^ o < 2 ^ n
pow-lt o n h =
    omega
      (arith, pow-suc 2 o, pow-pos o, pow-le-pow_right {n = 2} (omega arith) {i = suc o} {j = n} h)

pub bit_and-none : (a : ℕ) → bit_and a 0 ≡ 0
bit_and-none a = bit_and-zero a a (le_refl _)

bit_or_zero : (b : ℕ) → bit_or 0 b ≡ b
bit_or_zero b = simp bit_or-bitwise refl

-- `|` of a nibble and of a number that leaves the nibble free is their sum.
pub bit_or-low : (a b : ℕ) → a < 16 → bit_or a (b * 16) ≡ a + b * 16
bit_or-low a b h =
    let e1 = bit_or_step a (b * 16) in
    let e2 = bit_or_step (a / 2) (b * 8) in
    let e3 = bit_or_step (a / 4) (b * 4) in
    let e4 = bit_or_step (a / 8) (b * 2) in
    let h1 : b * 16 / 2 ≡ b * 8 = omega arith in
    let h2 : b * 8 / 2 ≡ b * 4 = omega arith in
    let h3 : b * 4 / 2 ≡ b * 2 = omega arith in
    let h4 : b * 2 / 2 ≡ b = omega arith in
    let a2 : a / 2 / 2 ≡ a / 4 = omega arith in
    let a3 : a / 4 / 2 ≡ a / 8 = omega arith in
    let a4 : a / 8 / 2 ≡ 0 = omega arith in
    omega
      (arith, rw h1 at e1, rw (a2, h2) at e2, rw (a3, h3) at e3, rw (a4, h4, bit_or_zero b) at e4)
