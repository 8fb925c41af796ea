-- ===== src/Libc/Itoa.antt =====
-- itoa of lib/itoa.c. The result is the list of the characters in front of the terminator.
pub mod Digits
use levos.Prelude.{
  ℕ, zero, suc, ◌+◌, ◌-◌, ◌/◌, ◌%◌, List, [], ◌∷◌, ◌++◌, ◌||◌, length, get_or, ◌==◌, ltb,
  if◌then◌else◌,
}
use levos.Prelude.Outcome.{Outcome, ok, fault, hang, ◌>>=◌}

abbrev pub bchars : List ℕ
bchars =
    b'0' ∷ b'1' ∷ b'2' ∷ b'3' ∷ b'4' ∷ b'5' ∷ b'6' ∷ b'7' ∷ b'8' ∷ b'9' ∷ b'A' ∷ b'B' ∷ b'C' ∷ b'D'
    ∷ b'E' ∷ b'F' ∷ []

-- `tbuf[pos] = bchars[i % base]; pos++; i /= base;` while `i` is not 0: the digits that go to `tbuf`
-- from the place reached.
digit_loop : ℕ → ℕ → ℕ → Outcome (List ℕ)
digit_loop zero i base = if i == 0 then ok [] else hang
digit_loop (suc fuel) i base =
    let rest = (do
      more ← digit_loop fuel (i / base) base
      ok (get_or bchars (i % base) 0 ∷ more)) in
    if i == 0 then ok [] else rest

-- `buf[opos] = tbuf[pos]` with `pos` going down, for `rounds` rounds.
copy_back : List ℕ → ℕ → ℕ → List ℕ
copy_back tbuf zero pos = []
copy_back tbuf (suc rounds) pos = get_or tbuf pos 0 ∷ copy_back tbuf rounds (pos - 1)

-- 32 rounds are enough for a 32-bit number in a base of 2 or more. A division by 0 is a fault.
pub itoa : ℕ → ℕ → Outcome (List ℕ)
itoa i base =
    if i == 0 || ltb 16 base
    then ok (b'0' ∷ [])
    else if base == 0
    then fault
    else digit_loop 32 i base >>= λ tbuf. ok (copy_back tbuf (length tbuf) (length tbuf - 1))
