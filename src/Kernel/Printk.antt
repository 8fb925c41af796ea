-- ===== src/Kernel/Printk.antt =====
-- kernel/printk.c: formatted output. Memory is read through `string_at`, the string at a pointer, and an
-- argument list is the list of its 32-bit words; an argument that is not there is a fault. What an
-- emitter does with a character is a parameter; `S` is the state that it changes.
pub mod Format
pub mod Quiet
use levos.Prelude.{
  ℕ, zero, suc, ◌+◌, ◌-◌, ◌*◌, ◌/◌, ◌%◌, List, [], ◌∷◌, ◌++◌, Bool, true, false, not, ◌||◌, ◌==◌,
  ltb, if◌then◌else◌, length, replicate, Option, none, some,
}
use levos.Prelude.Outcome.{Outcome, ok, panic, fault, hang, ◌>>=◌}
use levos.Libc.Itoa.{itoa}

abbrev pub newline : ℕ
newline = b'\n'

abbrev pub carriage_return : ℕ
carriage_return = b'\r'

-- What the loop of `vprintk` does at a character and the one behind it. A `%` in front of a character that
-- names no conversion is dropped, and the character is taken in the next round.
pub data Directive : Type 0 where
  plain dropped string decimal hexadecimal character : Directive

unfoldable pub directive : ℕ → ℕ → Directive
directive c d =
    if not (c == b'%')
    then plain
    else if d == b's'
    then string
    else if d == b'd'
    then decimal
    else if d == b'x'
    then hexadecimal
    else if d == b'c'
    then character
    else dropped

-- `va_arg`
next_arg : List ℕ → Outcome (ℕ × List ℕ)
next_arg [] = fault
next_arg (n ∷ ap) = ok (n, ap)

module _ {S : Type 0} where
  -- `__printk_emit_notty`, with `console_send`.
  unfoldable pub printk_emit_notty : (ℕ → S → Outcome S) → ℕ → S → Outcome S
  printk_emit_notty console_send c s = (if c == 0 then ok s else console_send c s) >>= λ s'.
      if c == newline then console_send carriage_return s' else ok s'

  -- `__printk_emit_tty`, with the write of one character to the terminal. It calls itself for the
  -- carriage return, which calls nothing.
  unfoldable pub printk_emit_tty : (ℕ → S → Outcome S) → ℕ → S → Outcome S
  printk_emit_tty write c s =
      write c s >>= λ s'. if c == newline then write carriage_return s' else ok s'

  module _ (emit : ℕ → S → Outcome S) where
    unfoldable pub printk_emit : List ℕ → S → Outcome S
    printk_emit [] s = ok s
    printk_emit (c ∷ text) s = emit c s >>= printk_emit text

    -- `itoa` of an argument, and the output of the digits.
    unfoldable emit_number : ℕ → ℕ → S → Outcome S
    emit_number base n s = itoa n base >>= λ digits. printk_emit digits s

    module _ (string_at : ℕ → List ℕ) where
      -- One round of `vprintk`: `next` goes on behind the first character, `after` behind the second.
      step :
          Directive
          → ℕ
          → List ℕ
          → S
          → (List ℕ → S → Outcome S)
          → (List ℕ → S → Outcome S)
          → Outcome S
      step plain c ap s next after = emit c s >>= next ap
      step dropped c ap s next after = next ap s
      step string c ap s next after =
          next_arg ap >>= λ (p, rest). printk_emit (string_at p) s >>= after rest
      step decimal c ap s next after =
          next_arg ap >>= λ (n, rest). emit_number 10 n s >>= after rest
      step hexadecimal c ap s next after =
          next_arg ap >>= λ (n, rest). emit_number 16 n s >>= after rest
      step character c ap s next after =
          next_arg ap >>= λ (n, rest). emit (n % 256) s >>= after rest

      -- The characters of the format that are left, and the arguments; the terminator stands behind the
      -- last character.
      unfoldable pub vprintk : List ℕ → List ℕ → S → Outcome S
      unfolding step emit_number next_arg
      vprintk [] ap s = ok s
      vprintk (c ∷ []) ap s = step (directive c 0) c ap s (λ rest t. ok t) (λ rest t. ok t)
      vprintk (c ∷ d ∷ fmt) ap s = step (directive c d) c ap s (vprintk (d ∷ fmt)) (vprintk fmt)

      -- The loop of `printk_ticks` that fills the number up with zeros.
      pad_zeros : ℕ → S → Outcome S
      pad_zeros zero s = ok s
      pad_zeros (suc rounds) s = vprintk (b'0' ∷ []) [] s >>= pad_zeros rounds

      unfoldable pub printk_ticks : ℕ → S → Outcome S
      unfolding pad_zeros
      printk_ticks ticks s = do
        str ← itoa ticks 10
        s1 ← vprintk (b'[' ∷ []) [] s
        s2 ← pad_zeros (6 - length str) s1
        s3 ← vprintk str [] s2
        vprintk (b']' ∷ b' ' ∷ []) [] s3

      unfoldable pub printk : ℕ → List ℕ → List ℕ → S → Outcome S
      unfolding printk_ticks
      printk ticks fmt ap s = printk_ticks ticks s >>= vprintk fmt ap

      abbrev pub panic_text : List ℕ
      panic_text =
          b'K' ∷ b'e' ∷ b'r' ∷ b'n' ∷ b'e' ∷ b'l' ∷ b' ' ∷ b'p' ∷ b'a' ∷ b'n' ∷ b'i' ∷ b'c' ∷ b':'
          ∷ b' ' ∷ []

      -- `panic` prints its message and never returns.
      unfoldable pub panic_loop : ℕ → List ℕ → List ℕ → S → Outcome S
      unfolding printk
      panic_loop ticks fmt ap s = printk ticks panic_text [] s >>= vprintk fmt ap >>= λ _. hang
