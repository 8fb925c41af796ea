-- ===== src/Kernel/Printk/Format.antt =====
-- Formats put together from pieces, and what `vprintk` of kernel/printk.c prints for them.
use levos.Prelude.{
  ℕ, ◌%◌, ◌^◌, ◌<◌, ◌≡◌, ◌≢◌, ◌∙◌, refl, sym, ap as cong, arith, List, [], ◌∷◌, ◌++◌, false, ◌==◌,
  All,
}
use mathlib.Core.Path.{fun_ext}
use levos.Prelude.Outcome.{Outcome, ok, panic, fault, hang, ◌>>=◌}
use levos.Libc.Itoa.Digits.{value, IsNumeral, value-itoa}
use levos.Kernel.Printk.{directive, next_arg, printk_emit, emit_number, vprintk}

-- A piece of a format with its argument: a character, the string at a pointer, a number or a character.
pub data Piece : Type 0 where
  a_char : ℕ → Piece
  the_string : ℕ → Piece
  the_decimal : ℕ → Piece
  the_hexadecimal : ℕ → Piece
  the_char : ℕ → Piece

-- The format, and the arguments that it takes.
abbrev pub format_of : List Piece → List ℕ
format_of [] = []
format_of (a_char c ∷ ps) = c ∷ format_of ps
format_of (the_string p ∷ ps) = b'%' ∷ b's' ∷ format_of ps
format_of (the_decimal n ∷ ps) = b'%' ∷ b'd' ∷ format_of ps
format_of (the_hexadecimal n ∷ ps) = b'%' ∷ b'x' ∷ format_of ps
format_of (the_char n ∷ ps) = b'%' ∷ b'c' ∷ format_of ps

abbrev pub args_of : List Piece → List ℕ
args_of [] = []
args_of (a_char c ∷ ps) = args_of ps
args_of (the_string p ∷ ps) = p ∷ args_of ps
args_of (the_decimal n ∷ ps) = n ∷ args_of ps
args_of (the_hexadecimal n ∷ ps) = n ∷ args_of ps
args_of (the_char n ∷ ps) = n ∷ args_of ps

-- A character of its own is not a percent sign, and an argument is a 32-bit word.
abbrev pub IsPiece : Piece → Type 0
IsPiece (a_char c) = c ≢ b'%'
IsPiece (the_string p) = p < 2 ^ 32
IsPiece (the_decimal n) = n < 2 ^ 32
IsPiece (the_hexadecimal n) = n < 2 ^ 32
IsPiece (the_char n) = n < 2 ^ 32

-- The text spells the number in the base: digits of the base, at least one, with no 0 in front of others.
abbrev pub Spells : ℕ → ℕ → List ℕ → Type 0
Spells base n text = (value base 0 text ≡ n) × IsNumeral base text

module _ (string_at : ℕ → List ℕ) where
  -- The text is what the pieces stand for: numbers are spelled in their base.
  pub data Prints : List Piece → List ℕ → Type 0 where
    nothing : Prints [] []
    char_itself :
        {c : ℕ} {ps : List Piece} {out : List ℕ} → Prints ps out → Prints (a_char c ∷ ps) (c ∷ out)
    whole_string :
        {p : ℕ} {ps : List Piece} {out : List ℕ}
        → Prints ps out
        → Prints (the_string p ∷ ps) (string_at p ++ out)
    in_decimal :
        {n : ℕ} {ps : List Piece} (text : List ℕ) {out : List ℕ}
        → Spells 10 n text
        → Prints ps out
        → Prints (the_decimal n ∷ ps) (text ++ out)
    in_hexadecimal :
        {n : ℕ} {ps : List Piece} (text : List ℕ) {out : List ℕ}
        → Spells 16 n text
        → Prints ps out
        → Prints (the_hexadecimal n ∷ ps) (text ++ out)
    low_byte :
        {n : ℕ} {ps : List Piece} {out : List ℕ}
        → Prints ps out
        → Prints (the_char n ∷ ps) (n % 256 ∷ out)

>>=-assoc :
    {A B C : Type 0} (m : Outcome A) (f : A → Outcome B) (g : B → Outcome C)
    → (m >>= f >>= g) ≡ (m >>= λ a. f a >>= g)
>>=-assoc (ok a) f g = refl
>>=-assoc panic f g = refl
>>=-assoc fault f g = refl
>>=-assoc hang f g = refl

module _ {S : Type 0} (emit : ℕ → S → Outcome S) (string_at : ℕ → List ℕ) where
  printk_emit-append :
      (a b : List ℕ) (s : S)
      → printk_emit emit (a ++ b) s ≡ (printk_emit emit a s >>= printk_emit emit b)
  unfolding printk_emit
  printk_emit-append [] b s = refl
  printk_emit-append (c ∷ a) b s =
      cong (λ (k : S → Outcome S). emit c s >>= k) (fun_ext (printk_emit-append a b))
      ∙ sym (>>=-assoc (emit c s) (printk_emit emit a) (printk_emit emit b))

  pub vprintk-char :
      (c : ℕ) (fmt ap : List ℕ) (s : S)
      → c ≢ b'%'
      → vprintk emit string_at (c ∷ fmt) ap s ≡ (emit c s >>= vprintk emit string_at fmt ap)
  unfolding vprintk directive
  vprintk-char c [] ap s ne = let other : (c == b'%') ≡ false = ground arith in rw other refl
  vprintk-char c (d ∷ fmt) ap s ne = let other : (c == b'%') ≡ false = ground arith in rw other refl

  -- A piece's own text, and then the rest.
  emit_then :
      (text out : List ℕ) (next : S → Outcome S) (s : S)
      → ((t : S) → next t ≡ printk_emit emit out t)
      → (printk_emit emit text s >>= next) ≡ printk_emit emit (text ++ out) s
  emit_then text out next s same =
      cong (λ (k : S → Outcome S). printk_emit emit text s >>= k) (fun_ext same)
      ∙ sym (printk_emit-append text out s)

  char_then :
      (c : ℕ) (out : List ℕ) (next : S → Outcome S) (s : S)
      → ((t : S) → next t ≡ printk_emit emit out t)
      → (emit c s >>= next) ≡ printk_emit emit (c ∷ out) s
  unfolding printk_emit
  char_then c out next s same = cong (λ (k : S → Outcome S). emit c s >>= k) (fun_ext same)

  -- Whatever the emitter does, `vprintk` of a format put together from pieces emits, character by
  -- character, one text that the pieces stand for, with the numbers spelled in the digits of their base, at
  -- least one and none of them a needless 0 in front; arguments behind those of the pieces make no difference.
  pub vprintk-Prints :
      (ps : List Piece) (more : List ℕ)
      → All IsPiece ps
      → (out : List ℕ) × Prints string_at ps out
        × ((s : S)
            → vprintk emit string_at (format_of ps) (args_of ps ++ more) s ≡ printk_emit emit out s)
  unfolding vprintk directive next_arg emit_number
  vprintk-Prints [] more h = ([], nothing, λ s. unfold printk_emit in refl)
  vprintk-Prints (a_char c ∷ ps) more (ne, h) =
      let (out, prints, run) = vprintk-Prints ps more h in
      (
        c ∷ out,
        char_itself prints,
        λ s. vprintk-char c (format_of ps) (args_of ps ++ more) s ne ∙ char_then c out _ s run,
      )
  vprintk-Prints (the_string p ∷ ps) more (_, h) =
      let (out, prints, run) = vprintk-Prints ps more h in
      (string_at p ++ out, whole_string prints, λ s. emit_then (string_at p) out _ s run)
  vprintk-Prints (the_decimal n ∷ ps) more (small, h) =
      let (out, prints, run) = vprintk-Prints ps more h in
      let (text, digits, spells, _, numeral) = value-itoa n 10 (omega arith) (omega arith) small in
      (
        text ++ out,
        in_decimal text (spells, numeral) prints,
        λ s. rw digits (emit_then text out _ s run),
      )
  vprintk-Prints (the_hexadecimal n ∷ ps) more (small, h) =
      let (out, prints, run) = vprintk-Prints ps more h in
      let (text, digits, spells, _, numeral) = value-itoa n 16 (omega arith) (omega arith) small in
      (
        text ++ out,
        in_hexadecimal text (spells, numeral) prints,
        λ s. rw digits (emit_then text out _ s run),
      )
  vprintk-Prints (the_char n ∷ ps) more (_, h) =
      let (out, prints, run) = vprintk-Prints ps more h in
      (n % 256 ∷ out, low_byte prints, λ s. char_then (n % 256) out _ s run)
