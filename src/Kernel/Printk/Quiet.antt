-- ===== src/Kernel/Printk/Quiet.antt =====
-- What `printk` of kernel/printk.c leaves alone: whatever each character leaves alone.
use levos.Prelude.{
  ℕ, zero, suc, ◌-◌, ◌^◌, ◌<◌, ◌≡◌, ◌≢◌, ◌∙◌, refl, sym, arith, List, [], ◌∷◌, All, false, ◌==◌,
  get_or, length, append-nil,
}
use levos.Prelude.Outcome.{Outcome, ok, ◌>>=◌}
use levos.Libc.Itoa.{bchars}
use levos.Libc.Itoa.Digits.{AreDigits, value-itoa}
use levos.Kernel.Printk.{printk_emit, vprintk, pad_zeros, printk_ticks, printk}
use levos.Kernel.Printk.Format.{Piece, IsPiece, format_of, args_of, vprintk-char, vprintk-Prints}

-- The computation returns, and keeps a part of the state.
abbrev pub Keeps : {S X : Type 0} → (S → X) → (S → Outcome S) → Type 0
Keeps {S} part f = (s : S) → (s' : S) × (f s ≡ ok s') × (part s' ≡ part s)

pub Keeps->>= :
    {S X : Type 0} (part : S → X) (f g : S → Outcome S)
    → Keeps part f
    → Keeps part g
    → Keeps part (λ s. f s >>= g)
Keeps->>= part f g kf kg s =
    let (s1, run, same) = kf s in
    let (s2, run', same') = kg s1 in (s2, rw (run, run') refl, same' ∙ same)

IsPlain : List ℕ → Type 0
IsPlain = All (λ c. c ≢ b'%')

digit-plain : (d : ℕ) → d < 10 → (get_or bchars d 0 == b'%') ≡ false
digit-plain d h = ground arith

AreDigits-IsPlain : (s : List ℕ) → AreDigits 10 s → IsPlain s
unfolding IsPlain
AreDigits-IsPlain [] h = tt
AreDigits-IsPlain (c ∷ s) ((d, lt, e), h) =
    (λ p. let no = digit-plain d lt in ground (arith, e, p), AreDigits-IsPlain s h)

module _ {S X : Type 0} (emit : ℕ → S → Outcome S) (string_at : ℕ → List ℕ) (part : S → X)
    (quiet : (c : ℕ) → Keeps part (emit c)) where
  Keeps-printk_emit : (text : List ℕ) → Keeps part (printk_emit emit text)
  unfolding printk_emit
  Keeps-printk_emit [] s = (s, refl, refl)
  Keeps-printk_emit (c ∷ text) s =
      Keeps->>= part (emit c) (printk_emit emit text) (quiet c) (Keeps-printk_emit text) s

  Keeps-plain : (text ap : List ℕ) → IsPlain text → Keeps part (vprintk emit string_at text ap)
  unfolding vprintk IsPlain
  Keeps-plain [] ap h s = (s, refl, refl)
  Keeps-plain (c ∷ text) ap (ne, h) s =
      rw (vprintk-char emit string_at c text ap s ne) (
        Keeps->>= part (emit c) (vprintk emit string_at text ap) (quiet c) (Keeps-plain text ap h)
          s)

  Keeps-pieces :
      (ps : List Piece)
      → All IsPiece ps
      → Keeps part (vprintk emit string_at (format_of ps) (args_of ps))
  Keeps-pieces ps h s =
      let (out, prints, run) = vprintk-Prints emit string_at ps [] h in
      rw (sym (append-nil (args_of ps)), run s) (Keeps-printk_emit out s)

  Keeps-pad_zeros : (n : ℕ) → Keeps part (pad_zeros emit string_at n)
  unfolding pad_zeros IsPlain
  Keeps-pad_zeros zero s = (s, refl, refl)
  Keeps-pad_zeros (suc n) s =
      Keeps->>= part (vprintk emit string_at (b'0' ∷ []) []) (pad_zeros emit string_at n)
        (Keeps-plain (b'0' ∷ []) [] ((omega arith), tt)) (Keeps-pad_zeros n) s

  Keeps-printk_ticks : (ticks : ℕ) → ticks < 2 ^ 32 → Keeps part (printk_ticks emit string_at ticks)
  unfolding printk_ticks IsPlain
  Keeps-printk_ticks ticks small s =
      let (str, digits, _, _, numeral) = value-itoa ticks 10 (omega arith) (omega arith) small in
      let (s1, run1, same1) = Keeps-plain (b'[' ∷ []) [] ((omega arith), tt) s in
      let (s2, run2, same2) = Keeps-pad_zeros (6 - length str) s1 in
      let (s3, run3, same3) = Keeps-plain str [] (AreDigits-IsPlain str numeral.digits) s2 in
      let (s4, run4, same4) =
        Keeps-plain (b']' ∷ b' ' ∷ []) [] ((omega arith), ((omega arith), tt)) s3 in
      (s4, rw (digits, run1, run2, run3, run4) refl, same4 ∙ same3 ∙ same2 ∙ same1)

  -- `printk` of a format put together from pieces returns, and keeps what each character keeps.
  pub Keeps-printk :
      (ticks : ℕ) (ps : List Piece)
      → ticks < 2 ^ 32
      → All IsPiece ps
      → Keeps part (printk emit string_at ticks (format_of ps) (args_of ps))
  unfolding printk
  Keeps-printk ticks ps small h s =
      Keeps->>= part (printk_ticks emit string_at ticks)
        (vprintk emit string_at (format_of ps) (args_of ps)) (Keeps-printk_ticks ticks small)
        (Keeps-pieces ps h) s
