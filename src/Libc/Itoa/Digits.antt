-- ===== src/Libc/Itoa/Digits.antt =====
-- The digits that itoa of lib/itoa.c writes spell the number.
use mathlib.Core.List.{reverse, reverse-append}
use native.Mathlib.Nat.{pow-suc, div-add-mod, mod-lt}
use levos.Prelude.{
  ℕ, zero, suc, ◌+◌, ◌-◌, ◌*◌, ◌/◌, ◌%◌, ◌^◌, ◌≤◌, ◌<◌, ◌≡◌, ◌≢◌, ◌⊎◌, ◌∙◌, refl, sym, ap, arith,
  List, [], ◌∷◌, ◌++◌, All, length, length-append, get_or, true, false, ==_iff, ◌==◌, ltb, leb,
  if◌then◌else◌, Bool-cases, inl, inr,
}
use levos.Prelude.Outcome.{ok}
use levos.Libc.Itoa.{bchars, digit_loop, copy_back, itoa}

-- The digit that a character stands for.
abbrev pub digit : ℕ → ℕ
digit c = if leb b'A' c then c - b'A' + 10 else c - b'0'

-- The number that characters spell in a base, the lowest digit first.
abbrev low_first : ℕ → List ℕ → ℕ
low_first base [] = 0
low_first base (c ∷ s) = digit c + base * low_first base s

length-reverse : (t : List ℕ) → length (reverse t) ≡ length t
length-reverse [] = refl
length-reverse (c ∷ t) =
    ap length (reverse-append (c ∷ []) t)
    ∙ omega (arith, length-append (reverse t) (c ∷ []), length-reverse t)

-- The number that characters spell in a base, read behind `n`.
abbrev pub value : ℕ → ℕ → List ℕ → ℕ
value base n [] = n
value base n (c ∷ s) = value base (n * base + digit c) s

digit_table : (d : ℕ) → d < 16 → (digit (get_or bchars d 0) == d) ≡ true
digit_table d h = ground arith

digit-bchars : (d : ℕ) → d < 16 → digit (get_or bchars d 0) ≡ d
digit-bchars d h = (==_iff _ d).0 (digit_table d h)

quotient-lt : (i base fuel : ℕ) → 2 ≤ base → i < 2 ^ suc fuel → i / base < 2 ^ fuel
quotient-lt i base fuel two h = grind (arith, pow-suc 2 fuel, div-add-mod i base)

-- The last of the characters, the highest digit where the lowest one is first.
top : List ℕ → ℕ
top [] = 0
top (c ∷ []) = c
top (c ∷ d ∷ s) = top (d ∷ s)

-- Each character is a digit of the base.
abbrev pub AreDigits : ℕ → List ℕ → Type 0
AreDigits base = All (λ c. (d : ℕ) × (d < base) × (c ≡ get_or bchars d 0))

AreDigits-append :
    (base : ℕ) (s t : List ℕ) → AreDigits base s → AreDigits base t → AreDigits base (s ++ t)
AreDigits-append base [] t hs ht = ht
AreDigits-append base (c ∷ s) t (h, hs) ht = (h, AreDigits-append base s t hs ht)

AreDigits-reverse : (base : ℕ) (t : List ℕ) → AreDigits base t → AreDigits base (reverse t)
AreDigits-reverse base [] h = tt
AreDigits-reverse base (c ∷ t) (h, hs) =
    rw (reverse-append (c ∷ []) t)
      (AreDigits-append base (reverse t) (c ∷ []) (AreDigits-reverse base t hs) (h, tt))

head-append : (s : List ℕ) (c : ℕ) → 0 < length s → get_or (s ++ (c ∷ [])) 0 0 ≡ get_or s 0 0
head-append [] c h = absurd (omega arith)
head-append (d ∷ s) c h = refl

head-reverse : (t : List ℕ) → get_or (reverse t) 0 0 ≡ top t
unfolding top
head-reverse [] = refl
head-reverse (c ∷ []) = refl
head-reverse (c ∷ d ∷ t) =
    let long : length (reverse (d ∷ t)) ≡ length t + 1 = omega (arith, length-reverse (d ∷ t)) in
    ap (λ (s : List ℕ). get_or s 0 0) (reverse-append (c ∷ []) (d ∷ t))
    ∙ head-append (reverse (d ∷ t)) c (omega arith)
    ∙ head-reverse (d ∷ t)

-- What is stored of a number: nothing of 0, and else digits of which the highest one is not 0.
record Shape (base i : ℕ) (t : List ℕ) : Type 0 where
  digits : AreDigits base t
  nothing : i ≡ 0 → length t ≡ 0
  long : 0 < i → 0 < length t
  high : 0 < i → top t ≢ b'0'

top-step : (c q base : ℕ) (t : List ℕ) → Shape base q t → (q ≡ 0 → c ≢ b'0') → top (c ∷ t) ≢ b'0'
unfolding top
top-step c zero base [] shape last = last refl
top-step c (suc q) base [] shape last = absurd (let e = shape.long (omega arith) in omega arith)
top-step c zero base (d ∷ t) shape last = absurd (let e = shape.nothing refl in omega arith)
top-step c (suc q) base (d ∷ t) shape last = shape.high (omega arith)

Shape-more :
    (i base : ℕ) (t : List ℕ)
    → 2 ≤ base
    → base ≤ 16
    → 0 < i
    → Shape base (i / base) t
    → Shape base i (get_or bchars (i % base) 0 ∷ t)
Shape-more i base t two small some shape =
    let lt = mod-lt i {m = base} (omega arith) in
    let back = digit-bchars (i % base) (omega (arith, lt)) in
    record {
      digits = ((i % base, lt, refl), shape.digits);
      nothing = λ z. absurd (omega arith);
      long = λ h. omega arith;
      high = λ h. top-step _ (i / base) base t shape (λ z e.
          let none : digit (get_or bchars (i % base) 0) ≡ 0 = rw e refl in
          omega (arith, back, none, z, div-add-mod i base, ap (λ (q : ℕ). base * q) z));
    }

none_of : (i base : ℕ) → i ≡ 0 → Shape base i []
none_of i base z = record {
  digits = tt;
  nothing = λ e. refl;
  long = λ h. absurd (omega arith);
  high = λ h. absurd (omega arith);
}

digit_loop-low_first :
    (fuel i base : ℕ)
    → 2 ≤ base
    → base ≤ 16
    → i < 2 ^ fuel
    → (t : List ℕ) × (digit_loop fuel i base ≡ ok t)
      × (low_first base t ≡ i)
      × (length t ≤ fuel)
      × Shape base i t
unfolding digit_loop
digit_loop-low_first zero i base two small h =
    let z : i ≡ 0 = omega arith in ([], rw z, sym z, omega arith, none_of i base z)
digit_loop-low_first (suc fuel) i base two small h =
    let (t, run, spells, short, shape) =
      digit_loop-low_first fuel (i / base) base two small (quotient-lt i base fuel two h) in
    elim (Bool-cases (i == 0)) [
      | inl e ↦
          let z : i ≡ 0 = ground arith in ([], rw e, omega arith, omega arith, none_of i base z)
      | inr e ↦ (
        get_or bchars (i % base) 0 ∷ t,
        rw (e, run),
        rw (digit-bchars (i % base) (omega (arith, mod-lt i {m = base} (omega arith))), spells)
            (omega (arith, div-add-mod i base)),
        omega arith,
        Shape-more i base t two small (ground arith) shape,
      )
    ]

copy_back-cons :
    (r c : ℕ) (t : List ℕ) → copy_back (c ∷ t) (suc r) r ≡ copy_back t r (r - 1) ++ (c ∷ [])
unfolding copy_back
copy_back-cons zero c t = refl
copy_back-cons (suc r) c t =
    let e : suc r - 1 ≡ r = omega arith in rw e (ap (λ s. get_or t r 0 ∷ s) (copy_back-cons r c t))

copy_back-reverse : (t : List ℕ) → copy_back t (length t) (length t - 1) ≡ reverse t
copy_back-reverse [] = unfold copy_back in refl
copy_back-reverse (c ∷ t) =
    let e : suc (length t) - 1 ≡ length t = omega arith in
    rw e (
      copy_back-cons (length t) c t
      ∙ ap (λ s. s ++ (c ∷ [])) (copy_back-reverse t)
      ∙ sym (reverse-append (c ∷ []) t))

value-append : (base n : ℕ) (s t : List ℕ) → value base n (s ++ t) ≡ value base (value base n s) t
value-append base n [] t = refl
value-append base n (c ∷ s) t = value-append base (n * base + digit c) s t

value-reverse : (base : ℕ) (t : List ℕ) → value base 0 (reverse t) ≡ low_first base t
value-reverse base [] = refl
value-reverse base (c ∷ t) =
    ap (value base 0) (reverse-append (c ∷ []) t)
    ∙ value-append base 0 (reverse t) (c ∷ [])
    ∙ rw (value-reverse base t) (omega arith)

-- The characters are digits of the base, at least one, and the first is not 0 unless it is the only one.
pub record IsNumeral (base : ℕ) (s : List ℕ) : Type 0 where
  pub digits : AreDigits base s
  pub some_digits : 0 < length s
  pub lead : (s ≡ b'0' ∷ []) ⊎ (get_or s 0 0 ≢ b'0')

-- In a base from 2 to 16 `itoa` of a 32-bit number returns, what it writes spells the number in that
-- base, with digits of the base and no 0 in front, and its digits fit the 32 characters of `tbuf`.
pub value-itoa :
    (i base : ℕ)
    → 2 ≤ base
    → base ≤ 16
    → i < 2 ^ 32
    → (s : List ℕ) × (itoa i base ≡ ok s)
      × (value base 0 s ≡ i)
      × (length s ≤ 32)
      × IsNumeral base s
unfolding itoa
value-itoa i base two small h = elim (Bool-cases (i == 0)) [
  | inl e ↦
      let z : i ≡ 0 = ground arith in
      (
        b'0' ∷ [],
        rw e,
        omega arith,
        omega arith,
        record {
          digits = ((0, omega arith, refl), tt);
          some_digits = omega arith;
          lead = inl refl;
        },
      )
  | inr e ↦
      let (t, run, spells, short, shape) = digit_loop-low_first 32 i base two small h in
      let in_range : ltb 16 base ≡ false = ground arith in
      let divides : (base == 0) ≡ false = ground arith in
      (
        reverse t,
        rw (e, in_range, divides, run) (ap ok (copy_back-reverse t)),
        value-reverse base t ∙ spells,
        rw (length-reverse t) short,
        record {
          digits = AreDigits-reverse base t shape.digits;
          some_digits = rw (length-reverse t) (shape.long (ground arith));
          lead = inr (rw (head-reverse t) (shape.high (ground arith)));
        },
      )
]
