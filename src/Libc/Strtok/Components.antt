-- ===== src/Libc/Strtok/Components.antt =====
-- The parts of a string between delimiters, which strtok of lib/string.c gives one by one.
use levos.Prelude.{
  ℕ, ◌≤◌, ◌<◌, ◌≡◌, ◌≢◌, ◌∙◌, refl, sym, ap, arith, List, [], ◌∷◌, ◌++◌, append-nil, true, false,
  Option, none, some, length, All, ◌==◌, if◌then◌else◌, Bool-cases, inl, inr,
}
use levos.Libc.Strtok.{is_delim, skip_delims, cut, cut_token, scan, strtok}

-- A character in front of the first part.
onto : ℕ → List (List ℕ) → List (List ℕ)
onto c [] = (c ∷ []) ∷ []
onto c (part ∷ parts) = (c ∷ part) ∷ parts

-- The string cut at each delimiter, empty parts included.
split : List ℕ → List ℕ → List (List ℕ)
split delim [] = [] ∷ []
split delim (c ∷ s) = if is_delim delim c then [] ∷ split delim s else onto c (split delim s)

drop_empty : List (List ℕ) → List (List ℕ)
drop_empty [] = []
drop_empty ([] ∷ parts) = drop_empty parts
drop_empty ((c ∷ part) ∷ parts) = (c ∷ part) ∷ drop_empty parts

-- The parts of the string between delimiters that are not empty.
unfoldable pub components : List ℕ → List ℕ → List (List ℕ)
unfolding split drop_empty onto
components delim s = drop_empty (split delim s)

components-delim :
    (delim : List ℕ) (c : ℕ) (s : List ℕ)
    → is_delim delim c ≡ true
    → components delim (c ∷ s) ≡ components delim s
unfolding components
components-delim delim c s e = rw e

components-skip : (delim s : List ℕ) → components delim (skip_delims delim s) ≡ components delim s
unfolding skip_delims
components-skip delim [] = refl
components-skip delim (c ∷ s) = elim (Bool-cases (is_delim delim c)) [
  | inl e ↦ rw e (components-skip delim s) ∙ sym (components-delim delim c s e)
  | inr e ↦ rw e
]

-- What `cut` takes off is the first part, and what it leaves holds the others.
split-cut :
    (delim s : List ℕ)
    → (more : List (List ℕ)) × (split delim s ≡ (cut delim s).0 ∷ more)
      × (drop_empty more ≡ components delim (cut delim s).1)
unfolding split cut components onto
split-cut delim [] = ([], refl, refl)
split-cut delim (c ∷ s) = elim (Bool-cases (is_delim delim c)) [
  | inl e ↦ (split delim s, rw e, rw e)
  | inr e ↦ let (more, first, others) = split-cut delim s in (more, rw (e, first), rw e others)
]

cut-length : (delim s : List ℕ) → length (cut delim s).1 ≤ length s
unfolding cut
cut-length delim [] = omega arith
cut-length delim (c ∷ s) = ground (arith, cut-length delim s)

-- A string that begins with no delimiter gives its first token.
components-cut :
    (delim : List ℕ) (c : ℕ) (s : List ℕ)
    → is_delim delim c ≡ false
    → components delim (c ∷ s) ≡ (cut delim (c ∷ s)).0 ∷ components delim (cut delim (c ∷ s)).1
unfolding components cut split
components-cut delim c s e =
    let (more, first, others) = split-cut delim s in
    rw (e, first) (unfold onto drop_empty in ap (λ t. (c ∷ (cut delim s).0) ∷ t) others)

-- What is left behind the delimiters in front.
data Skipped (delim : List ℕ) : List ℕ → Type 0 where
  end : Skipped delim []
  token : (c : ℕ) (s : List ℕ) → is_delim delim c ≡ false → Skipped delim (c ∷ s)

skip-Skipped : (delim s : List ℕ) → Skipped delim (skip_delims delim s)
unfolding skip_delims
skip-Skipped delim [] = end
skip-Skipped delim (c ∷ s) = elim (Bool-cases (is_delim delim c)) [
  | inl e ↦ rw e (skip-Skipped delim s)
  | inr e ↦ rw e (token c s e)
]

skip-length : (delim s : List ℕ) → length (skip_delims delim s) ≤ length s
unfolding skip_delims
skip-length delim [] = omega arith
skip-length delim (c ∷ s) = ground (arith, skip-length delim s)

pub next_call :
    (delim rest : List ℕ)
    → length delim ≢ 0
    → strtok none delim (some rest) ≡ scan delim (some rest)
unfolding strtok
next_call delim rest ne = elim (Bool-cases (length delim == 0)) [
  | inl e ↦ absurd (ne (ground arith))
  | inr e ↦ rw e
]

cut-shorter :
    (delim : List ℕ) (c : ℕ) (s : List ℕ)
    → is_delim delim c ≡ false
    → length (cut delim (c ∷ s)).1 ≤ length s
unfolding cut
cut-shorter delim c s e = rw e (cut-length delim s)

-- A path: each part behind a separator.
unfoldable pub join : ℕ → List (List ℕ) → List ℕ
join c [] = []
join c (part ∷ parts) = c ∷ (part ++ join c parts)

-- A part of a path: not empty, and without delimiters.
abbrev pub IsPart : List ℕ → List ℕ → Type 0
IsPart delim part = (part ≢ []) × All (λ c. is_delim delim c ≡ false) part

split-part :
    (delim part : List ℕ) (c : ℕ) (s : List ℕ)
    → is_delim delim c ≡ true
    → All (λ x. is_delim delim x ≡ false) part
    → split delim (part ++ (c ∷ s)) ≡ part ∷ split delim s
unfolding split
split-part delim [] c s sep h = rw sep
split-part delim (x ∷ part) c s sep (hx, h) =
    rw (hx, split-part delim part c s sep h) (unfold onto in refl)

split-last :
    (delim part : List ℕ) → All (λ x. is_delim delim x ≡ false) part → split delim part ≡ part ∷ []
unfolding split
split-last delim [] h = refl
split-last delim (x ∷ part) (hx, h) = rw (hx, split-last delim part h) (unfold onto in refl)

keep_part :
    (part : List ℕ) (parts : List (List ℕ))
    → part ≢ []
    → drop_empty (part ∷ parts) ≡ part ∷ drop_empty parts
unfolding drop_empty
keep_part [] parts ne = absurd (ne refl)
keep_part (c ∷ part) parts ne = refl

pub components-join :
    (delim : List ℕ) (c : ℕ) (parts : List (List ℕ))
    → is_delim delim c ≡ true
    → All (IsPart delim) parts
    → components delim (join c parts) ≡ parts
unfolding components join
components-join delim c [] sep h = unfold split drop_empty in refl
components-join delim c (part ∷ []) sep ((ne, h), _) =
    components-delim delim c (part ++ []) sep
    ∙ rw (append-nil, split-last delim part h) (keep_part part [] ne)
components-join delim c (part ∷ next ∷ parts) sep ((ne, h), hs) =
    components-delim delim c (part ++ join c (next ∷ parts)) sep
    ∙ rw (split-part delim part c (next ++ join c parts) sep h) (
        keep_part part (split delim (next ++ join c parts)) ne
        ∙ ap (λ t. part ∷ t)
            (sym (components-delim delim c (next ++ join c parts) sep)
              ∙ components-join delim c (next ∷ parts) sep hs))

pub has_delim : (delim : List ℕ) (c : ℕ) → is_delim delim c ≡ true → length delim ≢ 0
unfolding is_delim
has_delim [] c e = cc
has_delim (d ∷ delim) c e = omega arith

-- What one call gives of a string with the components `parts`, of length `n`.
abbrev pub Scans : List ℕ → ℕ → List (List ℕ) → Option (List ℕ) × Option (List ℕ) → Type 0
Scans delim n [] out = out ≡ (none, none)
Scans delim n (part ∷ parts) out =
    (rest : List ℕ) × (out ≡ (some part, some rest))
    × (components delim rest ≡ parts)
    × (length rest < n)

cut-Scans :
    (delim s : List ℕ)
    → Skipped delim s
    → Scans delim (length s) (components delim s) (cut_token delim s)
unfolding cut_token
cut-Scans delim s end = unfold components split drop_empty in refl
cut-Scans delim s (token c s' e) =
    rw (components-cut delim c s' e)
      ((cut delim (c ∷ s')).1, refl, refl, omega (arith, cut-shorter delim c s' e))

Scans-weaken :
    (delim : List ℕ) (n m : ℕ) (parts : List (List ℕ)) (out : Option (List ℕ) × Option (List ℕ))
    → n ≤ m
    → Scans delim n parts out
    → Scans delim m parts out
Scans-weaken delim n m [] out h e = e
Scans-weaken delim n m (part ∷ parts) out h (rest, e, same, lt) = (rest, e, same, omega arith)

pub scan-Scans :
    (delim s : List ℕ) → Scans delim (length s) (components delim s) (scan delim (some s))
unfolding scan
scan-Scans delim s =
    Scans-weaken delim _ (length s) (components delim s) _ (skip-length delim s) (
      rw (← components-skip delim s) (cut-Scans delim (skip_delims delim s) (skip-Skipped delim s)))

pub strtok-fresh :
    (delim s : List ℕ) → length delim ≢ 0 → strtok (some s) delim none ≡ scan delim (some s)
unfolding strtok
strtok-fresh delim s ne = elim (Bool-cases (length delim == 0)) [
  | inl e ↦ absurd (ne (ground arith))
  | inr e ↦ rw e
]

-- A string given while another is being cut up is not looked at.
pub strtok-stale :
    (delim s rest : List ℕ)
    → length delim ≢ 0
    → strtok (some s) delim (some rest) ≡ scan delim (some rest)
unfolding strtok
strtok-stale delim s rest ne = elim (Bool-cases (length delim == 0)) [
  | inl e ↦ absurd (ne (ground arith))
  | inr e ↦ rw e
]
