-- ===== src/Libc/Str/Compare.antt =====
-- What strlen, strcmp and strncmp of lib/string.c say of strings.
use levos.Prelude.{
  ℕ, zero, suc, ◌≤◌, ◌<◌, ◌≡◌, ◌≢◌, ◌↔◌, refl, ap, arith, List, [], ◌∷◌, ◌++◌, ◌==◌, length, take,
  All, Bool-cases, inl, inr,
}
use levos.Prelude.Outcome.{Outcome, ok}
use levos.Libc.Str.{difference, strlen, strcmp, strncmp}

-- The characters of a string, none of which is the terminator.
abbrev pub IsText : List ℕ → Type 0
IsText = All (λ c. (c ≢ 0) × (c < 256))

abbrev pub IsBytes : List ℕ → Type 0
IsBytes = All (λ c. c < 256)

-- A string in memory: its characters, the terminator, and what follows.
abbrev pub c_string : List ℕ → List ℕ → List ℕ
c_string s rest = s ++ (0 ∷ rest)

-- `strlen` of a terminated string returns the number of its characters, whatever follows it.
pub strlen-c_string : (s rest : List ℕ) → IsText s → strlen (c_string s rest) ≡ ok (length s)
unfolding strlen
strlen-c_string [] rest h = refl
strlen-c_string (c ∷ s) rest ((ne, lt), h) = elim (Bool-cases (c == 0)) [
  | inl e ↦ absurd (ne (ground arith))
  | inr e ↦ rw (e, strlen-c_string s rest h) (ap ok (omega arith))
]

-- The two strings are compared to their end.
abbrev Compares : List ℕ → List ℕ → Outcome ℕ → Type 0
Compares s t out = (n : ℕ) × (out ≡ ok n) × ((n ≡ 0) ↔ (s ≡ t))

cons_iff : (x : ℕ) (s t : List ℕ) (n : ℕ) → ((n ≡ 0) ↔ (s ≡ t)) → (n ≡ 0) ↔ (x ∷ s ≡ x ∷ t)
cons_iff x s t n (to, from) = (λ z. cc (to z), λ e. from (cc))

-- `strcmp` of two terminated strings returns, and it returns 0 exactly when their characters are the
-- same, whatever follows the terminators.
pub strcmp_iff :
    (s t rest rest' : List ℕ)
    → IsText s
    → IsText t
    → (n : ℕ) × (strcmp (c_string s rest) (c_string t rest') ≡ ok n) × ((n ≡ 0) ↔ (s ≡ t))
unfolding strcmp
strcmp_iff [] [] rest rest' hs ht = (0, refl, (λ _. refl, λ _. refl))
strcmp_iff [] (y ∷ t) rest rest' hs ((ne, lt), ht) =
    (difference 0 y, ground arith, (λ z. absurd (omega arith), λ e. cc))
strcmp_iff (x ∷ s) [] rest rest' ((ne, lt), hs) ht =
    (difference x 0, ground arith, (λ z. absurd (omega arith), λ e. cc))
strcmp_iff (x ∷ s) (y ∷ t) rest rest' ((nx, lx), hs) ((ny, ly), ht) =
    let (n, run, same) = strcmp_iff s t rest rest' hs ht in
    elim (Bool-cases (x == y)) [
      | inl e ↦ let exy : x ≡ y = ground arith in (n, ground arith, rw exy (cons_iff y s t n same))
      | inr e ↦
          (difference x y, ground arith, (λ z. absurd (ground arith), λ e'. absurd (ground arith)))
    ]

-- `strncmp` compares exactly `n` bytes, terminators like any other byte: with `n` bytes on both sides it
-- returns, and it returns 0 exactly when the first `n` bytes are the same.
pub strncmp_iff :
    (n : ℕ) (s t : List ℕ)
    → n ≤ length s
    → n ≤ length t
    → IsBytes s
    → IsBytes t
    → (r : ℕ) × (strncmp s t n ≡ ok r) × ((r ≡ 0) ↔ (take n s ≡ take n t))
unfolding strncmp
strncmp_iff zero s t hs ht bs bt = (0, refl, (λ _. refl, λ _. refl))
strncmp_iff (suc n) [] t hs ht bs bt = absurd (omega arith)
strncmp_iff (suc n) (x ∷ s) [] hs ht bs bt = absurd (omega arith)
strncmp_iff (suc n) (x ∷ s) (y ∷ t) hs ht (bx, bs) (by, bt) =
    let (r, run, same) = strncmp_iff n s t (omega arith) (omega arith) bs bt in
    elim (Bool-cases (x == y)) [
      | inl e ↦
          let exy : x ≡ y = ground arith in
          (r, ground arith, rw exy (cons_iff y (take n s) (take n t) r same))
      | inr e ↦
          (difference x y, ground arith, (λ z. absurd (ground arith), λ e'. absurd (ground arith)))
    ]
