-- ===== src/Libc/Strtok/Tokens.antt =====
-- Calls of strtok, the first with the string and the others with null, until one returns null.
use levos.Prelude.{
  ℕ, zero, suc, ◌≤◌, ◌<◌, ◌≡◌, ◌≢◌, ◌∙◌, refl, ap, arith, List, [], ◌∷◌, true, Option, none, some,
  length, All,
}
use levos.Libc.Strtok.{is_delim, scan, strtok}
use levos.Libc.Strtok.Components.{
  components, components-join, has_delim, join, IsPart, Scans, scan-Scans, next_call, strtok-fresh,
}

-- The tokens that the calls give, at most `fuel` of them, and `sp` at the end.
pub tokens : ℕ → List ℕ → Option (List ℕ) × Option (List ℕ) → List (List ℕ) × Option (List ℕ)
tokens zero delim (found, sp) = ([], sp)
tokens (suc fuel) delim (none, sp) = ([], sp)
tokens (suc fuel) delim (some token, sp) =
    let (more, end) = tokens fuel delim (strtok none delim sp) in (token ∷ more, end)

tokens-Scans :
    (fuel n : ℕ) (delim : List ℕ) (parts : List (List ℕ)) (out : Option (List ℕ) × Option (List ℕ))
    → length delim ≢ 0
    → Scans delim n parts out
    → n ≤ fuel
    → ((r : List ℕ)
        → length r < fuel
        → tokens fuel delim (scan delim (some r)) ≡ (components delim r, none))
    → tokens (suc fuel) delim out ≡ (parts, none)
unfolding tokens
tokens-Scans fuel n delim [] out ne e h ih = rw e refl
tokens-Scans fuel n delim (part ∷ parts) out ne (rest, e, same, lt) h ih =
    rw (e, next_call delim rest ne, ih rest (omega arith), same)

tokens-scan :
    (fuel : ℕ) (delim s : List ℕ)
    → length delim ≢ 0
    → length s < fuel
    → tokens fuel delim (scan delim (some s)) ≡ (components delim s, none)
tokens-scan zero delim s ne h = absurd (omega arith)
tokens-scan (suc fuel) delim s ne h =
    tokens-Scans fuel (length s) delim (components delim s) (scan delim (some s)) ne
      (scan-Scans delim s) (omega arith) (λ r hr. tokens-scan fuel delim r ne hr)

-- With at least one delimiter, strtok called on a string while nothing is being cut up, and then on
-- null, gives exactly the parts of the string between delimiters that are not empty, in order, then
-- null, and is ready for another string; one call more than the string has characters is enough.
pub tokens-strtok :
    (fuel : ℕ) (delim s : List ℕ)
    → length delim ≢ 0
    → length s < fuel
    → tokens fuel delim (strtok (some s) delim none) ≡ (components delim s, none)
tokens-strtok fuel delim s ne h = rw (strtok-fresh delim s ne) (tokens-scan fuel delim s ne h)

-- Parts that are not empty and hold no delimiter, each with the same delimiter in front, are put
-- together to a path: the tokens that strtok gives of it, in one call more than it has characters, are
-- the parts.
pub tokens-join :
    (fuel : ℕ) (delim : List ℕ) (c : ℕ) (parts : List (List ℕ))
    → is_delim delim c ≡ true
    → All (IsPart delim) parts
    → length (join c parts) < fuel
    → tokens fuel delim (strtok (some (join c parts)) delim none) ≡ (parts, none)
tokens-join fuel delim c parts sep h enough =
    tokens-strtok fuel delim (join c parts) (has_delim delim c sep) enough
    ∙ ap (λ t. (t, none)) (components-join delim c parts sep h)
