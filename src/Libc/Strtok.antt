-- ===== src/Libc/Strtok.antt =====
-- strtok of lib/string.c. A string is the list of its characters, without the terminator. `sp`, the
-- static pointer into the string that is being cut up, is the list of the characters from it on; the
-- terminator that strtok writes ends the token and is not seen again.
pub mod Components
pub mod Tokens
use levos.Prelude.{
  ℕ, zero, suc, List, [], ◌∷◌, Bool, true, false, ◌||◌, Option, none, some, length, ◌==◌,
  if◌then◌else◌,
}

-- the loops over `delim`
unfoldable pub is_delim : List ℕ → ℕ → Bool
is_delim [] c = false
is_delim (d ∷ delim) c = c == d || is_delim delim c

-- `p_start` goes over the delimiters in front.
skip_delims : List ℕ → List ℕ → List ℕ
skip_delims delim [] = []
skip_delims delim (c ∷ s) = if is_delim delim c then skip_delims delim s else c ∷ s

-- The token up to the next delimiter, and the characters behind that delimiter.
cut : List ℕ → List ℕ → List ℕ × List ℕ
cut delim [] = ([], [])
cut delim (c ∷ s) =
    let (token, rest) = cut delim s in if is_delim delim c then ([], s) else (c ∷ token, rest)

cut_token : List ℕ → List ℕ → Option (List ℕ) × Option (List ℕ)
cut_token delim [] = (none, none)
cut_token delim (c ∷ s) = let (token, rest) = cut delim (c ∷ s) in (some token, some rest)

-- `str` is taken only while `sp` is null.
starts_at : Option (List ℕ) → Option (List ℕ) → Option (List ℕ)
starts_at str (some s) = some s
starts_at str none = str

pub scan : List ℕ → Option (List ℕ) → Option (List ℕ) × Option (List ℕ)
scan delim none = (none, none)
scan delim (some s) = cut_token delim (skip_delims delim s)

-- The token, and `sp` afterwards.
unfoldable pub strtok :
    Option (List ℕ) → List ℕ → Option (List ℕ) → Option (List ℕ) × Option (List ℕ)
unfolding scan starts_at cut_token skip_delims cut is_delim
strtok str delim sp = if length delim == 0 then (none, sp) else scan delim (starts_at str sp)
