-- ===== src/Libc/Str.antt =====
-- strlen, strcmp and strncmp of lib/string.c. A pointer is the list of the bytes from it to the end of
-- its object, so a read behind the object is a fault.
pub mod Compare
use levos.Prelude.{ℕ, zero, suc, ◌+◌, ◌-◌, ◌%◌, ◌^◌, List, [], ◌∷◌, not, ◌&&◌, ◌==◌, if◌then◌else◌}
use levos.Prelude.Outcome.{Outcome, ok, fault, ◌>>=◌}

-- The difference of two bytes as a `size_t`.
abbrev pub difference : ℕ → ℕ → ℕ
difference x y = (x + 2 ^ 32 - y) % 2 ^ 32

unfoldable pub strlen : List ℕ → Outcome ℕ
strlen [] = fault
strlen (c ∷ s) = let rest = strlen s in if c == 0 then ok 0 else rest >>= λ n. ok (n + 1)

unfoldable pub strcmp : List ℕ → List ℕ → Outcome ℕ
strcmp [] t = fault
strcmp (x ∷ s) [] = fault
strcmp (x ∷ s) (y ∷ t) =
    let rest = strcmp s t in
    if difference x y == 0 && not (y == 0) then rest else ok (difference x y)

unfoldable pub strncmp : List ℕ → List ℕ → ℕ → Outcome ℕ
strncmp s t zero = ok 0
strncmp [] t (suc n) = fault
strncmp (x ∷ s) [] (suc n) = fault
strncmp (x ∷ s) (y ∷ t) (suc n) =
    let rest = strncmp s t n in if x == y then rest else ok (difference x y)
