-- ===== src/Tests/OnLibc.antt =====
-- lib/string.c, lib/memset.c and lib/itoa.c at concrete inputs.
use levos.Prelude.{ℕ, ◌+◌, ◌≡◌, refl, arith, List, [], ◌∷◌, true, none, some}
use levos.Libc.Strtok.{is_delim, strtok}
use levos.Libc.Strtok.Components.{components}
use levos.Libc.Strtok.Tokens.{tokens, tokens-strtok}
use levos.Libc.Mem.{memcpy32}

abbrev bin : List ℕ
bin = b'b' ∷ b'i' ∷ b'n' ∷ []

abbrev bit_name : List ℕ
bit_name = b'b' ∷ b'i' ∷ b't' ∷ []

abbrev slash_bin : List ℕ
slash_bin = b'/' ∷ bin

abbrev slashes : List ℕ
slashes = b'/' ∷ []

abbrev bytes : ℕ → ℕ
bytes a = a + 7

tokens-strtok_example :
    tokens 5 slashes (strtok (some slash_bin) slashes none) ≡ (components slashes slash_bin, none)
tokens-strtok_example = tokens-strtok 5 slashes slash_bin (omega arith) (omega arith)

is_delim-slash : is_delim slashes b'/' ≡ true
unfolding is_delim
is_delim-slash = refl

-- The four bytes of a word.
memcpy32-last : memcpy32 100 0 1 bytes 103 ≡ 10
unfolding memcpy32
memcpy32-last = refl
