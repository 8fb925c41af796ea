-- ===== src/Kernel/Shell/Parse.antt =====
-- `parse_input` of kernel/shell.c: which lines are commands.
use levos.Prelude.{
  ℕ, ◌+◌, ◌-◌, ◌%◌, ◌^◌, ◌≡◌, ◌↔◌, ◌∙◌, refl, sym, arith, List, [], ◌∷◌, ◌++◌, Option, none, some,
  false, ◌==◌, length, Bool-cases, inl, inr,
}
use levos.Prelude.Text.{codes}
use levos.Prelude.Outcome.{Outcome, ok, ok-injective}
use levos.Libc.Str.{strcmp, strncmp}
use levos.Libc.Str.Compare.{IsText, c_string, strcmp_iff}
use levos.Kernel.Shell.{
  Command, cmd_ps, cmd_lsdev, cmd_exit, cmd_testmt, cmd_ls, cmd_cat, cmd_stat, cmd_elf, literal,
  else_if, parse_input,
}

-- The argument behind a word of the line.
abbrev pub Behind : List ℕ → List ℕ → List ℕ → List ℕ → Type 0
Behind word s rest p = (arg : List ℕ) × (s ≡ word ++ arg) × (p ≡ c_string arg rest)

-- The line that calls a command. It stands in memory in front of `rest`.
abbrev pub Calls : List ℕ → List ℕ → Command → Type 0
Calls s rest cmd_ps = s ≡ codes "ps"
Calls s rest cmd_lsdev = s ≡ codes "lsdev"
Calls s rest cmd_exit = s ≡ codes "exit"
Calls s rest cmd_testmt = s ≡ codes "testmt"
Calls s rest (cmd_ls p) = Behind (codes "ls ") s rest p
Calls s rest (cmd_cat p) = Behind (codes "cat ") s rest p
Calls s rest (cmd_stat p) = Behind (codes "stat ") s rest p
Calls s rest (cmd_elf p) = Behind (codes "elf ") s rest p

-- `strncmp` with a word as long as the count.
prefix_test :
    (word s end rest : List ℕ)
    → IsText word
    → IsText s
    → (n : ℕ) × (strncmp (c_string word end) (c_string s rest) (length word) ≡ ok n)
      × (n ≡ 0 → (arg : List ℕ) × (s ≡ word ++ arg))
unfolding strncmp
prefix_test [] s end rest hw hs = (0, refl, λ _. (s, refl))
prefix_test (x ∷ word) [] end rest ((ne, lt), hw) hs =
    let other : (x == 0) ≡ false = ground arith in
    ((x + 2 ^ 32 - 0) % 2 ^ 32, rw other refl, λ h. absurd (omega arith))
prefix_test (x ∷ word) (y ∷ s) end rest ((ne, lt), hw) ((ne', lt'), hs) =
    elim (Bool-cases (x == y)) [
      | inl same ↦
          let (n, run, split) = prefix_test word s end rest hw hs in
          let eq : x ≡ y = ground arith in
          (n, rw same run, λ h. let (arg, e) = split h in (arg, rw (eq, e) refl))
      | inr other ↦ ((x + 2 ^ 32 - y) % 2 ^ 32, rw other refl, λ h. absurd (ground arith))
    ]

-- Whatever command is called, the line calls it.
abbrev Sound : List ℕ → List ℕ → Outcome (Option Command) → Type 0
Sound s rest r = (o : Option Command) × (r ≡ ok o) × ((c : Command) → o ≡ some c → Calls s rest c)

some_injective : {A : Type 0} {a b : A} → some a ≡ some b → a ≡ b
some_injective e = cc

module _ (s rest : List ℕ) (hs : IsText s) where
  else_if-Sound :
      (test : Outcome ℕ) (c : Command) (next : Outcome (Option Command)) (n : ℕ)
      → test ≡ ok n
      → (n ≡ 0 → Calls s rest c)
      → Sound s rest next
      → Sound s rest (else_if test c next)
  unfolding else_if
  else_if-Sound test c next n run called (o, runs, sound) = elim (Bool-cases (n == 0)) [
    | inl z ↦ (some c, rw (run, z) refl, λ c' e. rw (some_injective e) at (called (ground arith)))
    | inr nz ↦ (o, rw (run, nz) runs, sound)
  ]

  word_Sound :
      (word : List ℕ) (c : Command) (next : Outcome (Option Command))
      → IsText word
      → (word ≡ s → Calls s rest c)
      → Sound s rest next
      → Sound s rest (else_if (strcmp (literal word) (c_string s rest)) c next)
  word_Sound word c next hw called sound =
      let (n, run, same) = strcmp_iff word s [] rest hw hs in
      else_if-Sound _ c next n run (λ z. called (same.0 z)) sound

  prefix_Sound :
      (word : List ℕ) (c : Command) (next : Outcome (Option Command))
      → IsText word
      → ((arg : List ℕ) → s ≡ word ++ arg → Calls s rest c)
      → Sound s rest next
      → Sound s rest (else_if (strncmp (literal word) (c_string s rest) (length word)) c next)
  prefix_Sound word c next hw called sound =
      let (n, run, split) = prefix_test word s [] rest hw hs in
      else_if-Sound _ c next n run (λ z. let (arg, e) = split z in called arg e) sound

  parse_input-Sound : Sound s rest (parse_input (c_string s rest))
  unfolding parse_input
  parse_input-Sound = word_Sound (codes "ps") _ _ (omega arith) sym (
      word_Sound (codes "lsdev") _ _ (omega arith) sym (
        prefix_Sound (codes "ls ") _ _ (omega arith) (λ arg e. (arg, e, rw e refl))
          (word_Sound (codes "exit") _ _ (omega arith) sym (
            word_Sound (codes "testmt") _ _ (omega arith) sym (
              prefix_Sound (codes "cat ") _ _ (omega arith) (λ arg e. (arg, e, rw e refl))
                (prefix_Sound (codes "stat ") _ _ (omega arith) (λ arg e. (arg, e, rw e refl))
                  (prefix_Sound (codes "elf ") _ _ (omega arith) (λ arg e. (arg, e, rw e refl))
                    (none, refl, λ c e. cc))))))))

-- A line that calls a command is parsed as it.
parse_input-Calls :
    (s rest : List ℕ) (c : Command) → Calls s rest c → parse_input (c_string s rest) ≡ ok (some c)
unfolding parse_input else_if strcmp strncmp
parse_input-Calls s rest cmd_ps e = rw e refl
parse_input-Calls s rest cmd_lsdev e = rw e refl
parse_input-Calls s rest cmd_exit e = rw e refl
parse_input-Calls s rest cmd_testmt e = rw e refl
parse_input-Calls s rest (cmd_ls p) (arg, e, at) = rw (e, at) refl
parse_input-Calls s rest (cmd_cat p) (arg, e, at) = rw (e, at) refl
parse_input-Calls s rest (cmd_stat p) (arg, e, at) = rw (e, at) refl
parse_input-Calls s rest (cmd_elf p) (arg, e, at) = rw (e, at) refl

-- For each line that is a string `parse_input` returns, and it calls a command, with an argument, exactly if the
-- line is the word of the command, or the word with its blank and the argument.
pub parse_input_iff :
    (s rest : List ℕ)
    → IsText s
    → (o : Option Command) × (parse_input (c_string s rest) ≡ ok o)
      × ((c : Command) → (o ≡ some c) ↔ Calls s rest c)
parse_input_iff s rest hs =
    let (o, run, sound) = parse_input-Sound s rest hs in
    (o, run, λ c. (sound c, λ calls. ok-injective (sym run ∙ parse_input-Calls s rest c calls)))
