-- ===== src/Kernel/Shell/Input/Line.antt =====
-- `grab_input` of kernel/shell.c: the line that it takes from the keys.
use levos.Prelude.{
  ℕ, zero, suc, ◌+◌, ◌≤◌, ◌<◌, ◌≡◌, ◌≢◌, refl, sym, arith, List, [], ◌∷◌, ◌++◌, All, true, false,
  ◌==◌, leb, length, length-append, take, replicate, ◌-◌, append_assoc, append-nil,
}
use levos.Prelude.Int.{pos}
use levos.Prelude.Outcome.{Outcome, ok, panic, fault, hang, ◌>>=◌}
use levos.Kernel.Printk.{printk_emit}
use levos.Drivers.Tty.{Tty, tty_input_read, newline}
use levos.Libc.Str.{strlen}
use levos.Libc.Str.Compare.{c_string}
use levos.Kernel.Shell.Input.{buffer_size, filled, Grabbed, grab, grab_input}

-- What a read of the device gives: nothing, or one key.
pub data Key : Type 0 where
  idle : Key
  key : ℕ → Key

abbrev pub read_of : Key → List ℕ
read_of idle = []
read_of (key c) = c ∷ []

abbrev pub reads_of : List Key → List (List ℕ)
reads_of [] = []
reads_of (k ∷ keys) = read_of k ∷ reads_of keys

abbrev pub typed : List Key → List ℕ
typed [] = []
typed (idle ∷ keys) = typed keys
typed (key c ∷ keys) = c ∷ typed keys

-- A key of the line itself.
abbrev pub IsKey : Key → Type 0
IsKey idle = Unit
IsKey (key c) = (c ≢ 0) × (c ≢ newline)

-- A terminal with an input device that keeps nothing in its input buffer.
abbrev pub listening : Tty → Tty
listening t = record t { input = true; inputbuf = [] }

-- The keys hold no terminator.
strlen-typed : (keys : List Key) → All IsKey keys → strlen (typed keys) ≡ fault
unfolding strlen
strlen-typed [] h = refl
strlen-typed (idle ∷ keys) (_, h) = strlen-typed keys h
strlen-typed (key c ∷ keys) ((some_key, _), h) =
    let seen : (c == 0) ≡ false = ground arith in rw (seen, strlen-typed keys h) refl

filled-line :
    (line : List ℕ)
    → length line < buffer_size
    → filled line ≡ c_string line (replicate (buffer_size - 1 - length line) 0)
filled-line line fits =
    let e : buffer_size - length line ≡ suc (buffer_size - 1 - length line) = omega arith in
    rw e refl

filled-full : (line : List ℕ) → length line ≡ buffer_size → filled line ≡ line
filled-full line full =
    let e : buffer_size - length line ≡ 0 = omega arith in rw e (append-nil line)

-- It gives what its device gives.
read_through :
    (t : Tty) (k : Key)
    → tty_input_read (λ n. read_of k) 1 (listening t) ≡ (pos 1, listening t, read_of k)
unfolding tty_input_read
read_through t idle = refl
read_through t (key c) = refl

bind_step :
    {A B C : Type 0} (m : Outcome A) (f : A → Outcome C) (g : A → Outcome B) (k : B → Outcome C)
    → ((a : A) → f a ≡ (g a >>= k))
    → (m >>= f) ≡ (m >>= g >>= k)
bind_step (ok a) f g k h = h a
bind_step panic f g k h = refl
bind_step fault f g k h = refl
bind_step hang f g k h = refl

module _ {S : Type 0} (emit : ℕ → S → Outcome S) (t : Tty) (more : List (List ℕ)) where
  abbrev pub line_of : List Key → List (List ℕ)
  line_of keys = reads_of keys ++ ((newline ∷ []) ∷ more)

  abbrev pub grabbed : List ℕ → S → Grabbed S
  grabbed line s = record { line = line; tty = listening t; reads = more; state = s }

  grab-typed :
      (keys : List Key) (buffer : List ℕ) (s : S)
      → All IsKey keys
      → length buffer + length (typed keys) ≤ buffer_size
      → grab emit buffer (line_of keys) (listening t) s ≡ (
          printk_emit emit (typed keys ++ (newline ∷ [])) s >>= λ s'.
          ok (grabbed (filled (buffer ++ typed keys)) s'))
  unfolding grab printk_emit
  grab-typed [] buffer s h fits =
      rw (read_through t (key newline), append-nil buffer)
        (bind_step (emit newline s) _ ok _ (λ a. refl))
  grab-typed (idle ∷ keys) buffer s (_, h) fits =
      rw (read_through t idle) (grab-typed keys buffer s h fits)
  grab-typed (key c ∷ keys) buffer s ((some_key, no_newline), h) fits =
      let seen : (c == 0) ≡ false = ground arith in
      let inner : (c == newline) ≡ false = ground arith in
      let room : leb buffer_size (length buffer) ≡ false = ground arith in
      let longer = length-append buffer (c ∷ []) in
      rw (read_through t (key c), seen, inner, room)
        (bind_step (emit c s) _ _ _ (λ s'.
          rw (sym (append_assoc buffer (c ∷ []) (typed keys)))
            (grab-typed keys (buffer ++ (c ∷ [])) s' h (omega (arith, longer)))))

  grab-overrun :
      (keys : List Key) (buffer : List ℕ) (room : ℕ) (s : S)
      → All IsKey keys
      → length buffer + room ≡ buffer_size
      → room < length (typed keys)
      → grab emit buffer (line_of keys) (listening t) s
        ≡ (printk_emit emit (take room (typed keys)) s >>= λ s'. fault)
  unfolding grab printk_emit
  grab-overrun [] buffer room s h fits over = absurd (omega arith)
  grab-overrun (idle ∷ keys) buffer room s (_, h) fits over =
      rw (read_through t idle) (grab-overrun keys buffer room s h fits over)
  grab-overrun (key c ∷ keys) buffer zero s ((some_key, no_newline), h) fits over =
      let seen : (c == 0) ≡ false = ground arith in
      let inner : (c == newline) ≡ false = ground arith in
      let full : leb buffer_size (length buffer) ≡ true = ground arith in
      rw (read_through t (key c), seen, inner, full) refl
  grab-overrun (key c ∷ keys) buffer (suc room) s ((some_key, no_newline), h) fits over =
      let seen : (c == 0) ≡ false = ground arith in
      let inner : (c == newline) ≡ false = ground arith in
      let free : leb buffer_size (length buffer) ≡ false = ground arith in
      let longer = length-append buffer (c ∷ []) in
      rw (read_through t (key c), seen, inner, free)
        (bind_step (emit c s) _ _ _ (λ s'.
          grab-overrun keys (buffer ++ (c ∷ [])) room s' h (omega (arith, longer)) (omega arith)))

  -- Keys that end with a newline, with any number of reads between them that find none. A line of less than
  -- 512 characters is returned as it was typed, with a terminator and zeros behind it, after each of its
  -- characters and a newline were echoed in order. A line of 512 characters is echoed and returned too,
  -- but without a terminator, so that `strlen` reads behind the buffer. A longer one is echoed up to its
  -- 512th character, and the next one is written behind the buffer.
  pub grab_input-line :
      (keys : List Key) (s : S)
      → All IsKey keys
      → (length (typed keys) < buffer_size
          → grab_input emit (line_of keys) (listening t) s ≡ (
              printk_emit emit (typed keys ++ (newline ∷ [])) s >>= λ s'. ok (
                grabbed
                  (c_string (typed keys) (replicate (buffer_size - 1 - length (typed keys)) 0))
                  s')))
        × (length (typed keys) ≡ buffer_size
            → (grab_input emit (line_of keys) (listening t) s ≡ (
                printk_emit emit (typed keys ++ (newline ∷ [])) s >>= λ s'.
                ok (grabbed (typed keys) s')))
              × (strlen (typed keys) ≡ fault))
        × (buffer_size < length (typed keys)
            → grab_input emit (line_of keys) (listening t) s
              ≡ (printk_emit emit (take buffer_size (typed keys)) s >>= λ s'. fault))
  unfolding grab_input
  grab_input-line keys s h = (
    λ fits. rw (← filled-line (typed keys) fits) (grab-typed keys [] s h (omega arith)),
    λ full. (
      rw (filled-full (typed keys) full) at (grab-typed keys [] s h (omega arith)),
      strlen-typed keys h,
    ),
    λ over. grab-overrun keys [] buffer_size s h (omega arith) over,
  )
