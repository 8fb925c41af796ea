-- ===== src/Kernel/Shell/Input.antt =====
-- `grab_input` of kernel/shell.c. `reads` are the results of the reads of the terminal's input device, one after
-- the other: the bytes that each one stores. While there are none, another thread runs.
pub mod Line
use levos.Prelude.{
  ℕ, ◌+◌, List, [], ◌∷◌, ◌++◌, ◌==◌, ◌-◌, leb, if◌then◌else◌, length, replicate, get_or,
}
use levos.Prelude.Outcome.{Outcome, ok, fault, hang, ◌>>=◌}
use levos.Drivers.Tty.{Tty, tty_input_read, newline}

-- The size of `buffer`.
abbrev pub buffer_size : ℕ
buffer_size = 512

-- The buffer: the bytes of the line, and the zeros of `memset` behind them, up to its end.
abbrev pub filled : List ℕ → List ℕ
filled bytes = bytes ++ replicate (buffer_size - length bytes) 0

-- The bytes at the pointer that is returned, the terminal, the reads that are left, and the rest of the state.
pub record Grabbed (S : Type 0) : Type 0 where
  pub line : List ℕ
  pub tty : Tty
  pub reads : List (List ℕ)
  pub state : S

module _ {S : Type 0} (emit : ℕ → S → Outcome S) where
  -- The loop, with the bytes that the buffer holds. The index is not compared with the size of the buffer,
  -- and a byte behind its end is a fault.
  unfoldable pub grab : List ℕ → List (List ℕ) → Tty → S → Outcome (Grabbed S)
  grab buffer [] t s = hang
  grab buffer (r ∷ reads) t s =
      let (_, t', stored) = tty_input_read (λ n. r) 1 t in
      let cs = get_or stored 0 0 in
      let wait = grab buffer reads t' s in
      let next = emit cs s >>= grab (buffer ++ (cs ∷ [])) reads t' in
      let done = emit newline s >>= λ s'.
      ok (record { line = filled buffer; tty = t'; reads = reads; state = s' }) in
      if cs == 0
      then wait
      else if cs == newline
      then done
      else if leb buffer_size (length buffer)
      then fault
      else next

  unfoldable pub grab_input : List (List ℕ) → Tty → S → Outcome (Grabbed S)
  grab_input reads t s = grab [] reads t s
