-- ===== src/Drivers/Tty.antt =====
-- drivers/tty.c: the two buffers of a terminal. A buffer is the list of its bytes below its index, so the
-- index is its length; a byte written behind the 8192nd is a fault. `sent` is what the terminal has given
-- to the `write` of its output device, whose result the code does not look at.
pub mod Output
pub mod Table
use levos.Prelude.{
  ℕ, ◌+◌, ◌-◌, List, [], ◌∷◌, ◌++◌, Bool, true, false, not, ◌==◌, ltb, leb, if◌then◌else◌, length,
  take, drop,
}
use levos.Prelude.Int.{ℤ, pos, neg}
use levos.Prelude.Errno.{esrch}
use levos.Prelude.Outcome.{Outcome, ok, fault, ◌>>=◌}

abbrev pub tty_bufsize : ℕ
tty_bufsize = 8192

abbrev pub newline : ℕ
newline = b'\n'

-- `input` and `output` say whether the terminal has such a device.
pub record Tty : Type 0 where
  pub input : Bool
  pub output : Bool
  pub inputbuf : List ℕ
  pub outputbuf : List ℕ
  pub sent : List ℕ
  pub buffered : Bool

unfoldable pub tty_flush_output : Tty → Outcome Tty
tty_flush_output t =
    if t.output then ok (record t { sent = t.sent ++ t.outputbuf; outputbuf = [] }) else fault

-- `memcpy(&inputbuf[inputidx], buf, count)`, after a warning at most.
unfoldable pub tty_input_write : List ℕ → Tty → Outcome (ℤ × Tty)
tty_input_write buf t =
    if not t.input
    then ok (neg esrch, t)
    else if ltb tty_bufsize (length t.inputbuf + length buf)
    then fault
    else ok (pos (length buf), record t { inputbuf = t.inputbuf ++ buf })

put_byte : ℕ → Tty → Outcome Tty
put_byte c t =
    if leb tty_bufsize (length t.outputbuf)
    then fault
    else ok (record t { outputbuf = t.outputbuf ++ (c ∷ []) })

-- The loop of `tty_output_write`.
put_bytes : List ℕ → Tty → Outcome Tty
put_bytes [] t = ok t
put_bytes (c ∷ buf) t =
    (if c == newline then tty_flush_output t else ok t) >>= put_byte c >>= put_bytes buf

unfoldable pub tty_output_write : List ℕ → Tty → Outcome (ℤ × Tty)
unfolding put_bytes put_byte tty_flush_output
tty_output_write buf t =
    if not t.output
    then ok (neg esrch, t)
    else (if ltb tty_bufsize (length t.outputbuf + length buf) then tty_flush_output t else ok t)
      >>= put_bytes buf
      >>= (λ t'. if not t'.buffered then tty_flush_output t' else ok t')
      >>= λ t'. ok (pos (length buf), t')

-- The bytes that `tty_output_read` stores are its third result.
unfoldable pub tty_output_read : ℕ → Tty → ℤ × Tty × List ℕ
tty_output_read count t =
    if not t.output
    then (neg esrch, t, [])
    else if ltb (length t.outputbuf) count
    then (pos (length t.outputbuf), record t { outputbuf = [] }, t.outputbuf)
    else (
      pos count,
      record t { outputbuf = take (length t.outputbuf - count) t.outputbuf },
      take count t.outputbuf,
    )

-- `tty_input_read`, with the bytes that the `read` of the input device stores for a count: they go to
-- the beginning of the caller's buffer too.
unfoldable pub tty_input_read : (ℕ → List ℕ) → ℕ → Tty → ℤ × Tty × List ℕ
tty_input_read read count t =
    if not t.input
    then (neg esrch, t, [])
    else if ltb (length t.inputbuf) count
    then (
      pos count,
      record t { inputbuf = [] },
      read count ++ drop (length (read count)) t.inputbuf,
    )
    else (
      pos count,
      record t { inputbuf = take (length t.inputbuf - count) t.inputbuf },
      take count t.inputbuf,
    )
