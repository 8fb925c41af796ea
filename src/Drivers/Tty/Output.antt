-- ===== src/Drivers/Tty/Output.antt =====
-- The output buffer of drivers/tty.c: what is written arrives, and what is read is read again.
use levos.Prelude.{
  ℕ, zero, suc, ◌+◌, ◌-◌, ◌≤◌, ◌≡◌, ◌∙◌, refl, sym, ap, arith, List, [], ◌∷◌, ◌++◌, append_assoc,
  append-nil, Bool, true, false, not, ◌==◌, ltb, leb, if◌then◌else◌, length, take, length-append,
  length-take, Bool-cases, inl, inr,
}
use levos.Prelude.Int.{pos}
use levos.Prelude.Outcome.{ok}
use levos.Drivers.Tty.{
  Tty, tty_bufsize, newline, tty_flush_output, put_byte, put_bytes, tty_output_write,
  tty_output_read,
}

-- All that was written: what the device has got, and what is waiting.
abbrev pub written : Tty → List ℕ
written t = t.sent ++ t.outputbuf

-- From `t` to `t'` exactly `buf` was written, and the terminal is otherwise the same.
record Wrote (buf : List ℕ) (t t' : Tty) : Type 0 where
  all : written t' ≡ written t ++ buf
  output : t'.output ≡ t.output
  buffered : t'.buffered ≡ t.buffered

flush_Wrote :
    (t : Tty)
    → t.output ≡ true
    → (t' : Tty) × (tty_flush_output t ≡ ok t') × (t'.outputbuf ≡ []) × Wrote [] t t'
unfolding tty_flush_output
flush_Wrote t on = (
  record t { sent = t.sent ++ t.outputbuf; outputbuf = [] },
  rw on,
  refl,
  record { all = refl; output = refl; buffered = refl },
)

Wrote-trans :
    (buf more : List ℕ) (t u v : Tty) → Wrote buf t u → Wrote more u v → Wrote (buf ++ more) t v
Wrote-trans buf more t u v a b = record {
  all = b.all ∙ rw a.all (append_assoc (written t) buf more);
  output = b.output ∙ a.output;
  buffered = b.buffered ∙ a.buffered;
}

put_byte-Wrote :
    (c : ℕ) (t : Tty)
    → length t.outputbuf + 1 ≤ tty_bufsize
    → (t' : Tty) × (put_byte c t ≡ ok t')
      × (length t'.outputbuf ≡ length t.outputbuf + 1)
      × Wrote (c ∷ []) t t'
unfolding put_byte
put_byte-Wrote c t room =
    let go : leb tty_bufsize (length t.outputbuf) ≡ false = ground arith in
    (
      record t { outputbuf = t.outputbuf ++ (c ∷ []) },
      rw go,
      length-append t.outputbuf (c ∷ []),
      record {
        all = sym (append_assoc t.sent t.outputbuf (c ∷ []));
        output = refl;
        buffered = refl;
      },
    )

-- A flush under a condition.
maybe_flush-Wrote :
    (b : Bool) (t : Tty)
    → t.output ≡ true
    → (t' : Tty) × ((if b then tty_flush_output t else ok t) ≡ ok t')
      × (b ≡ true → t'.outputbuf ≡ [])
      × (length t'.outputbuf ≤ length t.outputbuf)
      × Wrote [] t t'
maybe_flush-Wrote true t on =
    let (t', run, empty, w) = flush_Wrote t on in (t', run, (λ _. empty), rw empty (omega arith), w)
maybe_flush-Wrote false t on = (
  t,
  refl,
  (λ e. cc),
  omega arith,
  record { all = sym (append-nil (written t)); output = refl; buffered = refl },
)

put_bytes-Wrote :
    (buf : List ℕ) (t : Tty)
    → t.output ≡ true
    → length t.outputbuf + length buf ≤ tty_bufsize
    → (t' : Tty) × (put_bytes buf t ≡ ok t') × (length t'.outputbuf ≤ tty_bufsize) × Wrote buf t t'
unfolding put_bytes
put_bytes-Wrote [] t on fits = (
  t,
  refl,
  omega arith,
  record { all = sym (append-nil (written t)); output = refl; buffered = refl },
)
put_bytes-Wrote (c ∷ buf) t on fits =
    let (u, run, _, near, w) = maybe_flush-Wrote (c == newline) t on in
    let (v, run', len, w') = put_byte-Wrote c u (omega arith) in
    let (end, run'', short, w'') =
      put_bytes-Wrote buf v (w'.output ∙ w.output ∙ on) (omega arith) in
    (
      end,
      rw (run, run', run''),
      short,
      Wrote-trans (c ∷ []) buf t v end (Wrote-trans [] (c ∷ []) t u v w w') w'',
    )

write_steps :
    (buf : List ℕ) (t u v end : Tty)
    → t.output ≡ true
    → (if ltb tty_bufsize (length t.outputbuf + length buf) then tty_flush_output t else ok t)
      ≡ ok u
    → put_bytes buf u ≡ ok v
    → (if not v.buffered then tty_flush_output v else ok v) ≡ ok end
    → tty_output_write buf t ≡ ok (pos (length buf), end)
unfolding tty_output_write
write_steps buf t u v end on run run' run'' = rw (run, run', run'', on)

-- Writing up to 8192 bytes to a terminal that has an output device, and whose buffer is not overrun,
-- succeeds for all of them: what the device has got and what waits in the buffer is, in order, what it
-- was before and then the bytes; the buffer is not overrun; and nothing waits if the terminal is not
-- buffered.
pub tty_output_write-all :
    (buf : List ℕ) (t : Tty)
    → t.output ≡ true
    → length t.outputbuf ≤ tty_bufsize
    → length buf ≤ tty_bufsize
    → (t' : Tty) × (tty_output_write buf t ≡ ok (pos (length buf), t'))
      × (t'.sent ++ t'.outputbuf ≡ (t.sent ++ t.outputbuf) ++ buf)
      × (length t'.outputbuf ≤ tty_bufsize)
      × (t.buffered ≡ false → t'.outputbuf ≡ [])
tty_output_write-all buf t on full size =
    let (u, run, empty, near, w) =
      maybe_flush-Wrote (ltb tty_bufsize (length t.outputbuf + length buf)) t on in
    let (v, run', short, w') = put_bytes-Wrote buf u (w.output ∙ on) (room u empty near) in
    let (end, run'', flushed, near', w'') =
      maybe_flush-Wrote (not v.buffered) v (w'.output ∙ w.output ∙ on) in
    let both = Wrote-trans buf [] t v end (Wrote-trans [] buf t u v w w') w'' in
    (
      end,
      write_steps buf t u v end on run run' run'',
      both.all ∙ ap (λ s. written t ++ s) (append-nil buf),
      omega arith,
      λ unbuffered. flushed (ap not (w'.buffered ∙ w.buffered ∙ unbuffered)),
    )
  where
    room :
        (u : Tty)
        → (ltb tty_bufsize (length t.outputbuf + length buf) ≡ true → u.outputbuf ≡ [])
        → length u.outputbuf ≤ length t.outputbuf
        → length u.outputbuf + length buf ≤ tty_bufsize
    room u empty near = elim (Bool-cases (ltb tty_bufsize (length t.outputbuf + length buf))) [
      | inl e ↦ rw (empty e) (omega arith)
      | inr e ↦ ground arith
    ]

take-take : (m n : ℕ) (s : List ℕ) → m ≤ n → take m (take n s) ≡ take m s
take-take zero n s h = refl
take-take (suc m) zero s h = absurd (omega arith)
take-take (suc m) (suc n) [] h = refl
take-take (suc m) (suc n) (c ∷ s) h = ap (λ r. c ∷ r) (take-take m n s (omega arith))

-- On a terminal with an output device, two reads that the buffer can serve give the same bytes again:
-- the second read does not go on behind the first one, and what is dropped is the end of the buffer.
pub tty_output_read-again :
    (n m : ℕ) (t : Tty)
    → t.output ≡ true
    → n + m ≤ length t.outputbuf
    → (t' : Tty) × (tty_output_read n t ≡ (pos n, t', take n t.outputbuf))
      × (t'.outputbuf ≡ take (length t.outputbuf - n) t.outputbuf)
      × ((tty_output_read m t').2 ≡ take m t.outputbuf)
unfolding tty_output_read
tty_output_read-again n m t on fits =
    let keep = length t.outputbuf - n in
    let enough : ltb (length t.outputbuf) n ≡ false = ground arith in
    let left : length (take keep t.outputbuf) ≡ keep =
      omega (arith, length-take keep t.outputbuf) in
    let enough' : ltb (length (take keep t.outputbuf)) m ≡ false = ground arith in
    (
      record t { outputbuf = take keep t.outputbuf },
      rw (on, enough) refl,
      refl,
      rw (on, enough') (take-take m keep t.outputbuf (omega arith)),
    )
