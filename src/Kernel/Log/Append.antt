-- ===== src/Kernel/Log/Append.antt =====
-- What kernel/kmsg.c logs, and which devices kernel/device.c gives back.
use levos.Prelude.{
  ℕ, zero, suc, ◌+◌, ◌%◌, ◌^◌, ◌≤◌, ◌<◌, ◌≡◌, ◌≢◌, ◌⊎◌, ◌∙◌, refl, sym, ap, arith, List, [], ◌∷◌,
  ◌++◌, append_assoc, append-nil, true, false, ◌||◌, ◌==◌, ltb, leb, if◌then◌else◌, length, get_or,
  take, take_all, length-append, Bool-cases, inl, inr,
}
use levos.Prelude.Int.{pos, neg}
use levos.Prelude.Errno.{einval}
use levos.Prelude.Outcome.{ok}
use levos.Kernel.Log.{
  kmsg_bufsize, kmsg_append, append_bytes, kmsg_write, max_devices, device_register, device_get,
}

-- The bytes other than 0.
abbrev pub no_zeros : List ℕ → List ℕ
no_zeros [] = []
no_zeros (c ∷ s) = if c == 0 then no_zeros s else c ∷ no_zeros s

take-append : (n : ℕ) (s t : List ℕ) → length s ≡ n → take n (s ++ t) ≡ s
take-append zero [] t e = refl
take-append zero (c ∷ s) t e = absurd (omega (arith, e))
take-append (suc n) [] t e = absurd (omega (arith, e))
take-append (suc n) (c ∷ s) t e = ap (λ r. c ∷ r) (take-append n s t (omega (arith, e)))

append_bytes-take :
    (buf log : List ℕ)
    → length log ≤ kmsg_bufsize
    → append_bytes buf log ≡ take kmsg_bufsize (log ++ no_zeros buf)
unfolding append_bytes kmsg_append
append_bytes-take [] log fits = sym (rw (append-nil log) (take_all kmsg_bufsize log fits))
append_bytes-take (c ∷ buf) log fits = elim (Bool-cases (c == 0)) [
  | inl e ↦ rw e (append_bytes-take buf log fits)
  | inr e ↦ elim (Bool-cases (leb kmsg_bufsize (length log))) [
    | inl full ↦
        let same : length log ≡ kmsg_bufsize = ground arith in
        rw (e, full)
          (append_bytes-take buf log fits
            ∙ take-append kmsg_bufsize log (no_zeros buf) same
            ∙ sym (take-append kmsg_bufsize log (c ∷ no_zeros buf) same))
    | inr room ↦
        let short : length (log ++ (c ∷ [])) ≤ kmsg_bufsize =
          ground (arith, length-append log (c ∷ [])) in
        rw (e, room)
          (append_bytes-take buf (log ++ (c ∷ [])) short
            ∙ ap (take kmsg_bufsize) (append_assoc log (c ∷ []) (no_zeros buf)))
  ]
]

-- With valid pointers and a log that fits its buffer, `kmsg_write` refuses the bytes and changes
-- nothing, or it takes them all: the log goes on with those that are not 0, as far as the buffer
-- reaches. The position does not say where the bytes go.
pub kmsg_write-log :
    (buf log : List ℕ) (at : ℕ)
    → length log ≤ kmsg_bufsize
    → (kmsg_write true buf at log ≡ (neg einval, log))
      ⊎ (kmsg_write true buf at log ≡ (pos (length buf), take kmsg_bufsize (log ++ no_zeros buf)))
unfolding kmsg_write
kmsg_write-log buf log at fits =
    elim (Bool-cases (ltb kmsg_bufsize at || ltb kmsg_bufsize ((at + length buf) % 2 ^ 32))) [
      | inl bad ↦ inl (rw bad)
      | inr good ↦ inr (rw (good, append_bytes-take buf log fits))
    ]

get_or-append_last : (s : List ℕ) (v : ℕ) → get_or (s ++ (v ∷ [])) (length s) 0 ≡ v
get_or-append_last [] v = refl
get_or-append_last (c ∷ s) v = get_or-append_last s v

get_or-append_ne : (s : List ℕ) (v i : ℕ) → i ≢ length s → get_or (s ++ (v ∷ [])) i 0 ≡ get_or s i 0
get_or-append_ne [] v zero ne = absurd (ne refl)
get_or-append_ne [] v (suc i) ne = refl
get_or-append_ne (c ∷ s) v zero ne = refl
get_or-append_ne (c ∷ s) v (suc i) ne = get_or-append_ne s v i (λ e. ne (ap suc e))

-- While fewer than 256 devices are registered, registering one succeeds: it is the device at the next
-- index, and every other index gives what it gave before.
pub device_get-device_register :
    (dev : ℕ) (devs : List ℕ)
    → dev ≢ 0
    → length devs < max_devices
    → (devs' : List ℕ) × (device_register (pos dev) devs ≡ (pos 0, devs'))
      × (device_get (pos (length devs)) devs' ≡ ok dev)
      × ((i : ℕ) → i ≢ length devs → device_get (pos i) devs' ≡ device_get (pos i) devs)
unfolding device_register device_get
device_get-device_register dev devs ne room =
    let here : (dev == 0) ≡ false = ground arith in
    let low : leb max_devices (length devs) ≡ false = ground arith in
    (
      devs ++ (dev ∷ []),
      rw (here, low) refl,
      rw (low, get_or-append_last devs dev),
      λ i other. rw (get_or-append_ne devs dev i other),
    )
