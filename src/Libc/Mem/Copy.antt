-- ===== src/Libc/Mem/Copy.antt =====
-- memcpy and memset of lib/memset.c, byte by byte.
use levos.Prelude.{
  ℕ, zero, suc, ◌+◌, ◌-◌, ◌*◌, ◌/◌, ◌%◌, ◌≤◌, ◌<◌, ◌≡◌, ◌∙◌, ◌⊎◌, refl, ap, arith, ◌&&◌, ◌==◌, leb,
  ltb, if◌then◌else◌, update, Bool-cases, inl, inr,
}
use levos.Libc.Mem.{Memory, copy_byte, copy_pairs, memcpy, memset, memset16}

-- One byte at a time, upwards.
copy_bytes : ℕ → ℕ → ℕ → Memory → Memory
copy_bytes zero dst src m = m
copy_bytes (suc n) dst src m = copy_bytes n (dst + 1) (src + 1) (copy_byte dst src m)

copy_two :
    (k dst src : ℕ) (m : Memory)
    → copy_bytes k (dst + 2) (src + 2) (copy_byte (dst + 1) (src + 1) (copy_byte dst src m))
      ≡ copy_bytes (suc (suc k)) dst src m
unfolding copy_bytes
copy_two k dst src m =
    let ed : dst + 1 + 1 ≡ dst + 2 = omega arith in
    let es : src + 1 + 1 ≡ src + 2 = omega arith in rw (← ed, ← es) refl

copy_pairs-bytes :
    (n dst src : ℕ) (m : Memory) → copy_pairs n dst src m ≡ copy_bytes (2 * n) dst src m
unfolding copy_pairs
copy_pairs-bytes zero dst src m = unfold copy_bytes in refl
copy_pairs-bytes (suc n) dst src m =
    let e : 2 * suc n ≡ suc (suc (2 * n)) = omega arith in
    rw e (copy_pairs-bytes n (dst + 2) (src + 2) _ ∙ copy_two (2 * n) dst src m)

memcpy-bytes : (dst src n : ℕ) (m : Memory) → memcpy dst src n m ≡ copy_bytes n dst src m
unfolding memcpy copy_bytes
memcpy-bytes dst src n m = elim (Bool-cases (n % 2 == 1)) [
  | inl e ↦
      let odd : n ≡ suc (2 * (n / 2)) = ground arith in
      rw e (
        copy_pairs-bytes (n / 2) (dst + 1) (src + 1) (copy_byte dst src m)
        ∙ ap (λ k. copy_bytes k dst src m) {x = suc (2 * (n / 2))} {y = n} (omega arith))
  | inr e ↦
      let even : 2 * (n / 2) ≡ n = ground arith in
      rw e (copy_pairs-bytes (n / 2) dst src m ∙ ap (λ k. copy_bytes k dst src m) even)
]

copy_bytes-read :
    (n dst src : ℕ) (m : Memory) (a : ℕ)
    → (dst ≤ src) ⊎ (src + n ≤ dst)
    → copy_bytes n dst src m a ≡ (if leb dst a && ltb a (dst + n) then m (src + (a - dst)) else m a)
unfolding copy_bytes
copy_bytes-read zero dst src m a h = ground arith
copy_bytes-read (suc n) dst src m a h = ground (
  arith,
  copy_bytes-read n (dst + 1) (src + 1) (copy_byte dst src m) a,
  ap m {x = src + (a - dst)} {y = src + 1 + (a - (dst + 1))},
  ap m {x = src + (a - dst)} {y = src},
)

-- `memcpy` copies `count` bytes and changes nothing else, for an odd count too, whenever the target
-- does not begin inside the source behind its first byte.
pub memcpy-read :
    (dst src count : ℕ) (m : Memory) (a : ℕ)
    → (dst ≤ src) ⊎ (src + count ≤ dst)
    → memcpy dst src count m a
      ≡ (if leb dst a && ltb a (dst + count) then m (src + (a - dst)) else m a)
memcpy-read dst src count m a h =
    rw (memcpy-bytes dst src count m) (copy_bytes-read count dst src m a h)

-- `memset` stores the byte at each of `num` addresses and changes nothing else.
pub memset-read :
    (p value num : ℕ) (m : Memory) (a : ℕ)
    → memset p value num m a ≡ (if leb p a && ltb a (p + num) then value else m a)
unfolding memset
memset-read p value zero m a = ground arith
memset-read p value (suc num) m a =
    ground (arith, memset-read (p + 1) value num (update m p value) a)

-- `memset16` stores `2 * num` bytes and changes nothing else.
pub memset16_outside :
    (p value num : ℕ) (m : Memory) (a : ℕ)
    → (a < p) ⊎ (p + 2 * num ≤ a)
    → memset16 p value num m a ≡ m a
unfolding memset16
memset16_outside p value zero m a h = refl
memset16_outside p value (suc num) m a (inl below) =
    memset16_outside (p + 2) value num _ a (inl (omega arith)) ∙ ground arith
memset16_outside p value (suc num) m a (inr above) =
    memset16_outside (p + 2) value num _ a (inr (omega arith)) ∙ ground arith
