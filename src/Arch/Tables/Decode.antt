-- ===== src/Arch/Tables/Decode.antt =====
-- What the processor reads from the descriptors of arch/x86/gdt.c and arch/x86/idt.c.
use levos.Prelude.{ℕ, ◌+◌, ◌*◌, ◌/◌, ◌%◌, ◌^◌, ◌<◌, ◌≡◌, ◌≢◌, refl, arith, ◌==◌, true, false}
use levos.Prelude.Bits.{bit_or-low}
use levos.Arch.Tables.{Segment, Gdt, Gate, gdt_set_desc}

-- The fields of a descriptor put together, as the manual of the processor gives them.
abbrev pub base_of : Segment → ℕ
base_of s = s.base_low + 2 ^ 16 * s.base_mid + 2 ^ 24 * s.base_high

abbrev pub limit_of : Segment → ℕ
limit_of s = s.limit_low + 2 ^ 16 * (s.gran % 16)

abbrev pub flags_of : Segment → ℕ
flags_of s = s.gran / 16

abbrev pub handler_of : Gate → ℕ
handler_of g = g.base_low + 2 ^ 16 * g.base_high

-- The processor reads back from a descriptor the 32-bit base, the low 20 bits of the limit, the access
-- byte and the high nibble of the granularity that `gdt_set_desc` was given, and the other descriptors
-- stay.
pub gdt_set_desc-decode :
    (num base limit ac gran : ℕ) (gdt : Gdt)
    → base < 2 ^ 32
    → gran < 2 ^ 8
    → (base_of (gdt_set_desc num base limit ac gran gdt num) ≡ base)
      × (limit_of (gdt_set_desc num base limit ac gran gdt num) ≡ limit % 2 ^ 20)
      × ((gdt_set_desc num base limit ac gran gdt num).access ≡ ac)
      × (flags_of (gdt_set_desc num base limit ac gran gdt num) ≡ gran / 16)
      × ((k : ℕ) → k ≢ num → gdt_set_desc num base limit ac gran gdt k ≡ gdt k)
unfolding gdt_set_desc
gdt_set_desc-decode num base limit ac gran gdt small byte =
    let low = bit_or-low (limit / 2 ^ 16 % 16) (gran / 16 % 16) (omega arith) in
    let self : (num == num) ≡ true = ground arith in
    rw self (
      omega arith,
      omega (arith, low),
      refl,
      omega (arith, low),
      λ k ne. let other : (num == k) ≡ false = ground arith in rw other refl,
    )
