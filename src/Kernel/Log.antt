-- ===== src/Kernel/Log.antt =====
-- kernel/kmsg.c, kernel/console.c and kernel/device.c: the log of the kernel, the list of consoles and the
-- list of devices. The log is the list of the bytes below `kmsg_pos`. A device is a pointer, a number, and
-- 0 or an error pointer (a negative `intptr_t`) is none.
pub mod Append
use levos.Prelude.{
  ℕ, zero, suc, ◌+◌, ◌%◌, ◌^◌, List, [], ◌∷◌, ◌++◌, Bool, true, false, not, ◌||◌, ◌==◌, ltb, leb,
  if◌then◌else◌, length, get_or,
}
use levos.Prelude.Int.{ℤ, pos, negsuc, neg}
use levos.Prelude.Errno.{einval, enospc, enosys}
use levos.Prelude.Outcome.{Outcome, ok, panic, fault, ◌>>=◌}

abbrev pub kmsg_bufsize : ℕ
kmsg_bufsize = 65536

unfoldable pub kmsg_append : ℕ → List ℕ → List ℕ
kmsg_append c log =
    if c == 0 then log else if leb kmsg_bufsize (length log) then log else log ++ (c ∷ [])

-- The loop of `kmsg_write`.
append_bytes : List ℕ → List ℕ → List ℕ
append_bytes [] log = log
append_bytes (c ∷ buf) log = append_bytes buf (kmsg_append c log)

-- `valid` says that neither `dev` nor `buf` is null; `pos + count` wraps in 32 bits.
unfoldable pub kmsg_write : Bool → List ℕ → ℕ → List ℕ → ℤ × List ℕ
unfolding append_bytes kmsg_append
kmsg_write valid buf at log =
    if not valid || ltb kmsg_bufsize at || ltb kmsg_bufsize ((at + length buf) % 2 ^ 32)
    then (neg einval, log)
    else (pos (length buf), append_bytes buf log)

abbrev pub max_devices : ℕ
max_devices = 256

unfoldable pub device_register : ℤ → List ℕ → ℤ × List ℕ
device_register (negsuc n) devs = (neg einval, devs)
device_register (pos dev) devs =
    if dev == 0
    then (neg einval, devs)
    else if leb max_devices (length devs)
    then (neg enospc, devs)
    else (pos 0, devs ++ (dev ∷ []))

-- The slots behind the registered devices hold 0. A negative index is not guarded.
unfoldable pub device_get : ℤ → List ℕ → Outcome ℕ
device_get (negsuc n) devs = fault
device_get (pos i) devs = if leb max_devices i then ok 0 else ok (get_or devs i 0)

abbrev pub max_consoles : ℕ
max_consoles = 4

unfoldable pub console_register : ℕ → List ℕ → ℤ × List ℕ
console_register c cons =
    if leb max_consoles (length cons) then (neg enospc, cons) else (pos 0, cons ++ (c ∷ []))

-- `console_send`, with the `write` of a console's device for one byte: its result, and what it makes of
-- the rest of the state.
unfoldable pub console_send : {S : Type 0} → (ℕ → ℕ → S → ℤ × S) → ℕ → List ℕ → S → Outcome S
console_send write c [] s = ok s
console_send write c (con ∷ cons) s =
    let (rc, s') = write con c s in
    elim rc [ negsuc e ↦ panic | pos n ↦ if n == 0 then panic else console_send write c cons s' ]

-- The loop of `console_file_write` and `console_dev_write`, with the result.
unfoldable pub send_bytes : {S : Type 0} → (ℕ → ℕ → S → ℤ × S) → List ℕ → List ℕ → S → Outcome S
send_bytes write [] cons s = ok s
send_bytes write (c ∷ buf) cons s = console_send write c cons s >>= send_bytes write buf cons

unfoldable pub console_write :
    {S : Type 0} → (ℕ → ℕ → S → ℤ × S) → List ℕ → List ℕ → S → Outcome (ℤ × S)
console_write write buf cons s = send_bytes write buf cons s >>= λ s'. ok (pos (length buf), s')

-- The list of consoles after `console_sys_init`.
abbrev pub console_sys_init : List ℕ
console_sys_init = []

unfoldable pub kmsg_read : ℕ → ℕ → ℤ
kmsg_read count at = neg enosys

unfoldable pub kmsg_flush : ℤ
kmsg_flush = neg enosys

-- `kmsg_init`, for the device: the buffer is cleared up to its end, and its index stays 0.
unfoldable pub kmsg_init : ℕ → List ℕ → List ℕ
kmsg_init kmsg_dev devs = (device_register (pos kmsg_dev) devs).1

unfoldable pub get_num_of_devices : List ℕ → ℕ
get_num_of_devices devs = length devs
