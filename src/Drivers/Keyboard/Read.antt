-- ===== src/Drivers/Keyboard/Read.antt =====
-- drivers/keyboard.c: what a read of the keyboard's device takes from the buffer of keys.
use levos.Prelude.{
  ℕ, zero, suc, ◌≤◌, ◌<◌, ◌≡◌, refl, arith, List, [], ◌∷◌, ltb, length, take, drop, take_all,
  drop_all, min, ◌%◌, Bool-cases, inl, inr,
}
use levos.Prelude.Int.{pos}
use levos.Drivers.Keyboard.{Keyboard, keyboard_get_key, first_key, take_keys, kbd_read}

take_keys-take :
    (n : ℕ) (keys : List ℕ) (kb : Keyboard)
    → n ≤ length keys
    → take_keys n (record kb { keybuf = keys }) ≡ (take n keys, record kb { keybuf = drop n keys })
unfolding take_keys keyboard_get_key first_key
take_keys-take zero keys kb room = refl
take_keys-take (suc n) [] kb room = absurd (omega arith)
take_keys-take (suc n) (c ∷ keys) kb room = rw (take_keys-take n keys kb (omega arith)) refl

-- A read of the keyboard returns the length that was asked for, or the number of keys that wait if that
-- is less; it stores that many keys, the oldest first, and those that are left keep their order.
pub kbd_read-take :
    (len : ℕ) (kb : Keyboard)
    → length kb.keybuf < 256
    → kbd_read len kb ≡ (
      pos (min len (length kb.keybuf)),
      take len kb.keybuf,
      record kb { keybuf = drop len kb.keybuf },
    )
unfolding kbd_read
kbd_read-take len kb room =
    let avail : length kb.keybuf % 256 ≡ length kb.keybuf = omega arith in
    elim (Bool-cases (ltb (length kb.keybuf) len)) [
      | inl more ↦
          let few : length kb.keybuf ≤ len = ground arith in
          let least : min len (length kb.keybuf) ≡ length kb.keybuf = omega arith in
          let all = take_keys-take (length kb.keybuf) kb.keybuf kb (omega arith) in
          let taken = take_all (length kb.keybuf) kb.keybuf (omega arith) in
          let taken' = take_all len kb.keybuf few in
          let left = drop_all (length kb.keybuf) kb.keybuf (omega arith) in
          let left' = drop_all len kb.keybuf few in
          rw (avail, more, least, all, taken, taken', left, left') refl
      | inr enough ↦
          let least : min len (length kb.keybuf) ≡ len = ground arith in
          rw (avail, enough, least, take_keys-take len kb.keybuf kb (ground arith)) refl
    ]
