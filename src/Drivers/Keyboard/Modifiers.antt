-- ===== src/Drivers/Keyboard/Modifiers.antt =====
-- The modifier keys of drivers/keyboard.c.
use levos.Prelude.{
  ℕ, ◌+◌, ◌-◌, ◌<◌, ◌≡◌, refl, arith, true, false, ◌==◌, ◌||◌, leb, ltb, length, get_or,
}
use levos.Prelude.Outcome.{ok}
use levos.Drivers.Keyboard.{
  Keyboard, scancode_std, Role, is_ctrl, is_shift, is_alt, is_capslock, is_plain, role, release,
  press, key_of, parse_keycode,
}

abbrev NoModifier : Keyboard → Type 0
NoModifier kb = (kb.shift ≡ false) × (kb.alt ≡ false) × (kb.ctrl ≡ false)

press-release :
    (r : Role) (key : ℕ) (kb : Keyboard)
    → NoModifier kb
    → NoModifier (release r (record (press r key kb).1 { extended = false }))
unfolding press release
press-release is_ctrl key kb (s, a, c) = (s, a, refl)
press-release is_shift key kb (s, a, c) = (refl, a, c)
press-release is_alt key kb (s, a, c) = (s, refl, c)
press-release is_capslock key kb h = h
press-release is_plain key kb h = h

-- A key of the table that is pressed and released again while no modifier key is down leaves none down,
-- and the release gives no character.
pub parse_keycode-release :
    (code : ℕ) (kb : Keyboard)
    → code < length scancode_std
    → (kb.shift ≡ false) × (kb.alt ≡ false) × (kb.ctrl ≡ false)
    → (key : ℕ) × (down up : Keyboard) × (parse_keycode code kb ≡ ok (key, down))
      × (parse_keycode (code + 0x80) down ≡ ok (0, up))
      × ((up.shift ≡ false) × (up.alt ≡ false) × (up.ctrl ≡ false))
unfolding parse_keycode key_of
parse_keycode-release code kb inside none_down =
    let k = get_or scancode_std code 0 in
    let fresh : Keyboard = record kb { extended = false } in
    let down = (press (role k) k fresh).1 in
    let e1 : (code == 0xE0 || code == 0xE1) ≡ false = ground arith in
    let e2 : leb 0x80 code ≡ false = ground arith in
    let e3 : ltb code (length scancode_std) ≡ true = ground arith in
    let e4 : (code + 0x80 == 0xE0 || code + 0x80 == 0xE1) ≡ false = ground arith in
    let e5 : leb 0x80 (code + 0x80) ≡ true = ground arith in
    let e6 : code + 0x80 - 0x80 ≡ code = omega arith in
    (
      (press (role k) k fresh).0,
      down,
      release (role k) (record down { extended = false }),
      rw (e1, e2, e3),
      rw (e4, e5, e6, e3),
      press-release (role k) k fresh none_down,
    )
