-- ===== src/Arch/Textmode/Screen.antt =====
-- arch/x86/textmode.c: the cursor, the part of memory that the console writes, and the scrolling.
use levos.Prelude.{
  ℕ, zero, suc, ◌+◌, ◌-◌, ◌*◌, ◌≤◌, ◌<◌, ◌≡◌, ◌∙◌, ◌⊎◌, inl, inr, refl, ap, arith, List, [], ◌∷◌,
  ◌||◌, ◌&&◌, ◌==◌, ltb, leb, if◌then◌else◌, length, Bool-cases,
}
use levos.Prelude.Int.{pos}
use levos.Libc.Mem.{Memory, memcpy}
use levos.Libc.Mem.Copy.{memcpy-read, memset16_outside}
use levos.Arch.Textmode.{
  Tmpriv, screen, newline, scroll_rows, textmode_scrollup, next_row, stay_on_screen, put_cell,
  textmode_putchar, put_chars, textmode_write,
}

-- One row replaced by the next one.
copy_row :
    (y : ℕ) (m : Memory) (a : ℕ)
    → memcpy (screen + y * 80 * 2) (screen + (y + 1) * 80 * 2) 160 m a
      ≡ (if leb (screen + y * 160) a && ltb a (screen + y * 160 + 160) then m (a + 160) else m a)
copy_row y m a =
    let dst = screen + y * 80 * 2 in
    let src = screen + (y + 1) * 80 * 2 in
    ground (
      arith,
      memcpy-read dst src 160 m a (inl (omega arith)),
      ap m {x = src + (a - dst)} {y = a + 160},
    )

-- The byte `a` after `rounds` rows from row `y` on were replaced by those behind them.
scroll_rows-read :
    (rounds y : ℕ) (m : Memory) (a : ℕ)
    → scroll_rows rounds y m a ≡ (
        if leb (screen + y * 160) a && ltb a (screen + (y + rounds) * 160)
        then m (a + 160)
        else m a)
unfolding scroll_rows
scroll_rows-read zero y m a = ground arith
scroll_rows-read (suc rounds) y m a =
    let m1 = memcpy (screen + y * 80 * 2) (screen + (y + 1) * 80 * 2) 160 m in
    ground (arith, scroll_rows-read rounds (y + 1) m1 a, copy_row y m a, copy_row y m (a + 160))

-- Memory outside the 27 rows from the screen's first byte on is the same.
Inside : Memory → Memory → Type 0
Inside m m' = (a : ℕ) → (a < screen) ⊎ (screen + 4320 ≤ a) → m' a ≡ m a

textmode_scrollup-Inside : (p : Tmpriv) (m : Memory) → Inside m (textmode_scrollup p m)
unfolding Inside textmode_scrollup
textmode_scrollup-Inside p m a h =
    let away = scroll_rows-read 25 0 m a in
    elim h [
      | inl below ↦ memset16_outside _ _ 160 _ a (inl (omega arith)) ∙ ground arith
      | inr above ↦ memset16_outside _ _ 160 _ a (inr (omega arith)) ∙ ground arith
    ]

-- Scrolling: the bytes of the 25 rows are those of the row below.
pub textmode_scrollup-rows :
    (p : Tmpriv) (m : Memory) (row b : ℕ)
    → row < 25
    → b < 160
    → textmode_scrollup p m (screen + row * 160 + b) ≡ m (screen + (row + 1) * 160 + b)
unfolding textmode_scrollup
textmode_scrollup-rows p m row b h inside =
    let below : screen + row * 160 + b + 160 ≡ screen + (row + 1) * 160 + b = omega arith in
    memset16_outside _ _ 160 _ _ (inl (omega arith))
    ∙ ground (arith, scroll_rows-read 25 0 m (screen + row * 160 + b), ap m below)

pub record IsCursor (p : Tmpriv) : Type 0 where
  pub column : p.x ≤ 81
  pub row : p.y < 25

-- What one step may do to the cursor and to memory: the column is at most `x`, the row above `y`.
Step : ℕ → ℕ → Tmpriv × Memory → Tmpriv × Memory → Type 0
Step x y (p, m) (p', m') = (p'.x ≤ x) × (p'.y < y) × (p'.col ≡ p.col) × Inside m m'

next_row-Step : (c : ℕ) (p : Tmpriv) (m : Memory) → IsCursor p → Step 80 26 (p, m) (next_row c p, m)
unfolding Step Inside next_row
next_row-Step c p m cursor = elim (Bool-cases (ltb 80 p.x || c == newline)) [
  | inl e ↦ let row = cursor.row in rw e (omega arith, omega arith, refl, λ a h. refl)
  | inr e ↦ let row = cursor.row in rw e (ground arith, omega arith, refl, λ a h. refl)
]

stay_on_screen-Step :
    (p : Tmpriv) (m : Memory) → p.x ≤ 80 → p.y < 26 → Step 80 25 (p, m) (stay_on_screen (p, m))
unfolding Step stay_on_screen
stay_on_screen-Step p m column row = elim (Bool-cases (leb 25 p.y)) [
  | inl e ↦ rw e (omega arith, ground arith, refl, textmode_scrollup-Inside p m)
  | inr e ↦ rw e (column, ground arith, refl, unfold Inside in λ a h. refl)
]

put_cell-Step :
    (c : ℕ) (p : Tmpriv) (m : Memory) → p.x ≤ 80 → p.y < 25 → Step 81 25 (p, m) (put_cell c (p, m))
unfolding Step Inside put_cell
put_cell-Step c p m column row = elim (Bool-cases (c == newline)) [
  | inl e ↦ rw e (omega arith, row, refl, λ a h. refl)
  | inr e ↦ rw e (
    omega arith,
    row,
    refl,
    λ a h. elim h [ inl below ↦ ground arith | inr above ↦ ground arith ],
  )
]

textmode_putchar-Step :
    (c : ℕ) (p : Tmpriv) (m : Memory) → IsCursor p → Step 81 25 (p, m) (textmode_putchar c (p, m))
unfolding Step Inside textmode_putchar
textmode_putchar-Step c p m cursor = elim (Bool-cases (c == 0)) [
  | inl e ↦ rw e (cursor.column, cursor.row, refl, λ a h. refl)
  | inr e ↦
      let (x1, y1, col1, _) = next_row-Step c p m cursor in
      let p1 = next_row c p in
      let (x2, y2, col2, in2) = stay_on_screen-Step p1 m x1 y1 in
      let (p2, m2) = stay_on_screen (p1, m) in
      let (x3, y3, col3, in3) = put_cell-Step c p2 m2 x2 y2 in
      rw e (x3, y3, col3 ∙ col2 ∙ col1, λ a h. in3 a h ∙ in2 a h)
]

put_chars-Step :
    (buf : List ℕ) (p : Tmpriv) (m : Memory)
    → IsCursor p
    → let (p', m') = put_chars buf (p, m) in
      IsCursor p' × (p'.col ≡ p.col) × ((a : ℕ) → (a < screen) ⊎ (screen + 4320 ≤ a) → m' a ≡ m a)
unfolding put_chars Step Inside
put_chars-Step [] p m cursor = (cursor, refl, λ a h. refl)
put_chars-Step (c ∷ buf) p m cursor =
    let (p1, m1) = textmode_putchar c (p, m) in
    let (column, row, col, inside) = textmode_putchar-Step c p m cursor in
    let (end, col', inside') = put_chars-Step buf p1 m1 (record { column = column; row = row }) in
    (end, col' ∙ col, λ a h. inside' a h ∙ inside a h)

-- `textmode_write` returns the count. Whatever the bytes are, it keeps the cursor in the 25 rows and at
-- column 81 at most, keeps the colour, and writes nowhere but in the 27 rows from the screen's first
-- byte on, of which the last two are below the screen.
pub textmode_write-IsCursor :
    (buf : List ℕ) (p : Tmpriv) (m : Memory)
    → IsCursor p
    → let (r, p', m') = textmode_write buf (p, m) in
      (r ≡ pos (length buf))
      × IsCursor p'
      × (p'.col ≡ p.col)
      × ((a : ℕ) → (a < screen) ⊎ (screen + 4320 ≤ a) → m' a ≡ m a)
unfolding textmode_write
textmode_write-IsCursor buf p m cursor =
    let (end, col, inside) = put_chars-Step buf p m cursor in (refl, end, col, inside)
