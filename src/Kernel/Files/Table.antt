-- ===== src/Kernel/Files/Table.antt =====
-- Which descriptor `syscall_open` of kernel/syscall.c gives, and what it then stands for.
use levos.Prelude.{
  ℕ, zero, suc, ◌+◌, ◌≤◌, ◌<◌, ◌≡◌, ◌≢◌, ◌⊎◌, ◌∙◌, refl, sym, ap, arith, List, [], ◌∷◌, Option,
  none, some, true, false, ◌==◌, ltb, length, get_or, set, get_or-set_self, get_or-set_ne,
  length-set, Bool-cases, inl, inr,
}
use levos.Prelude.Int.{ℤ, pos, neg}
use levos.Prelude.Errno.{ebadf, emfile}
use levos.Prelude.Outcome.{Outcome, ok}
use levos.Kernel.Files.{file_at, free_fd, enter_file, syscall_open, syscall_close, syscall_transfer}

-- Each slot from `a` up to `b` is in use.
abbrev pub InUse : ℕ → ℕ → List ℕ → Type 0
InUse a b table = (k : ℕ) → a ≤ k → k < b → get_or table k 0 ≢ 0

-- What the loop finds from `i` on.
abbrev LowestFree : ℕ → ℕ → List ℕ → Option ℕ → Type 0
LowestFree rounds i table none = InUse i (i + rounds) table
LowestFree rounds i table (some fd) =
    (i ≤ fd) × (fd < i + rounds) × (get_or table fd 0 ≡ 0) × InUse i fd table

LowestFree-next :
    (rounds i : ℕ) (table : List ℕ) (o : Option ℕ)
    → get_or table i 0 ≢ 0
    → LowestFree rounds (i + 1) table o
    → LowestFree (suc rounds) i table o
LowestFree-next rounds i table none ne h = λ k lo hi. elim (Bool-cases (k == i)) [
  | inl e ↦ let same : k ≡ i = ground arith in rw same ne
  | inr e ↦ h k (ground arith) (omega arith)
]
LowestFree-next rounds i table (some fd) ne (lo, hi, free, used) = (
  omega arith,
  omega arith,
  free,
  λ k klo khi. elim (Bool-cases (k == i)) [
    | inl e ↦ let same : k ≡ i = ground arith in rw same ne
    | inr e ↦ used k (ground arith) khi
  ],
)

free_fd-LowestFree :
    (rounds i : ℕ) (table : List ℕ) → LowestFree rounds i table (free_fd rounds i table)
unfolding free_fd
free_fd-LowestFree zero i table = λ k lo hi. absurd (omega arith)
free_fd-LowestFree (suc rounds) i table = elim (Bool-cases (get_or table i 0 == 0)) [
  | inl e ↦ rw e (omega arith, omega arith, ground arith, λ k lo hi. absurd (omega arith))
  | inr e ↦ rw e (
      LowestFree-next rounds i table (free_fd rounds (i + 1) table) (ground arith)
        (free_fd-LowestFree rounds (i + 1) table))
]

set-set : (table : List ℕ) (i v w : ℕ) → set (set table i v) i w ≡ set table i w
set-set [] i v w = refl
set-set (x ∷ table) zero v w = refl
set-set (x ∷ table) (suc i) v w = ap (λ t. x ∷ t) (set-set table i v w)

set_same :
    (table : List ℕ) (i v : ℕ) → get_or table i 0 ≡ v → i < length table → set table i v ≡ table
set_same [] i v e h = refl
set_same (x ∷ table) zero v e h = ap (λ y. y ∷ table) (sym e)
set_same (x ∷ table) (suc i) v e h = ap (λ t. x ∷ t) (set_same table i v e (omega arith))

-- The descriptor `fd` was given to a file: it was the lowest free one from 3 on, it stands for the file
-- now, the other descriptors stand for what they stood for, and closing it gives the table back.
pub record Opened (filp fd : ℕ) (table table' : List ℕ) : Type 0 where
  pub low : 3 ≤ fd
  pub high : fd < 128
  pub free : get_or table fd 0 ≡ 0
  pub lower : InUse 3 fd table
  pub file :
      (operation : ℕ → Outcome ℤ) → syscall_transfer operation (pos fd) table' ≡ operation filp
  pub others : (k : ℕ) → k ≢ fd → get_or table' k 0 ≡ get_or table k 0
  pub closed : syscall_close (pos fd) table' ≡ ok (pos 0, table)

set-Opened :
    (filp fd : ℕ) (table : List ℕ)
    → filp ≢ 0
    → length table ≡ 128
    → LowestFree 125 3 table (some fd)
    → Opened filp fd table (set table fd filp)
set-Opened filp fd table ne full (lo, hi, free, lower) =
    let inside : ltb fd (length (set table fd filp)) ≡ true =
      ground (arith, length-set table fd filp) in
    let there = get_or-set_self table fd filp 0 (omega arith) in
    let not_null : (filp == 0) ≡ false = ground arith in
    let back = set-set table fd filp 0 ∙ set_same table fd 0 free (omega arith) in
    record {
      low = lo;
      high = omega arith;
      free = free;
      lower = lower;
      file = λ operation. unfold syscall_transfer file_at in rw (inside, there, not_null);
      others = λ k other. get_or-set_ne table fd k filp 0 (λ e. other (sym e));
      closed = unfold syscall_close file_at in rw (inside, there, not_null, back);
    }

enter_file-Opened :
    (filp : ℕ) (table : List ℕ) (o : Option ℕ)
    → filp ≢ 0
    → length table ≡ 128
    → LowestFree 125 3 table o
    → ((fd : ℕ) × ((enter_file o filp table).0 ≡ pos fd)
        × Opened filp fd table (enter_file o filp table).1)
      ⊎ ((enter_file o filp table ≡ (neg emfile, table)) × InUse 3 128 table)
unfolding enter_file
enter_file-Opened filp table none ne full h = inr (refl, h)
enter_file-Opened filp table (some fd) ne full h =
    inl (fd, refl, set-Opened filp fd table ne full h)

-- With a table of 128 slots, `syscall_open` of a file that was opened enters it under the lowest free
-- descriptor from 3 on, from where it is read, written and closed; it returns -EMFILE, and changes
-- nothing, exactly when the descriptors from 3 on are all in use.
pub syscall_open-Opened :
    (filp : ℕ) (table : List ℕ)
    → filp ≢ 0
    → length table ≡ 128
    → ((fd : ℕ) × ((syscall_open filp table).0 ≡ pos fd)
        × Opened filp fd table (syscall_open filp table).1)
      ⊎ ((syscall_open filp table ≡ (neg emfile, table)) × InUse 3 128 table)
unfolding syscall_open
syscall_open-Opened filp table ne full =
    enter_file-Opened filp table (free_fd 125 3 table) ne full (free_fd-LowestFree 125 3 table)

-- A descriptor inside the table that is closed, whatever it stood for, stands for no file: reading,
-- writing and closing it again give -EBADF.
pub syscall_close-ebadf :
    (fd : ℕ) (table : List ℕ)
    → fd < length table
    → (table' : List ℕ) × (r : ℤ) × (syscall_close (pos fd) table ≡ ok (r, table'))
      × ((operation : ℕ → Outcome ℤ) → syscall_transfer operation (pos fd) table' ≡ ok (neg ebadf))
      × (syscall_close (pos fd) table' ≡ ok (neg ebadf, table'))
unfolding syscall_close syscall_transfer file_at
syscall_close-ebadf fd table inside = elim (Bool-cases (get_or table fd 0 == 0)) [
  | inl e ↦
      let here : ltb fd (length table) ≡ true = ground arith in
      (table, neg ebadf, rw (here, e) refl, (λ operation. rw (here, e)), rw (here, e))
  | inr e ↦
      let here : ltb fd (length table) ≡ true = ground arith in
      let here' : ltb fd (length (set table fd 0)) ≡ true = ground (arith, length-set table fd 0) in
      let gone = get_or-set_self table fd 0 0 inside in
      (set table fd 0, pos 0, rw (here, e) refl, (λ operation. rw (here', gone)), rw (here', gone))
]
