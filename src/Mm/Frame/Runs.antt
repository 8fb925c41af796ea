-- ===== src/Mm/Frame/Runs.antt =====
-- `first_n_frames` of mm/frame.c: the first run of free frames.
use levos.Prelude.{
  ℕ, zero, suc, ◌+◌, ◌*◌, ◌/◌, ◌^◌, ◌≤◌, ◌<◌, ◌≡◌, ◌⊎◌, refl, arith, ◌==◌, Bool-cases, inl, inr,
}
use levos.Mm.Frame.{FrameMap, page_size, u32, no_frame, run_taken, run_from, first_n_frames}
use levos.Mm.Frame.Bitmap.{used, test_frame-used}

-- `n` free frames in a row, from `f` on.
abbrev pub FreeRun : FrameMap → ℕ → ℕ → Type 0
FreeRun s n f = (k : ℕ) → k < n → used s (f + k) ≡ 0

-- The frame that the loop over `j` tests.
frame_at : ℕ → ℕ → ℕ
frame_at i j = u32 (i + page_size * j) / page_size

run_taken-zero :
    (s : FrameMap) (i r j b : ℕ)
    → run_taken s i r j b ≡ 0
    → (b ≡ 0) × ((k : ℕ) → j ≤ k → k < j + r → used s (frame_at i k) ≡ 0)
unfolding run_taken frame_at
run_taken-zero s i zero j b h = (h, λ k lo hi. absurd (omega arith))
run_taken-zero s i (suc r) j b h =
    let (e, rest) = run_taken-zero s i r (j + 1) _ h in
    let now = test_frame-used s (u32 (i + page_size * j)) in
    (
      ground arith,
      λ k lo hi. elim (Bool-cases (j == k)) [
        | inl same ↦ ground arith
        | inr differs ↦ rest k (ground arith) (omega arith)
      ],
    )

zero-run_taken :
    (s : FrameMap) (i r j : ℕ)
    → ((k : ℕ) → j ≤ k → k < j + r → used s (frame_at i k) ≡ 0)
    → run_taken s i r j 0 ≡ 0
unfolding run_taken frame_at
zero-run_taken s i zero j h = refl
zero-run_taken s i (suc r) j h =
    rw (test_frame-used s (u32 (i + page_size * j)), h j (omega arith) (omega arith))
      (zero-run_taken s i r (j + 1) (λ k lo hi. h k (omega arith) (omega arith)))

frame_at-eq : (f k : ℕ) → f + k < 2 ^ 20 → frame_at (f * page_size) k ≡ f + k
unfolding frame_at
frame_at-eq f k h = omega arith

-- The test of the loop over `i`, at the address of a frame.
run_taken-FreeRun :
    (s : FrameMap) (n f : ℕ)
    → f + n ≤ 2 ^ 20
    → run_taken s (f * page_size) n 0 0 ≡ 0
    → FreeRun s n f
run_taken-FreeRun s n f fits h k hk =
    rw (← frame_at-eq f k (omega arith))
      ((run_taken-zero s (f * page_size) n 0 0 h).1 k (omega arith) (omega arith))

FreeRun-run_taken :
    (s : FrameMap) (n f : ℕ)
    → f + n ≤ 2 ^ 20
    → FreeRun s n f
    → run_taken s (f * page_size) n 0 0 ≡ 0
FreeRun-run_taken s n f fits h =
    zero-run_taken s (f * page_size) n 0
      (λ k lo hi. rw (frame_at-eq f k (omega arith)) (h k (omega arith)))

-- What a search of the starts `f .. f + r - 1` finds.
abbrev FirstRun : FrameMap → ℕ → ℕ → ℕ → ℕ → Type 0
FirstRun s n f r out =
    ((f ≤ out) × (out < f + r) × FreeRun s n out × ((g : ℕ) → f ≤ g → g < out → ¬ FreeRun s n g))
    ⊎ ((out ≡ no_frame) × ((g : ℕ) → f ≤ g → g < f + r → ¬ FreeRun s n g))

FirstRun-later :
    (s : FrameMap) (n f r out : ℕ)
    → ¬ FreeRun s n f
    → FirstRun s n (f + 1) r out
    → FirstRun s n f (suc r) out
FirstRun-later s n f r out taken (inl (lo, hi, free, least)) = inl (
  omega arith,
  omega arith,
  free,
  λ g a b. elim (Bool-cases (f == g)) [
    | inl e ↦ let same : f ≡ g = ground arith in rw same at taken
    | inr e ↦ least g (ground arith) b
  ],
)
FirstRun-later s n f r out taken (inr (e, none_free)) = inr (
  e,
  λ g a b. elim (Bool-cases (f == g)) [
    | inl e ↦ let same : f ≡ g = ground arith in rw same at taken
    | inr e ↦ none_free g (ground arith) (omega arith)
  ],
)

run_from-FirstRun :
    (s : FrameMap) (n r f : ℕ)
    → f + r + n ≤ 2 ^ 20
    → FirstRun s n f r (run_from s n r (f * page_size))
unfolding run_from
run_from-FirstRun s n zero f fits = inr (refl, λ g lo hi. absurd (omega arith))
run_from-FirstRun s n (suc r) f fits =
    let e : f * page_size + page_size ≡ (f + 1) * page_size = omega arith in
    let back : f * page_size / page_size ≡ f = omega arith in
    let ih = run_from-FirstRun s n r (f + 1) (omega arith) in
    elim (Bool-cases (run_taken s (f * page_size) n 0 0 == 0)) [
      | inl free ↦
          rw (free, back)
            (inl (
              omega arith,
              omega arith,
              run_taken-FreeRun s n f (omega arith) (ground arith),
              λ g a b. absurd (omega arith),
            ))
      | inr taken ↦
          rw (taken, e)
            (FirstRun-later s n f r (run_from s n r ((f + 1) * page_size))
              (λ h. let z = FreeRun-run_taken s n f (omega arith) h in ground arith) ih)
    ]

-- If `nframes + n` is at most 2 ^ 19, so that each address that is looked at is below 2 GiB and no `int`
-- overflows, `first_n_frames(n)` returns the lowest frame below `nframes` at which `n` free frames begin, and 0xFFFFFFFF only when there is none.
pub first_n_frames-FirstRun :
    (s : FrameMap) (n : ℕ)
    → s.nframes + n ≤ 2 ^ 19
    → ((first_n_frames n s < s.nframes)
        × FreeRun s n (first_n_frames n s)
        × ((g : ℕ) → g < first_n_frames n s → ¬ FreeRun s n g))
      ⊎ ((first_n_frames n s ≡ no_frame) × ((g : ℕ) → g < s.nframes → ¬ FreeRun s n g))
unfolding first_n_frames
first_n_frames-FirstRun s n fits =
    let e : u32 (s.nframes * page_size) / page_size ≡ s.nframes = omega arith in
    rw e (start (run_from-FirstRun s n s.nframes 0 (omega arith)))
  where
    start :
        FirstRun s n 0 s.nframes (run_from s n s.nframes 0)
        → ((run_from s n s.nframes 0 < s.nframes)
            × FreeRun s n (run_from s n s.nframes 0)
            × ((g : ℕ) → g < run_from s n s.nframes 0 → ¬ FreeRun s n g))
          ⊎ ((run_from s n s.nframes 0 ≡ no_frame) × ((g : ℕ) → g < s.nframes → ¬ FreeRun s n g))
    start (inl (lo, hi, free, least)) = inl (omega arith, free, λ g h. least g (omega arith) h)
    start (inr (e, h)) = inr (e, λ g k. h g (omega arith) (omega arith))
