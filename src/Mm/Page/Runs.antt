-- ===== src/Mm/Page/Runs.antt =====
-- `mm_alloc_pages` of mm/frame.c: the run of frames that it takes, and what it returns with none left.
use levos.Prelude.{
  ℕ, zero, suc, ◌+◌, ◌-◌, ◌*◌, ◌/◌, ◌%◌, ◌^◌, ◌≤◌, ◌<◌, ◌≡◌, ◌≢◌, ◌∙◌, ◌⊎◌, inl, inr, refl, arith,
  true, false, ◌&&◌, ◌==◌, ltb, leb, if◌then◌else◌, Bool-cases,
}
use levos.Prelude.Outcome.{ok}
use levos.Mm.Frame.{page_size, u32, no_frame, first_n_frames}
use levos.Mm.Frame.Bitmap.{used, test_frame-used}
use levos.Mm.Frame.Runs.{FreeRun, first_n_frames-FirstRun}
use levos.Mm.State.{Mm}
use levos.Mm.Page.{alloc_dma_frame, map_dma, alloc_pages_from, pages_between, mm_alloc_pages}
use levos.Mm.Page.Translate.{
  table_of, get_page_there, dirs-dma, kernel_dir-dma, nframes-dma, used-dma,
}

-- The kernel directory has a page table for each frame of the run.
abbrev pub HasTables : {L : Type 0} → Mm L → ℕ → ℕ → Type 0
HasTables st f n = (k : ℕ) → k < n → table_of st st.kernel_dir ((f + k) * page_size) ≢ 0

module _ {L : Type 0} (new_malloc : ℕ → Mm L → ℕ × Mm L) where
  -- The state after one round of the loop.
  taken : ℕ → Mm L → Mm L
  taken f st =
      let a = f * page_size in
      alloc_dma_frame true false a (table_of st st.kernel_dir a, a / page_size % 1024) st

  map_there :
      (f : ℕ) (st : Mm L)
      → table_of st st.kernel_dir (f * page_size) ≢ 0
      → map_dma new_malloc true true false st.kernel_dir (f * page_size) st ≡ ok (taken f st)
  unfolding map_dma taken
  map_there f st there = rw (get_page_there new_malloc (f * page_size) st.kernel_dir st there)

  alloc_round :
      (r f : ℕ) (st : Mm L)
      → used st.fmap f ≡ 0
      → table_of st st.kernel_dir (f * page_size) ≢ 0
      → alloc_pages_from new_malloc (suc r) (f * page_size) st
        ≡ alloc_pages_from new_malloc r ((f + 1) * page_size) (taken f st)
  unfolding alloc_pages_from
  alloc_round r f st free there =
      let back : f * page_size / page_size ≡ f = omega arith in
      let next : f * page_size + page_size ≡ (f + 1) * page_size = omega arith in
      rw (test_frame-used st.fmap (f * page_size), back, free, map_there f st there, next)

  used-taken :
      (f h : ℕ) (st : Mm L)
      → f < st.fmap.nframes
      → st.fmap.nframes < 2 ^ 20
      → used (taken f st).fmap h ≡ (if f == h then 1 else used st.fmap h)
  unfolding taken
  used-taken f h st hi small =
      let back : f * page_size / page_size ≡ f = omega arith in
      rw
        (
          used-dma true false (f * page_size) (table_of st st.kernel_dir (f * page_size))
              (f * page_size / page_size % 1024) h st,
          back,
        )
        (ground arith)

  HasTables-taken :
      (r f : ℕ) (st : Mm L) → HasTables st f (suc r) → HasTables (taken f st) (f + 1) r
  unfolding taken
  HasTables-taken r f st h k hk =
      let a = f * page_size in
      let t = table_of st st.kernel_dir a in
      let i = a / page_size % 1024 in
      let e : f + 1 + k ≡ f + suc k = omega arith in
      rw (dirs-dma true false a t i st, kernel_dir-dma true false a t i st, e)
        (h (suc k) (omega arith))

  nframes-taken : (f : ℕ) (st : Mm L) → (taken f st).fmap.nframes ≡ st.fmap.nframes
  unfolding taken
  nframes-taken f st = nframes-dma true false _ _ _ st

  alloc_run :
      (r f : ℕ) (st : Mm L)
      → st.fmap.nframes < 2 ^ 20
      → f + r ≤ st.fmap.nframes
      → FreeRun st.fmap r f
      → HasTables st f r
      → (st' : Mm L) × (alloc_pages_from new_malloc r (f * page_size) st ≡ ok st')
        × ((h : ℕ) → used st'.fmap h ≡ (if leb f h && ltb h (f + r) then 1 else used st.fmap h))
  alloc_run zero f st small fits free there =
      (st, unfold alloc_pages_from in refl, λ h. ground arith)
  alloc_run (suc r) f st small fits free there =
      let z : f + 0 ≡ f = omega arith in
      let free_f : used st.fmap f ≡ 0 = rw z at (free 0 (omega arith)) in
      let there_f = rw z at (there 0 (omega arith)) in
      let (st', run, marks) =
        alloc_run r (f + 1) (taken f st) (rw (nframes-taken f st) small)
          (rw (nframes-taken f st) (omega arith))
          (λ k hk.
            let e : f + 1 + k ≡ f + suc k = omega arith in
            rw (used-taken f (f + 1 + k) st (omega arith) small)
              (ground (arith, rw (← e) at (free (suc k) (omega arith)))))
          (HasTables-taken r f st there) in
      (
        st',
        alloc_round r f st free_f there_f ∙ run,
        λ h. ground (arith, marks h, used-taken f h st),
      )

  takes_first :
      (n : ℕ) (st : Mm L)
      → st.fmap.nframes < 2 ^ 19
      → first_n_frames n st.fmap + n ≤ st.fmap.nframes
      → FreeRun st.fmap n (first_n_frames n st.fmap)
      → HasTables st (first_n_frames n st.fmap) n
      → (st' : Mm L) × (mm_alloc_pages new_malloc n st
          ≡ ok (first_n_frames n st.fmap * page_size, st'))
        × ((h : ℕ)
            → used st'.fmap h ≡ (
                if leb (first_n_frames n st.fmap) h && ltb h (first_n_frames n st.fmap + n)
                then 1
                else used st.fmap h))
  unfolding mm_alloc_pages
  takes_first n st small fits free there =
      let f = first_n_frames n st.fmap in
      let (st', run, marks) = alloc_run n f st (omega arith) fits free there in
      let e : u32 (f * page_size) ≡ f * page_size = omega arith in
      let rounds : pages_between new_malloc (f * page_size) n ≡ n =
        unfold pages_between in omega arith in
      (st', rw (e, rounds, run), marks)

  -- The first run, where there is one.
  first_run :
      (n g : ℕ) (st : Mm L)
      → g < st.fmap.nframes
      → FreeRun st.fmap n g
      → ((first_n_frames n st.fmap < st.fmap.nframes)
          × FreeRun st.fmap n (first_n_frames n st.fmap)
          × ((h : ℕ) → h < first_n_frames n st.fmap → ¬ FreeRun st.fmap n h))
        ⊎ ((first_n_frames n st.fmap ≡ no_frame)
            × ((h : ℕ) → h < st.fmap.nframes → ¬ FreeRun st.fmap n h))
      → (first_n_frames n st.fmap ≤ g)
        × FreeRun st.fmap n (first_n_frames n st.fmap)
        × ((h : ℕ) → h < first_n_frames n st.fmap → ¬ FreeRun st.fmap n h)
  first_run n g st below free (inl (lo, first, least)) =
      let near : first_n_frames n st.fmap ≤ g =
        elim (Bool-cases (ltb g (first_n_frames n st.fmap))) [
          | inl below_it ↦ absurd (least g (ground arith) free)
          | inr behind ↦ ground arith
        ] in
      (near, first, least)
  first_run n g st below free (inr (e, none_free)) = absurd (none_free g below free)

  -- If `nframes + n` is at most 2 ^ 19, some `n` free frames in a row lie below `nframes`, and each frame below
  -- `nframes` has its page table, `mm_alloc_pages(n)` neither panics nor faults: it returns the address of
  -- the lowest `n` free frames in a row. These are marked afterwards, and the marks of all others stay.
  pub mm_alloc_pages-takes :
      (n g : ℕ) (st : Mm L)
      → 0 < n
      → st.fmap.nframes + n ≤ 2 ^ 19
      → g + n ≤ st.fmap.nframes
      → FreeRun st.fmap n g
      → HasTables st 0 st.fmap.nframes
      → (f : ℕ) × FreeRun st.fmap n f
        × ((h : ℕ) → h < f → ¬ FreeRun st.fmap n h)
        × (st' : Mm L) × (mm_alloc_pages new_malloc n st ≡ ok (f * page_size, st'))
        × ((h : ℕ) → used st'.fmap h ≡ (if leb f h && ltb h (f + n) then 1 else used st.fmap h))
  mm_alloc_pages-takes n g st some_pages small inside free tables =
      let (near, first, least) =
        first_run n g st (omega arith) free (first_n_frames-FirstRun st.fmap n small) in
      let f = first_n_frames n st.fmap in
      let (st', run, marks) = takes_first n st (omega arith) (omega arith) first (λ k hk.
        let e : 0 + (f + k) ≡ f + k = omega arith in rw e at (tables (f + k) (omega arith))) in
      (f, first, least, st', run, marks)

  -- With `nframes + n` at most 2 ^ 19, a positive `n`, and no run of `n` free frames, `mm_alloc_pages(n)` takes
  -- nothing and still returns an address, the last page below 4 GiB: the caller's test for 0 does not see the failure.
  pub mm_alloc_pages-exhausted :
      (n : ℕ) (st : Mm L)
      → 0 < n
      → st.fmap.nframes + n ≤ 2 ^ 19
      → ((g : ℕ) → g < st.fmap.nframes → ¬ FreeRun st.fmap n g)
      → mm_alloc_pages new_malloc n st ≡ ok (0xffff_f000, st)
  unfolding mm_alloc_pages pages_between
  mm_alloc_pages-exhausted n st pos fits none_free =
      let e = nothing (first_n_frames-FirstRun st.fmap n fits) in
      let rounds : (u32 (0xffff_f000 + n * page_size) - 0xffff_f000) / page_size ≡ 0 =
        omega arith in
      rw (e, rounds) (unfold alloc_pages_from in refl)
    where
      nothing :
          ((first_n_frames n st.fmap < st.fmap.nframes)
              × FreeRun st.fmap n (first_n_frames n st.fmap)
              × ((g : ℕ) → g < first_n_frames n st.fmap → ¬ FreeRun st.fmap n g))
            ⊎ ((first_n_frames n st.fmap ≡ no_frame)
                × ((g : ℕ) → g < st.fmap.nframes → ¬ FreeRun st.fmap n g))
          → first_n_frames n st.fmap ≡ no_frame
      nothing (inl (lo, free, least)) = absurd (none_free _ lo free)
      nothing (inr (e, h)) = e
