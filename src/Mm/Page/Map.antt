-- ===== src/Mm/Page/Map.antt =====
-- `alloc_dma_frame(get_page(a, 1, dir), k, w, a)`, the way mm/page.c and mm/frame.c map memory onto itself.
use levos.Prelude.{
  ℕ, ◌+◌, ◌*◌, ◌/◌, ◌%◌, ◌^◌, ◌≤◌, ◌<◌, ◌≡◌, ◌≢◌, ◌∙◌, ◌⊎◌, inl, inr, refl, sym, ap, arith, Bool,
  true, some, ◌==◌, ltb, if◌then◌else◌, Bool-cases,
}
use levos.Prelude.Outcome.{ok}
use levos.Mm.Frame.{page_size, u32}
use levos.Mm.Frame.Bitmap.{used}
use levos.Mm.State.{Mm, virtual_to_physical}
use levos.Mm.Page.{alloc_dma_frame, get_page, map_dma}
use levos.Mm.Page.Translate.{
  table_of, WellMapped, CanGrow, Got, Got-there, Got-grown, get_page_there, get_page_grow, grown,
  pages-dma, dirs-dma, directory-dma, kernel_dir-dma, nframes-dma, used-dma, plp-dma, heap-dma,
  translates,
}

module _ {L : Type 0} (new_malloc : ℕ → Mm L → ℕ × Mm L) where
  get_page-Got :
      (a dir : ℕ) (st : Mm L)
      → (table_of st dir a ≢ 0) ⊎ CanGrow st
      → (tab : ℕ) × (st' : Mm L) × (get_page new_malloc a true dir st
          ≡ ok (some (tab, a / page_size % 1024), st'))
        × Got dir a tab st st'
  get_page-Got a dir st ready = elim (Bool-cases (table_of st dir a == 0)) [
    | inl e ↦
        let z : table_of st dir a ≡ 0 = ground arith in
        let grow = can_grow z ready in
        (
          _,
          grown new_malloc dir a st,
          get_page_grow new_malloc a dir st z grow.0,
          Got-grown new_malloc a dir st z grow,
        )
    | inr e ↦
        let ne : table_of st dir a ≢ 0 = ground arith in
        (_, st, get_page_there new_malloc a dir st ne, Got-there new_malloc a dir st ne)
  ]
    where
      can_grow : table_of st dir a ≡ 0 → (table_of st dir a ≢ 0) ⊎ CanGrow st → CanGrow st
      can_grow z (inl ne) = absurd (ne z)
      can_grow z (inr g) = g

  -- What mapping the page at `a` onto itself leaves.
  pub record Mapped (dir a : ℕ) (st st' : Mm L) : Type 0 where
    pub identity : (r : ℕ) → r < page_size → virtual_to_physical (a + r) st' ≡ a + r
    pub others :
        (b : ℕ)
        → WellMapped dir st
        → b / page_size ≢ a / page_size
        → table_of st dir b ≢ 0
        → virtual_to_physical b st' ≡ virtual_to_physical b st
    pub marks :
        (h : ℕ)
        → used st'.fmap h ≡ (
            if ltb a (u32 (st.fmap.nframes * 4 * 0x400))
            then (if a / page_size == h then 1 else used st.fmap h)
            else used st.fmap h)
    pub tables : (b : ℕ) → table_of st dir b ≢ 0 → table_of st' dir b ≡ table_of st dir b
    pub same_nframes : st'.fmap.nframes ≡ st.fmap.nframes
    pub kernel : st'.kernel_dir ≡ st.kernel_dir
    pub current : st'.current_directory ≡ st.current_directory
    pub entry : table_of st' dir a ≢ 0
    pub mapped : WellMapped dir st → WellMapped dir st'
    pub heap : st'.heap_online ≡ st.heap_online
    pub grows : st.plp ≤ st'.plp
    pub little : st'.plp ≤ st.plp + 0x2000

  module _ (k w : Bool) (a dir tab : ℕ) (st st' : Mm L) (bound : a < 2 ^ 32)
      (aligned : a % page_size ≡ 0) (here : st.current_directory ≡ dir)
      (g : Got dir a tab st st') where
    after : Mm L
    after = alloc_dma_frame k w a (tab, a / page_size % 1024) st'

    after_table : (b t : ℕ) → table_of st' dir b ≡ t → table_of after dir b ≡ t
    unfolding after
    after_table b t e = rw (dirs-dma k w a tab (a / page_size % 1024) st') e

    after_current : after.current_directory ≡ dir
    unfolding after
    after_current = directory-dma k w a tab (a / page_size % 1024) st' ∙ g.current ∙ here

    after_plp : after.plp ≡ st'.plp
    unfolding after
    after_plp = plp-dma k w a tab (a / page_size % 1024) st'

    after_mapped : WellMapped dir st' → WellMapped dir after
    unfolding after
    after_mapped v =
        let dirs = dirs-dma k w a tab (a / page_size % 1024) st' in
        record { below = rw (dirs, after_plp) v.below; distinct = rw dirs v.distinct }

    after_frame : (after.pages tab (a / page_size % 1024)).frame ≡ a / page_size
    unfolding after
    after_frame = rw (pages-dma k w a tab (a / page_size % 1024) st') (ground arith)

    after_identity : (r : ℕ) → r < page_size → virtual_to_physical (a + r) after ≡ a + r
    after_identity r hr =
        let same : (a + r) / page_size ≡ a / page_size = omega arith in
        let t : table_of after dir (a + r) ≡ tab =
          ap (λ (n : ℕ). (after.dirs dir).tables (n / 1024)) same ∙ after_table a tab g.entry in
        let f : (after.pages tab ((a + r) / page_size % 1024)).frame ≡ a / page_size =
          ap (λ (n : ℕ). (after.pages tab (n % 1024)).frame) same ∙ after_frame in
        translates (a + r) (a / page_size) dir tab after after_current t g.nonnull f ∙ omega arith

    -- Another page's entry is not the one that was written.
    after_entry :
        (b : ℕ)
        → WellMapped dir st
        → b / page_size ≢ a / page_size
        → table_of st dir b ≢ 0
        → (after.pages (table_of st dir b) (b / page_size % 1024)).frame
          ≡ (st.pages (table_of st dir b) (b / page_size % 1024)).frame
    unfolding after
    after_entry b v ne there = rw (pages-dma k w a tab (a / page_size % 1024) st') (
        ground (
          arith,
          g.entries (table_of st dir b) (b / page_size % 1024)
              (v.below (b / page_size / 1024) there),
          g.tables b there,
          g.entry,
          (g.mapped v).distinct (b / page_size / 1024) (a / page_size / 1024),
        ))

    Mapped-after : Mapped dir a st after
    Mapped-after = record {
      identity = after_identity;
      others = λ b v ne there.
          translates b _ dir (table_of st dir b) after after_current
            (after_table b (table_of st dir b) (g.tables b there)) there (after_entry b v ne there)
          ∙ sym (translates b _ dir (table_of st dir b) st here refl there refl);
      marks = λ h. unfold after in (used-dma k w a tab (a / page_size % 1024) h st' ∙ rw g.fmap);
      tables = λ b there. after_table b (table_of st dir b) (g.tables b there);
      same_nframes = unfold after in (nframes-dma k w a tab (a / page_size % 1024) st' ∙ rw g.fmap);
      kernel = unfold after in (kernel_dir-dma k w a tab (a / page_size % 1024) st' ∙ g.kernel);
      current = after_current ∙ sym here;
      entry = rw (after_table a tab g.entry) g.nonnull;
      mapped = λ v. after_mapped (g.mapped v);
      heap = unfold after in (heap-dma k w a tab (a / page_size % 1024) st' ∙ g.heap);
      grows = rw after_plp g.grows;
      little = rw after_plp g.little;
    }

  -- Mapping the page at an aligned address onto itself succeeds if its table is there or the early
  -- allocator can make one. Afterwards each address in the page translates to itself; in a directory
  -- with distinct tables each address of another page that had a table translates as before; and the
  -- page's frame is marked if it lies below the end of memory.
  pub map_dma-Mapped :
      (k w : Bool) (a : ℕ) (st : Mm L)
      → a < 2 ^ 32
      → a % page_size ≡ 0
      → (table_of st st.current_directory a ≢ 0) ⊎ CanGrow st
      → (st' : Mm L) × (map_dma new_malloc true k w st.current_directory a st ≡ ok st')
        × Mapped st.current_directory a st st'
  unfolding map_dma
  map_dma-Mapped k w a st bound aligned ready =
      let (tab, st', run, g) = get_page-Got a st.current_directory st ready in
      (
        after k w a st.current_directory tab st st' bound aligned refl g,
        rw run (unfold after in refl),
        Mapped-after k w a st.current_directory tab st st' bound aligned refl g,
      )

  -- The directory is in use.
  abbrev pub in_use : ℕ → Mm L → Mm L
  in_use dir st = record st { current_directory = dir }

  pub WellMapped-in_use : (dir d : ℕ) (st : Mm L) → WellMapped dir st → WellMapped dir (in_use d st)
  WellMapped-in_use dir d st v = record { below = v.below; distinct = v.distinct }

  Got-in_use :
      (dir a tab : ℕ) (st st' : Mm L)
      → Got dir a tab st st'
      → Got dir a tab (in_use dir st) (in_use dir st')
  Got-in_use dir a tab st st' g = record {
    entry = g.entry;
    nonnull = g.nonnull;
    fmap = g.fmap;
    kernel = g.kernel;
    current = refl;
    tables = g.tables;
    entries = g.entries;
    mapped = λ v.
        WellMapped-in_use dir dir st'
          (g.mapped (record { below = v.below; distinct = v.distinct }));
    heap = g.heap;
    grows = g.grows;
    little = g.little;
  }

  after-in_use :
      (k w : Bool) (a dir tab : ℕ) (st : Mm L)
      → alloc_dma_frame k w a (tab, a / page_size % 1024) (in_use dir st)
        ≡ in_use dir (alloc_dma_frame k w a (tab, a / page_size % 1024) st)
  unfolding alloc_dma_frame
  after-in_use k w a dir tab st = elim (Bool-cases (ltb a (u32 (st.fmap.nframes * 4 * 0x400)))) [
    | inl below ↦ rw below refl
    | inr beyond ↦ rw beyond refl
  ]

  -- Mapping a page in any directory, in use or not: what it leaves once the directory is in use.
  pub map_dma-in_use :
      (k w : Bool) (a dir : ℕ) (st : Mm L)
      → a < 2 ^ 32
      → a % page_size ≡ 0
      → (table_of st dir a ≢ 0) ⊎ CanGrow st
      → (st' : Mm L) × (map_dma new_malloc true k w dir a st ≡ ok st')
        × Mapped dir a (in_use dir st) (in_use dir st')
  unfolding map_dma
  map_dma-in_use k w a dir st bound aligned ready =
      let (tab, st1, run, g) = get_page-Got a dir st ready in
      let one : Mapped dir a (in_use dir st)
          (alloc_dma_frame k w a (tab, a / page_size % 1024) (in_use dir st1)) =
        unfold after in
        Mapped-after k w a dir tab (in_use dir st) (in_use dir st1) bound aligned refl
          (Got-in_use dir a tab st st1 g) in
      (
        alloc_dma_frame k w a (tab, a / page_size % 1024) st1,
        rw run refl,
        rw (after-in_use k w a dir tab st1) at one,
      )
