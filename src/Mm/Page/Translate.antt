-- ===== src/Mm/Page/Translate.antt =====
-- `get_page`, `alloc_dma_frame` and `virtual_to_physical` of mm/page.c: a mapped address translates to
-- itself, and mapping one page leaves the others alone.
use levos.Prelude.{
  ℕ, ◌+◌, ◌*◌, ◌/◌, ◌%◌, ◌^◌, ◌≤◌, ◌<◌, ◌≡◌, ◌≢◌, inl, inr, refl, arith, Bool, true, false, some,
  ◌==◌, ltb, if◌then◌else◌, update, Bool-cases,
}
use levos.Prelude.Outcome.{ok}
use levos.Mm.Frame.{page_size, u32, set_frame}
use levos.Mm.Frame.Bitmap.{used, used-set_frame}
use levos.Mm.State.{Mm, virtual_to_physical}
use levos.Mm.Alloc.{kvmalloc, round_plp}
use levos.Mm.Page.{u20, allow, alloc_dma_frame, add_table, get_page, table_size}

-- The table that a directory has for an address, 0 if none.
abbrev pub table_of : {L : Type 0} → Mm L → ℕ → ℕ → ℕ
table_of st dir a = (st.dirs dir).tables (a / page_size / 1024)

-- The page tables of a directory are distinct and lie below `plp`.
pub record WellMapped {L : Type 0} (dir : ℕ) (st : Mm L) : Type 0 where
  pub below : (t : ℕ) → (st.dirs dir).tables t ≢ 0 → (st.dirs dir).tables t < st.plp
  pub distinct :
      (t u : ℕ)
      → (st.dirs dir).tables t ≢ 0
      → (st.dirs dir).tables t ≡ (st.dirs dir).tables u
      → t ≡ u

-- The early allocator can give out a page table.
abbrev pub CanGrow : {L : Type 0} → Mm L → Type 0
CanGrow st = (st.heap_online ≡ false) × (page_size ≤ st.plp) × (st.plp + 0x3000 < 2 ^ 32)

module _ {L : Type 0} where
  -- `alloc_dma_frame`, field by field.
  pub pages-dma :
      (k w : Bool) (a t i : ℕ) (st : Mm L)
      → (alloc_dma_frame k w a (t, i) st).pages
        ≡ update st.pages t (
            update
              (st.pages t)
              i
              (record (allow k w (st.pages t i)) { frame = u20 (a / page_size) }))
  unfolding alloc_dma_frame
  pages-dma k w a t i st = elim (Bool-cases (ltb a (u32 (st.fmap.nframes * 4 * 0x400)))) [
    | inl e ↦ rw e
    | inr e ↦ rw e
  ]

  pub dirs-dma :
      (k w : Bool) (a t i : ℕ) (st : Mm L) → (alloc_dma_frame k w a (t, i) st).dirs ≡ st.dirs
  unfolding alloc_dma_frame
  dirs-dma k w a t i st = elim (Bool-cases (ltb a (u32 (st.fmap.nframes * 4 * 0x400)))) [
    | inl e ↦ rw e
    | inr e ↦ rw e
  ]

  pub directory-dma :
      (k w : Bool) (a t i : ℕ) (st : Mm L)
      → (alloc_dma_frame k w a (t, i) st).current_directory ≡ st.current_directory
  unfolding alloc_dma_frame
  directory-dma k w a t i st = ground arith

  pub plp-dma :
      (k w : Bool) (a t i : ℕ) (st : Mm L) → (alloc_dma_frame k w a (t, i) st).plp ≡ st.plp
  unfolding alloc_dma_frame
  plp-dma k w a t i st = ground arith

  pub heap-dma :
      (k w : Bool) (a t i : ℕ) (st : Mm L)
      → (alloc_dma_frame k w a (t, i) st).heap_online ≡ st.heap_online
  unfolding alloc_dma_frame
  heap-dma k w a t i st = elim (Bool-cases (ltb a (u32 (st.fmap.nframes * 4 * 0x400)))) [
    | inl e ↦ rw e
    | inr e ↦ rw e
  ]

  pub kernel_dir-dma :
      (k w : Bool) (a t i : ℕ) (st : Mm L)
      → (alloc_dma_frame k w a (t, i) st).kernel_dir ≡ st.kernel_dir
  unfolding alloc_dma_frame
  kernel_dir-dma k w a t i st = ground arith

  pub nframes-dma :
      (k w : Bool) (a t i : ℕ) (st : Mm L)
      → (alloc_dma_frame k w a (t, i) st).fmap.nframes ≡ st.fmap.nframes
  unfolding alloc_dma_frame set_frame
  nframes-dma k w a t i st = ground arith

  pub used-dma :
      (k w : Bool) (a t i h : ℕ) (st : Mm L)
      → used (alloc_dma_frame k w a (t, i) st).fmap h ≡ (
          if ltb a (u32 (st.fmap.nframes * 4 * 0x400))
          then (if a / page_size == h then 1 else used st.fmap h)
          else used st.fmap h)
  unfolding alloc_dma_frame
  used-dma k w a t i h st = elim (Bool-cases (ltb a (u32 (st.fmap.nframes * 4 * 0x400)))) [
    | inl e ↦ rw e (used-set_frame st.fmap a h)
    | inr e ↦ rw e
  ]

  -- Translation, with the directory and the table of the address known.
  pub translates :
      (b p d t : ℕ) (st : Mm L)
      → st.current_directory ≡ d
      → table_of st d b ≡ t
      → t ≢ 0
      → (st.pages t (b / page_size % 1024)).frame ≡ p
      → virtual_to_physical b st ≡ u32 (p * page_size + b % page_size)
  unfolding virtual_to_physical
  translates b p d t st ed et ne ep = rw (ed, et, ep) (ground arith)

-- The page table for `a` stands at `tab` in the directory of `st'`, and those of `st` are left alone.
pub record Got {L : Type 0} (dir a tab : ℕ) (st st' : Mm L) : Type 0 where
  pub entry : table_of st' dir a ≡ tab
  pub nonnull : tab ≢ 0
  pub fmap : st'.fmap ≡ st.fmap
  pub kernel : st'.kernel_dir ≡ st.kernel_dir
  pub current : st'.current_directory ≡ st.current_directory
  pub tables : (b : ℕ) → table_of st dir b ≢ 0 → table_of st' dir b ≡ table_of st dir b
  pub entries : (t i : ℕ) → t < st.plp → st'.pages t i ≡ st.pages t i
  pub mapped : WellMapped dir st → WellMapped dir st'
  pub heap : st'.heap_online ≡ st.heap_online
  pub grows : st.plp ≤ st'.plp
  pub little : st'.plp ≤ st.plp + 0x2000

module _ {L : Type 0} (new_malloc : ℕ → Mm L → ℕ × Mm L) where
  -- The table that `get_page` uses: the one there, or one from the early allocator.
  abbrev pub table_for : ℕ → ℕ → Mm L → ℕ
  table_for dir a st = if table_of st dir a == 0 then round_plp true st.plp else table_of st dir a

  pub get_page_there :
      (a dir : ℕ) (st : Mm L)
      → table_of st dir a ≢ 0
      → get_page new_malloc a true dir st ≡ ok (some (table_of st dir a, a / page_size % 1024), st)
  unfolding get_page
  get_page_there a dir st ne = elim (Bool-cases (table_of st dir a == 0)) [
    | inl e ↦ absurd (ne (ground arith))
    | inr e ↦ rw e
  ]

  pub grown : ℕ → ℕ → Mm L → Mm L
  grown dir a st =
      let virt = round_plp true st.plp in
      add_table new_malloc dir (a / page_size / 1024) (virt, virt)
        (record st { plp = u32 (virt + table_size) })

  pub get_page_grow :
      (a dir : ℕ) (st : Mm L)
      → table_of st dir a ≡ 0
      → st.heap_online ≡ false
      → get_page new_malloc a true dir st
        ≡ ok (some (round_plp true st.plp, a / page_size % 1024), grown dir a st)
  unfolding get_page grown kvmalloc
  get_page_grow a dir st z off = rw (z, off)

  round_up :
      (plp : ℕ)
      → page_size ≤ plp
      → plp + 0x3000 < 2 ^ 32
      → (plp < round_plp true plp) × (round_plp true plp ≤ plp + page_size)
  unfolding round_plp
  round_up plp lo hi = ground arith

  pub Got-grown :
      (a dir : ℕ) (st : Mm L)
      → table_of st dir a ≡ 0
      → CanGrow st
      → Got dir a (round_plp true st.plp) st (grown dir a st)
  unfolding grown add_table
  Got-grown a dir st z (off, lo, hi) =
      let (up, near) = round_up st.plp lo hi in
      let ta = a / page_size / 1024 in
      let virt = round_plp true st.plp in
      record {
        entry = ground arith;
        nonnull = omega arith;
        fmap = refl;
        kernel = refl;
        current = refl;
        tables = λ b ne. ground arith;
        entries = λ t i h. ground arith;
        mapped = λ v. record {
          below = λ t ne. ground (arith, v.below t);
          distinct = λ t u ne e. ground (arith, v.below t, v.below u, v.distinct t u);
        };
        heap = refl;
        grows = omega arith;
        little = omega arith;
      }

  pub Got-there :
      (a dir : ℕ) (st : Mm L) → table_of st dir a ≢ 0 → Got dir a (table_of st dir a) st st
  Got-there a dir st ne = record {
    entry = refl;
    nonnull = ne;
    fmap = refl;
    kernel = refl;
    current = refl;
    tables = λ b _. refl;
    entries = λ t i h. refl;
    mapped = λ v. v;
    heap = refl;
    grows = omega arith;
    little = omega arith;
  }
