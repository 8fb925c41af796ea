-- ===== src/Mm/Page.antt =====
-- mm/page.c: page tables, the frames behind their pages, and address translation.
pub mod Frames
pub mod Release
pub mod Translate
pub mod Map
pub mod Runs
use levos.Prelude.{
  ℕ, zero, suc, ◌+◌, ◌-◌, ◌*◌, ◌/◌, ◌%◌, ◌^◌, Bool, true, false, Option, none, some, not, ◌==◌, ltb,
  if◌then◌else◌, update, bit_or,
}
use levos.Prelude.Outcome.{Outcome, ok, panic, fault, hang, ◌>>=◌}
use levos.Mm.Frame.{
  FrameMap, page_size, u32, no_frame, set_frame, clear_frame, test_frame, first_frame,
  first_n_frames,
}
use levos.Mm.State.{Page, zero_page, PageDir, Mm, PagePtr}
use levos.Mm.Alloc.{Block, kmalloc, kvmalloc}

abbrev pub flag : Bool → ℕ
flag true = 1
flag false = 0

-- a store to the 20-bit field `frame`
abbrev pub u20 : ℕ → ℕ
u20 n = n % 2 ^ 20

abbrev pub table_size : ℕ
table_size = 4096

abbrev pub dir_size : ℕ
dir_size = 8196

abbrev pub read_page : {L : Type 0} → PagePtr → Mm L → Page
read_page (t, i) st = st.pages t i

abbrev pub write_page : {L : Type 0} → PagePtr → Page → Mm L → Mm L
write_page (t, i) p st = record st { pages = update st.pages t (update (st.pages t) i p) }

-- `p->present = 1` and the two flags: `k` makes a kernel page, `w` a writable one.
abbrev pub allow : Bool → Bool → Page → Page
allow k w p = record p { present = 1; rw_flag = flag w; user = flag (not k) }

unfoldable pub mark_region : {L : Type 0} → ℕ → Mm L → Mm L
mark_region addr st = record st { fmap = set_frame addr st.fmap }

unfoldable pub mem_total : FrameMap → ℕ
mem_total s = u32 (s.nframes * 4)

-- The branch of `alloc_frame` that takes a frame, up to the recursive call.
take_frame : {L : Type 0} → PagePtr → ℕ → Mm L → Mm L
take_frame ptr index st =
    let st' = record st { fmap = set_frame (index * page_size) st.fmap } in
    write_page ptr (record (read_page ptr st') { frame = u20 index }) st'

-- `alloc_frame` calls itself once the page has its frame; `fuel` bounds the calls.
unfoldable pub alloc_frame : {L : Type 0} → ℕ → Bool → Bool → PagePtr → Mm L → Outcome (Mm L)
unfolding take_frame
alloc_frame zero k w ptr st = hang
alloc_frame (suc fuel) k w ptr st =
    let again = (do
      index ← first_frame st.fmap
      alloc_frame fuel k w ptr (take_frame ptr index st)) in
    if not ((read_page ptr st).frame == 0)
    then ok (write_page ptr (allow k w (read_page ptr st)) st)
    else again

unfoldable pub alloc_dma_frame : {L : Type 0} → Bool → Bool → ℕ → PagePtr → Mm L → Mm L
alloc_dma_frame k w a ptr st =
    let st' =
      write_page ptr (record (allow k w (read_page ptr st)) { frame = u20 (a / page_size) }) st in
    if ltb a (u32 (st'.fmap.nframes * 4 * 0x400))
    then record st' { fmap = set_frame a st'.fmap }
    else st'

unfoldable pub free_frame : {L : Type 0} → PagePtr → Mm L → Outcome (Mm L)
free_frame ptr st =
    let p = read_page ptr st in
    if p.frame == 0
    then panic
    else ok (
        write_page ptr (record p { frame = 0 })
          (record st { fmap = clear_frame (p.frame * page_size) st.fmap }))

-- `mm_free_pages` of mm/frame.c hands each address, a page further down, to `free_frame` as a pointer to a
-- page table entry: what is freed is the frame of the entry that the memory there happens to hold.
unfoldable pub mm_free_pages : {L : Type 0} → ℕ → ℕ → Mm L → Outcome (ℕ × Mm L)
mm_free_pages p zero st = ok (0, st)
mm_free_pages p (suc n) st =
    let entry = u32 (p + 2 ^ 32 - 0x1000) in free_frame (entry, 0) st >>= mm_free_pages entry n

module _ {L : Type 0} (new_malloc : ℕ → Mm L → ℕ × Mm L) where
  -- A new page table at `virt`, entered in the directory at `dir`.
  add_table : ℕ → ℕ → Block → Mm L → Mm L
  add_table dir tindex (virt, phys) st =
      let d = st.dirs dir in
      record st {
        pages = update st.pages virt (λ _. zero_page);
        dirs = update st.dirs dir (record d {
          tables = update d.tables tindex virt;
          phy_tables = update d.phy_tables tindex (bit_or phys 7);
        });
      }

  -- The new table is read back through the directory, as in the source.
  new_page : ℕ → ℕ → ℕ → Block × Mm L → Outcome (Option PagePtr × Mm L)
  new_page dir tindex i (block, st) = ok (some (block.0, i), add_table dir tindex block st)

  unfoldable pub get_page : ℕ → Bool → ℕ → Mm L → Outcome (Option PagePtr × Mm L)
  unfolding new_page add_table
  get_page addr make dir st =
      let f = addr / page_size in
      let table = (st.dirs dir).tables (f / 1024) in
      if not (table == 0)
      then ok (some (table, f % 1024), st)
      else if make
      then kvmalloc new_malloc table_size st >>= new_page dir (f / 1024) (f % 1024)
      else ok (none, st)

  -- `alloc_dma_frame(get_page(i, make, dir), k, w, i)`: a null page is written through.
  map_page : Bool → Bool → ℕ → Option PagePtr × Mm L → Outcome (Mm L)
  map_page k w a (none, st) = fault
  map_page k w a (some ptr, st) = ok (alloc_dma_frame k w a ptr st)

  unfoldable pub map_dma : Bool → Bool → Bool → ℕ → ℕ → Mm L → Outcome (Mm L)
  unfolding map_page
  map_dma make k w dir a st = get_page a make dir st >>= map_page k w a

  -- The loop of `mm_alloc_pages`, with `rounds` left.
  alloc_pages_from : ℕ → ℕ → Mm L → Outcome (Mm L)
  alloc_pages_from zero i st = ok st
  alloc_pages_from (suc rounds) i st =
      let rest = (do
        st' ← map_dma true true false st.kernel_dir i st
        alloc_pages_from rounds (i + page_size) st') in
      if not (test_frame i st.fmap == 0) then panic else rest

  -- The loop runs while `i < addr + n * 0x1000`, where the sum wraps in 32 bits.
  pages_between : ℕ → ℕ → ℕ
  pages_between addr n = (u32 (addr + n * page_size) - addr) / page_size

  unfoldable pub mm_alloc_pages : ℕ → Mm L → Outcome (ℕ × Mm L)
  unfolding alloc_pages_from pages_between
  mm_alloc_pages n st =
      let addr = u32 (first_n_frames n st.fmap * page_size) in
      alloc_pages_from (pages_between addr n) addr st >>= λ st'. ok (addr, st')

  copy_dir : ℕ → Block × Mm L → Outcome (ℕ × Mm L)
  copy_dir src ((dst, phys), st) =
      if dst == 0
      then ok (0, st)
      else ok (dst, record st { dirs = update st.dirs dst (st.dirs src) })

  unfoldable pub copy_page_dir : ℕ → Mm L → Outcome (ℕ × Mm L)
  unfolding copy_dir
  copy_page_dir src st = kmalloc new_malloc dir_size st >>= copy_dir src
