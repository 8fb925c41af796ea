-- ===== src/Mm/Fini.antt =====
-- `paging_fini` of mm/page.c: the kernel's directory is filled at boot, and switched to.
pub mod Identity
use levos.Prelude.{
  ℕ, zero, suc, ◌+◌, ◌-◌, ◌*◌, ◌/◌, Bool, true, false, Option, none, some, ltb, if◌then◌else◌,
  update,
}
use levos.Prelude.Outcome.{Outcome, ok, fault, hang, ◌>>=◌}
use levos.Mm.Frame.{page_size, set_frame, u32}
use levos.Mm.State.{PageDir, Mm, PagePtr}
use levos.Mm.Page.{read_page, write_page, alloc_frame, get_page, map_dma}

abbrev pub kheap_start : ℕ
kheap_start = 0x800000

abbrev pub kheap_end : ℕ
kheap_end = 0x20000000

module _ {L : Type 0} (new_malloc : ℕ → Mm L → ℕ × Mm L) where
  -- A loop over pages from `i` on, with `rounds` left, that maps each onto itself.
  unfoldable pub map_range : Bool → Bool → Bool → ℕ → ℕ → ℕ → Mm L → Outcome (Mm L)
  map_range make k w dir zero i st = ok st
  map_range make k w dir (suc rounds) i st =
      map_dma new_malloc make k w dir i st >>= map_range make k w dir rounds (i + 0x1000)

  -- The loop up to `plp + 0x3000`, which moves up when a page table is made; `fuel` bounds it.
  unfoldable pub map_early : ℕ → ℕ → ℕ → Mm L → Outcome (Mm L)
  map_early zero dir i st = hang
  map_early (suc fuel) dir i st =
      let rest = map_dma new_malloc true true false dir i st >>= map_early fuel dir (i + 0x1000) in
      if ltb i (u32 (st.plp + 0x3000)) then rest else ok st

  -- The page at address 0 is taken away, and its frame marked.
  unfoldable pub guard_null : Option PagePtr × Mm L → Outcome (Mm L)
  guard_null (none, st) = fault
  guard_null (some ptr, st) =
      let st' = write_page ptr (record (read_page ptr st) { present = 0 }) st in
      ok (record st' { fmap = set_frame 0 st'.fmap })

  unfoldable pub back_page : Option PagePtr × Mm L → Outcome (Mm L)
  back_page (none, st) = fault
  back_page (some ptr, st) = alloc_frame 2 true false ptr st

  -- `alloc_frame(get_page(i, 1, kernel_dir), 1, 0)` for each page; `alloc_frame` calls itself once.
  unfoldable pub back_range : ℕ → ℕ → ℕ → Mm L → Outcome (Mm L)
  back_range dir zero i st = ok st
  back_range dir (suc rounds) i st =
      get_page new_malloc i true dir st >>= back_page >>= back_range dir rounds (i + 0x1000)

  -- The page tables of the heap.
  unfoldable pub table_range : ℕ → ℕ → ℕ → Mm L → Outcome (Mm L)
  table_range dir zero i st = ok st
  table_range dir (suc rounds) i st =
      get_page new_malloc i true dir st >>= λ (ptr, st'). table_range dir rounds (i + 0x1000) st'

  -- How often a loop by pages from `i` on runs while it is below `end`.
  abbrev pub pages_to : ℕ → ℕ → ℕ
  pages_to i end = (end - i + 0x1000 - 1) / 0x1000

  -- The heap is mapped, and the directory, whose first field is `phy_tables`, switched to.
  unfoldable pub map_heap : ℕ → Mm L → Outcome (Mm L)
  map_heap dir st =
      let d = st.dirs dir in
      let st' = record st { dirs = update st.dirs dir (record d { phy_addr = dir }) } in
      let start = u32 (st'.plp + 0x3000) in
      let hs = if ltb kheap_start start then u32 (st'.plp + 0x100000) else kheap_start in
      back_range dir (pages_to start hs) start st'
      >>= table_range dir (pages_to hs kheap_end) hs
      >>= λ end. ok (record end { current_directory = dir })

  unfoldable pub paging_fini : ℕ → Mm L → Outcome (Mm L)
  paging_fini fuel st =
      let dir = st.kernel_dir in
      get_page new_malloc 0 true dir st
      >>= guard_null
      >>= map_range true true false dir 127 0x1000
      >>= map_range true true false dir 128 0x80000
      >>= map_early fuel dir 0x100000
      >>= map_range false false true dir 8 0xB8000
      >>= map_heap dir
