-- ===== src/Mm/State.antt =====
-- The state of mm/: the early allocator, the frame bitmap, and the page directories and page tables
-- of include/levos/page.h as they lie in memory, by address. A pointer is an address, and 0 is null.
use levos.Prelude.{ℕ, ◌+◌, ◌*◌, ◌/◌, ◌%◌, Bool, ◌==◌, if◌then◌else◌}
use levos.Mm.Frame.{FrameMap, page_size, u32}

pub record Page : Type 0 where
  pub present : ℕ
  pub rw_flag : ℕ
  pub user : ℕ
  pub accessed : ℕ
  pub dirty : ℕ
  pub unused : ℕ
  pub frame : ℕ

abbrev pub zero_page : Page
zero_page = record {
  present = 0;
  rw_flag = 0;
  user = 0;
  accessed = 0;
  dirty = 0;
  unused = 0;
  frame = 0;
}

pub record PageDir : Type 0 where
  pub phy_tables : ℕ → ℕ
  pub tables : ℕ → ℕ
  pub phy_addr : ℕ

-- `L` is what liballoc keeps in its own memory.
pub record Mm (L : Type 0) : Type 0 where
  pub plp : ℕ
  pub heap_online : Bool
  pub fmap : FrameMap
  pub frames_at : ℕ  -- the pointer `frames`
  pub pages : ℕ → ℕ → Page  -- the page table at an address
  pub dirs : ℕ → PageDir  -- the page directory at an address
  pub kernel_dir : ℕ
  pub current_directory : ℕ
  pub lib : L

-- `struct page *`: the table that the page stands in, and its index there.
abbrev pub PagePtr : Type 0
PagePtr = ℕ × ℕ

unfoldable pub virtual_to_physical : {L : Type 0} → ℕ → Mm L → ℕ
virtual_to_physical a st =
    let f = a / page_size in
    let table = (st.dirs st.current_directory).tables (f / 1024) in
    if table == 0 then 0 else u32 ((st.pages table (f % 1024)).frame * page_size + a % page_size)
