-- ===== src/Arch/Multiboot.antt =====
-- arch/x86/multiboot.c: the memory map of the boot loader. `entry_at` is what memory holds at the address
-- of an entry.
pub mod Reserve
pub mod Walk
use levos.Prelude.{ℕ, zero, suc, ◌+◌, ◌-◌, ◌*◌, ◌/◌, ◌%◌, ◌^◌, ◌==◌, leb, ltb, if◌then◌else◌}
use levos.Prelude.Outcome.{Outcome, ok, hang, ◌>>=◌}
use levos.Mm.Frame.{FrameMap, page_size, u32}
use levos.Mm.State.{Mm}
use levos.Mm.Page.{mark_region}
use levos.Mm.Init.{init_paging}

-- `mboot_memmap_t`
pub record Entry : Type 0 where
  pub size : ℕ
  pub base_addr : ℕ
  pub length : ℕ
  pub type : ℕ

-- The fields of `struct multiboot` that are read.
pub record Multiboot : Type 0 where
  pub flags : ℕ
  pub mem_lower : ℕ
  pub mem_upper : ℕ
  pub mmap_length : ℕ
  pub mmap_addr : ℕ

-- `n & 0xFFFFF000` in 32 bits
abbrev pub page_of : ℕ → ℕ
page_of n = n % 2 ^ 32 / page_size * page_size

-- The test for an address above 32 bits ends in a semicolon and does nothing.
unfoldable pub mark_pages : {L : Type 0} → ℕ → ℕ → ℕ → Mm L → Mm L
mark_pages zero i base st = st
mark_pages (suc rounds) i base st =
    mark_pages rounds (i + 0x1000) base (mark_region (page_of (base + i)) st)

-- The loop over `i`, which goes by 0x1000 while it is below the length.
unfoldable pub mark_entry : {L : Type 0} → Entry → Mm L → Mm L
mark_entry e st =
    if e.type == 2 then mark_pages ((e.length + 0x1000 - 1) / 0x1000) 0 e.base_addr st else st

module _ {L : Type 0} (entry_at : ℕ → Entry) where
  -- The loop over the map; `fuel` bounds the number of entries.
  unfoldable pub walk_map : ℕ → ℕ → ℕ → Mm L → Outcome (Mm L)
  walk_map zero at end st = hang
  walk_map (suc fuel) at end st =
      let e = entry_at at in
      let rest = walk_map fuel (u32 (at + e.size + 4)) end (mark_entry e st) in
      if ltb at end then rest else ok st

  -- The bitmap is set up first; `fresh` is what its memory held.
  unfoldable pub arch_do_mboot :
      (ℕ → Mm L → ℕ × Mm L) → (ℕ → ℕ) → ℕ → Multiboot → Mm L → Outcome (Mm L)
  arch_do_mboot new_malloc fresh fuel m st =
      init_paging new_malloc (u32 (m.mem_upper + m.mem_lower)) fresh st >>= λ st'.
      if m.flags / 2 ^ 6 % 2 == 0
      then ok st'
      else walk_map fuel m.mmap_addr (u32 (m.mmap_addr + m.mmap_length)) st'
