-- ===== src/Mm/Alloc.antt =====
-- mm/alloc.c: the allocator behind `kmalloc`. Before `heap_install` it moves the pointer `plp`
-- through memory; afterwards it passes the request on to liballoc's `new_malloc`, a parameter here.
pub mod Early
use levos.Prelude.{ℕ, ◌+◌, ◌*◌, ◌/◌, Bool, true, false, not, ◌&&◌, ◌==◌, if◌then◌else◌}
use levos.Prelude.Outcome.{Outcome, ok, panic}
use levos.Mm.Frame.{page_size, u32}
use levos.Mm.State.{Mm, virtual_to_physical}

-- `plp & 0xFFFFF000`
abbrev pub page_part : ℕ → ℕ
page_part a = a / page_size * page_size

-- The rounding of an aligned request. The test looks at the page number, not at the offset.
unfoldable pub round_plp : Bool → ℕ → ℕ
round_plp a plp = if a && not (page_part plp == 0) then u32 (page_part plp + 0x1000) else plp

-- The address, and the physical one that is stored through `p`.
abbrev pub Block : Type 0
Block = ℕ × ℕ

unfoldable pub prealloc_start : {L : Type 0} → ℕ → Mm L → Mm L
prealloc_start addr st = record st { plp = addr }

unfoldable pub heap_install : {L : Type 0} → Mm L → Mm L
heap_install st = record st { heap_online = true }

module _ {L : Type 0} (new_malloc : ℕ → Mm L → ℕ × Mm L) where
  heap_block : ℕ × Mm L → Outcome (Block × Mm L)
  heap_block (addr, st) = ok ((addr, virtual_to_physical addr st), st)

  early_block : ℕ → ℕ → Mm L → Outcome (Block × Mm L)
  early_block s addr st = ok ((addr, addr), record st { plp = u32 (addr + s) })

  -- `__kmalloc`
  unfoldable pub kmalloc_with : ℕ → Bool → Mm L → Outcome (Block × Mm L)
  unfolding heap_block early_block round_plp
  kmalloc_with s a st =
      if st.heap_online
      then (if not a then heap_block (new_malloc s st) else panic)
      else early_block s (round_plp a st.plp) st

  -- `kmalloc` and `kmalloc_p`
  unfoldable pub kmalloc : ℕ → Mm L → Outcome (Block × Mm L)
  unfolding kmalloc_with
  kmalloc s st = kmalloc_with s false st

  -- `kvmalloc` and `kvmalloc_p`
  unfoldable pub kvmalloc : ℕ → Mm L → Outcome (Block × Mm L)
  unfolding kmalloc_with
  kvmalloc s st = kmalloc_with s true st
