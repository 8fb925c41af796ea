-- ===== src/Mm/Init.antt =====
-- `set_nframes` of mm/frame.c and `init_paging` of mm/page.c: the bitmap is set up at boot.
pub mod Cleared
use levos.Prelude.{ℕ, ◌+◌, ◌-◌, ◌*◌, ◌/◌, ◌%◌, ◌^◌, not, ◌==◌, leb, ltb, if◌then◌else◌, update}
use levos.Prelude.Outcome.{Outcome, ok, panic, ◌>>=◌}
use levos.Mm.Frame.{FrameMap, index_bit}
use levos.Mm.State.{PageDir, Mm}
use levos.Mm.Alloc.{Block, kmalloc, kvmalloc}
use levos.Mm.Page.{dir_size}

-- `memset(p, 0, n)` seen through the little-endian words from `p` on.
pub zero_bytes : ℕ → (ℕ → ℕ) → ℕ → ℕ
zero_bytes n words j =
    if leb (4 * (j + 1)) n
    then 0
    else if ltb (4 * j) n
    then words j - words j % 2 ^ (8 * (n - 4 * j))
    else words j

abbrev pub zero_dir : PageDir
zero_dir = record { phy_tables = λ _. 0; tables = λ _. 0; phy_addr = 0 }

module _ {L : Type 0} (new_malloc : ℕ → Mm L → ℕ × Mm L) where
  -- The block of the bitmap is cleared; `fresh` is what its words held.
  clear_bitmap : ℕ → (ℕ → ℕ) → Block × Mm L → Outcome (Mm L)
  clear_bitmap n fresh ((addr, phys), st) = ok (record st {
    frames_at = addr;
    fmap = record { nframes = n; frames = zero_bytes (index_bit n) fresh };
  })

  enter_kernel_dir : Block × Mm L → Outcome (Mm L)
  enter_kernel_dir ((dir, phys), st) =
      ok (record st { kernel_dir = dir; dirs = update st.dirs dir zero_dir })

  unfoldable pub set_nframes : ℕ → (ℕ → ℕ) → Mm L → Outcome (Mm L)
  unfolding clear_bitmap enter_kernel_dir zero_bytes
  set_nframes n fresh st =
      let st' = record st { fmap = record st.fmap { nframes = n } } in
      if not (st.frames_at == 0)
      then panic
      else kmalloc new_malloc (index_bit (n * 8)) st' >>= clear_bitmap n fresh >>= λ st''.
          kvmalloc new_malloc dir_size st'' >>= enter_kernel_dir

  -- `init_paging`, with the memory in KiB.
  unfoldable pub init_paging : ℕ → (ℕ → ℕ) → Mm L → Outcome (Mm L)
  unfolding set_nframes
  init_paging mem fresh st = set_nframes (mem / 4) fresh st
