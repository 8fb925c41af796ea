-- ===== src/Tests/OnMm.antt =====
-- mm/ at concrete inputs: a machine of 32 frames, the first two of which are taken.
use levos.Prelude.{
  ℕ, zero, suc, update, ◌+◌, ◌*◌, ◌/◌, ◌<◌, ◌≡◌, ◌≢◌, ◌⊎◌, refl, arith, List, [], ◌∷◌, true, false,
  ◌==◌, ◌&&◌, leb, ltb, if◌then◌else◌, inr,
}
use levos.Prelude.Outcome.{ok}
use levos.Mm.Frame.{
  FrameMap, test_frame, page_size, no_frame, set_frame, first_frame, first_n_frames,
}
use levos.Mm.Frame.Bitmap.{used, IsBitmap}
use levos.Mm.Frame.Runs.{FreeRun, first_n_frames-FirstRun}
use levos.Mm.State.{zero_page, PageDir, Mm}
use levos.Mm.Alloc.{kmalloc, prealloc_start, heap_install}
use levos.Mm.Alloc.Early.{serve, Placed, early_allocs}
use levos.Mm.Page.{
  alloc_frame, free_frame, read_page, map_dma, mm_alloc_pages, mark_region, mem_total,
  copy_page_dir,
}
use levos.Mm.Page.Frames.{Granted, HasFree, alloc_frame-Granted}
use levos.Mm.Page.Release.{free_frame-alloc_frame}
use levos.Mm.Page.Map.{Mapped, in_use, map_dma-Mapped}
use levos.Mm.Page.Translate.{WellMapped}
use levos.Mm.Fini.{map_range}
use levos.Mm.Fini.Identity.{Ranged, map_range-Ranged}
use levos.Mm.Page.Runs.{mm_alloc_pages-takes}

abbrev two_taken : FrameMap
two_taken = record { nframes = 32; frames = λ _. 3 }

abbrev one_taken : FrameMap
one_taken = record { nframes = 1; frames = λ _. 0xffff_ffff }

abbrev pub heap : ℕ → Mm ℕ → ℕ × Mm ℕ
heap size st = (0x20_0000, st)

abbrev one_table : PageDir
one_table = record {
  phy_tables = λ t. if t == 0 then 0x9007 else 0;
  tables = λ t. if t == 0 then 0x9000 else 0;
  phy_addr = 0x8000;
}

abbrev with_map : FrameMap → Mm ℕ
with_map m = record {
  plp = 0x10_0000;
  heap_online = false;
  fmap = m;
  frames_at = 0;
  pages = λ _ _. zero_page;
  dirs = λ _. one_table;
  kernel_dir = 0x8000;
  current_directory = 0x8000;
  lib = 0;
}

abbrev pub machine : Mm ℕ
machine = with_map two_taken

frame_two : used two_taken 2 ≡ 0
frame_two = refl

two_taken-HasFree : HasFree two_taken
two_taken-HasFree = (2, omega arith, omega arith, refl)

two_taken-IsBitmap : IsBitmap two_taken
two_taken-IsBitmap i = omega arith

first_n_frames-FirstRun_example :
    ((first_n_frames 4 two_taken < 32)
      × FreeRun two_taken 4 (first_n_frames 4 two_taken)
      × ((g : ℕ) → g < first_n_frames 4 two_taken → ¬ FreeRun two_taken 4 g))
    ⊎ ((first_n_frames 4 two_taken ≡ no_frame) × ((g : ℕ) → g < 32 → ¬ FreeRun two_taken 4 g))
first_n_frames-FirstRun_example = first_n_frames-FirstRun two_taken 4 (omega arith)

first_n_frames-two : first_n_frames 4 two_taken ≡ 2
unfolding first_n_frames test_frame
first_n_frames-two = refl

first_frame-two : first_frame two_taken ≡ ok 2
unfolding first_frame
first_frame-two = refl

early_allocs_example :
    (blocks : List (ℕ × ℕ)) × (end : Mm ℕ) × (serve heap ((12, false) ∷ (4096, true) ∷ []) machine
      ≡ ok (blocks, end))
    × Placed 0x10_0000 ((12, false) ∷ (4096, true) ∷ []) blocks end.plp
early_allocs_example =
    early_allocs heap ((12, false) ∷ (4096, true) ∷ []) machine refl (omega arith) (omega arith)

alloc_frame-Granted_example :
    (f : ℕ) × (st' : Mm ℕ) × (alloc_frame 3 true true (0x9000, 5) machine ≡ ok st')
    × Granted true true 0x9000 5 f machine st'
alloc_frame-Granted_example =
    alloc_frame-Granted true true 0x9000 5 machine refl (omega arith) two_taken-HasFree

free_frame-alloc_frame_example :
    (st' end : Mm ℕ) × (alloc_frame 3 true true (0x9000, 5) machine ≡ ok st')
    × (free_frame (0x9000, 5) st' ≡ ok end)
    × ((read_page (0x9000, 5) end).frame ≡ 0)
    × ((h : ℕ) → h ≢ 0 → used end.fmap h ≡ used two_taken h)
free_frame-alloc_frame_example =
    free_frame-alloc_frame true true 0x9000 5 machine refl (omega arith) two_taken-HasFree
      two_taken-IsBitmap

map_dma-Mapped_example :
    (st' : Mm ℕ) × (map_dma heap true true false 0x8000 0x40_0000 machine ≡ ok st')
    × Mapped heap 0x8000 0x40_0000 machine st'
map_dma-Mapped_example =
    map_dma-Mapped heap true false 0x40_0000 machine (omega arith) (omega arith)
      (inr (refl, omega arith, omega arith))

-- Before the first switch no directory is in use.
abbrev not_switched : Mm ℕ
not_switched = record machine { current_directory = 0 }

-- The one table of the directory, where the others are null.
one_table-WellMapped : WellMapped 0x8000 not_switched
one_table-WellMapped = record { below = λ t ne. ground arith; distinct = λ t u ne e. ground arith }

map_range-Ranged_example :
    (st' : Mm ℕ) × (map_range heap true true false 0x8000 127 (1 * page_size) not_switched ≡ ok st')
    × Ranged heap 0x8000 1 127 (in_use heap 0x8000 not_switched) (in_use heap 0x8000 st')
map_range-Ranged_example =
    map_range-Ranged heap 127 1 true false 0x8000 not_switched (omega arith)
      (refl, omega arith, omega arith) one_table-WellMapped

run_free : (k : ℕ) → k < 4 → used two_taken (2 + k) ≡ 0
run_free zero h = refl
run_free (suc zero) h = refl
run_free (suc (suc zero)) h = refl
run_free (suc (suc (suc zero))) h = refl
run_free (suc (suc (suc (suc k)))) h = absurd (omega arith)

mm_alloc_pages-takes_example :
    (f : ℕ) × FreeRun two_taken 4 f
    × ((h : ℕ) → h < f → ¬ FreeRun two_taken 4 h)
    × (st' : Mm ℕ) × (mm_alloc_pages heap 4 machine ≡ ok (f * page_size, st'))
    × ((h : ℕ) → used st'.fmap h ≡ (if leb f h && ltb h (f + 4) then 1 else used two_taken h))
mm_alloc_pages-takes_example =
    mm_alloc_pages-takes heap 4 2 machine (omega arith) (omega arith) (omega arith) run_free
      (λ k hk.
        let z : (0 + k) * page_size / page_size / 1024 ≡ 0 = omega arith in rw z (omega arith))

one_taken-full : (g : ℕ) → g < 1 → ¬ FreeRun one_taken 1 g
one_taken-full zero h free = let e = free 0 (omega arith) in omega (arith, e)
one_taken-full (suc g) h free = omega arith

prealloc-then_online : (heap_install (prealloc_start 0x30_0000 machine)).plp ≡ 0x30_0000
unfolding heap_install prealloc_start
prealloc-then_online = refl

mark_region-five : used (mark_region 0x5000 machine).fmap 5 ≡ 1
unfolding mark_region set_frame
mark_region-five = refl

mem_total-machine : mem_total two_taken ≡ 128
unfolding mem_total
mem_total-machine = refl

-- The copy of a directory shares its page tables.
copy_page_dir-shares :
    copy_page_dir heap 0x8000 machine
    ≡ ok (
      0x10_0000,
      record machine { plp = 0x10_2004; dirs = update machine.dirs 0x10_0000 one_table },
    )
unfolding copy_page_dir kmalloc
copy_page_dir-shares = refl
