-- ===== src/Mm/Init/Cleared.antt =====
-- Which frames `init_paging` makes free.
use levos.Prelude.{ℕ, ◌+◌, ◌*◌, ◌/◌, ◌<◌, ◌≡◌, refl, arith, false, true, update}
use levos.Prelude.Bits.{bit, bit-zero}
use levos.Prelude.Outcome.{ok}
use levos.Mm.Frame.{u32, index_bit, offset_bit}
use levos.Mm.Frame.Bitmap.{used}
use levos.Mm.State.{Mm}
use levos.Mm.Page.{dir_size}
use levos.Mm.Alloc.{round_plp, kmalloc, kvmalloc}
use levos.Mm.Init.{zero_bytes, zero_dir, set_nframes, init_paging}

cleared : (n j : ℕ) (fresh : ℕ → ℕ) → j < n / 128 → zero_bytes (index_bit n) fresh j ≡ 0
unfolding zero_bytes
cleared n j fresh h = ground arith

kept : (n j : ℕ) (fresh : ℕ → ℕ) → n / 128 < j → zero_bytes (index_bit n) fresh j ≡ fresh j
unfolding zero_bytes
kept n j fresh h = ground arith

module _ {L : Type 0} (new_malloc : ℕ → Mm L → ℕ × Mm L) where
  -- The state that a first `set_nframes(n)` leaves.
  booted : ℕ → (ℕ → ℕ) → Mm L → Mm L
  booted n fresh st =
      let bitmap_end = u32 (st.plp + index_bit (n * 8)) in
      let dir = round_plp true bitmap_end in
      record st {
        plp = u32 (dir + dir_size);
        frames_at = st.plp;
        fmap = record { nframes = n; frames = zero_bytes (index_bit n) fresh };
        kernel_dir = dir;
        dirs = update st.dirs dir zero_dir;
      }

  set_nframes-booted :
      (n : ℕ) (fresh : ℕ → ℕ) (st : Mm L)
      → st.frames_at ≡ 0
      → st.heap_online ≡ false
      → set_nframes new_malloc n fresh st ≡ ok (booted n fresh st)
  unfolding set_nframes kmalloc kvmalloc round_plp booted
  set_nframes-booted n fresh st null off = rw (null, off) refl

  -- The first `init_paging`, before the heap is online, returns, but it clears a quarter of the bitmap
  -- only: the frames of the first `nframes / 128` words are free, and those behind the next word are
  -- marked by whatever the memory of the bitmap held.
  pub init_paging-clears :
      (mem : ℕ) (fresh : ℕ → ℕ) (st : Mm L)
      → st.frames_at ≡ 0
      → st.heap_online ≡ false
      → (st' : Mm L) × (init_paging new_malloc mem fresh st ≡ ok st')
        × (st'.fmap.nframes ≡ mem / 4)
        × ((f : ℕ) → f / 32 < mem / 4 / 128 → used st'.fmap f ≡ 0)
        × ((f : ℕ)
            → mem / 4 / 128 < f / 32
            → used st'.fmap f ≡ bit (fresh (index_bit f)) (offset_bit f))
  unfolding init_paging booted
  init_paging-clears mem fresh st null off = (
    booted (mem / 4) fresh st,
    set_nframes-booted (mem / 4) fresh st null off,
    refl,
    λ f h. rw (cleared (mem / 4) (index_bit f) fresh h) (bit-zero (offset_bit f)),
    λ f h. rw (kept (mem / 4) (index_bit f) fresh h),
  )
