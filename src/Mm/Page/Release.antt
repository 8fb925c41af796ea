-- ===== src/Mm/Page/Release.antt =====
-- `free_frame` of mm/page.c gives back what `alloc_frame` gave.
use levos.Prelude.{ℕ, ◌*◌, ◌/◌, ◌^◌, ◌≤◌, ◌≡◌, ◌≢◌, ap, arith, Bool}
use levos.Prelude.Outcome.{ok}
use levos.Mm.Frame.{page_size, clear_frame}
use levos.Mm.Frame.Bitmap.{used, IsBitmap, used-clear_frame}
use levos.Mm.State.{Page, Mm}
use levos.Mm.Page.{read_page, write_page, alloc_frame, free_frame}
use levos.Mm.Page.Frames.{HasFree, Granted, alloc_frame-Granted}

module _ {L : Type 0} where
  free_frame-Granted :
      (k w : Bool) (t i f : ℕ) (st st' : Mm L)
      → Granted k w t i f st st'
      → IsBitmap st'.fmap
      → (end : Mm L) × (free_frame (t, i) st' ≡ ok end)
        × ((read_page (t, i) end).frame ≡ 0)
        × ((h : ℕ) → h ≢ 0 → used end.fmap h ≡ used st.fmap h)
  unfolding free_frame
  free_frame-Granted k w t i f st st' g v =
      let (ne, hi, free, least) = g.lowest in
      let e : (st'.pages t i).frame ≡ f = ap (λ (p : Page). p.frame) g.page in
      let back : f * page_size / page_size ≡ f = omega arith in
      (
        write_page (t, i) (record (read_page (t, i) st') { frame = 0 })
            (record st' { fmap = clear_frame ((st'.pages t i).frame * page_size) st'.fmap }),
        ground arith,
        ground arith,
        λ h nz.
            rw (used-clear_frame st'.fmap ((st'.pages t i).frame * page_size) h v, e, back)
              (ground (arith, g.marks h)),
      )

  -- Under the conditions of `alloc_frame-Granted`, on a bitmap of 32-bit words, `free_frame` after
  -- `alloc_frame` gives the frame back: both return, the page has no frame again, and apart from frame
  -- 0, which stays reserved, the bitmap marks what it marked before.
  pub free_frame-alloc_frame :
      (k w : Bool) (t i : ℕ) (st : Mm L)
      → (read_page (t, i) st).frame ≡ 0
      → st.fmap.nframes ≤ 2 ^ 20
      → HasFree st.fmap
      → IsBitmap st.fmap
      → (st' end : Mm L) × (alloc_frame 3 k w (t, i) st ≡ ok st')
        × (free_frame (t, i) st' ≡ ok end)
        × ((read_page (t, i) end).frame ≡ 0)
        × ((h : ℕ) → h ≢ 0 → used end.fmap h ≡ used st.fmap h)
  free_frame-alloc_frame k w t i st z small free v =
      let (f, st', run, g) = alloc_frame-Granted k w t i st z small free in
      let (end, run', none_left, marks) = free_frame-Granted k w t i f st st' g (g.words v) in
      (st', end, run, run', none_left, marks)
