-- ===== src/Mm/Page/Frames.antt =====
-- `alloc_frame` of mm/page.c: the frame that a page is given.
use levos.Prelude.{
  ℕ, suc, ◌*◌, ◌/◌, ◌^◌, ◌≤◌, ◌<◌, ◌≡◌, ◌≢◌, ◌∙◌, ◌⊎◌, inl, inr, refl, ap, arith, Bool, ◌||◌, ◌==◌,
  if◌then◌else◌, Bool-cases,
}
use levos.Prelude.Outcome.{Outcome, ok, panic, fault, hang}
use levos.Mm.Frame.{FrameMap, page_size, set_frame, first_frame}
use levos.Mm.Frame.Bitmap.{used, IsBitmap, used-set_frame, set_frame-IsBitmap}
use levos.Mm.Frame.Search.{tracked, FirstFree, first_frame-FirstFree}
use levos.Mm.State.{Page, Mm, PagePtr}
use levos.Mm.Page.{u20, read_page, write_page, allow, take_frame, alloc_frame}

-- A frame other than 0 that is free, with none lower but perhaps frame 0.
abbrev pub LowestFree : FrameMap → ℕ → Type 0
LowestFree s f =
    (f ≢ 0) × (f < tracked s) × (used s f ≡ 0) × ((h : ℕ) → h ≢ 0 → h < f → used s h ≡ 1)

-- Some free frame is left for a page. Frame 0 does not count, since 0 stands for no frame.
abbrev pub HasFree : FrameMap → Type 0
HasFree s = (g : ℕ) × (g ≢ 0) × (g < tracked s) × (used s g ≡ 0)

found :
    (s : FrameMap) (o : Outcome ℕ)
    → HasFree s
    → FirstFree s o
    → (f : ℕ) × (o ≡ ok f) × FirstFree s (ok f)
found s (ok f) free h = (f, refl, h)
found s panic (g, ne, hi, free) h = absurd (omega (arith, h g hi))
found s fault free h = absurd h
found s hang free h = absurd h

first_frame_found :
    (s : FrameMap) → HasFree s → (f : ℕ) × (first_frame s ≡ ok f) × FirstFree s (ok f)
first_frame_found s free = found s (first_frame s) free (first_frame-FirstFree s)

tracked-set_frame : (s : FrameMap) (a : ℕ) → tracked (set_frame a s) ≡ tracked s
unfolding set_frame
tracked-set_frame s a = refl

used-set_at :
    (s : FrameMap) (f h : ℕ)
    → used (set_frame (f * page_size) s) h ≡ (if f == h then 1 else used s h)
used-set_at s f h =
    let e : f * page_size / page_size ≡ f = omega arith in
    rw (used-set_frame s (f * page_size) h, e)

module _ {L : Type 0} where
  page-write_self : (ptr : PagePtr) (p : Page) (st : Mm L) → read_page ptr (write_page ptr p st) ≡ p
  page-write_self (t, i) p st = ground arith

  page-write_ne :
      (t i t' i' : ℕ) (p : Page) (st : Mm L)
      → (t ≢ t') ⊎ (i ≢ i')
      → read_page (t', i') (write_page (t, i) p st) ≡ read_page (t', i') st
  page-write_ne t i t' i' p st h = ground arith

  fmap-take :
      (ptr : PagePtr) (f : ℕ) (st : Mm L)
      → (take_frame ptr f st).fmap ≡ set_frame (f * page_size) st.fmap
  unfolding take_frame
  fmap-take (t, i) f st = refl

  page-take :
      (ptr : PagePtr) (f : ℕ) (st : Mm L)
      → read_page ptr (take_frame ptr f st) ≡ record (read_page ptr st) { frame = u20 f }
  unfolding take_frame
  page-take (t, i) f st = ground arith

  other-take :
      (t i t' i' f : ℕ) (st : Mm L)
      → (t ≢ t') ⊎ (i ≢ i')
      → read_page (t', i') (take_frame (t, i) f st) ≡ read_page (t', i') st
  unfolding take_frame
  other-take t i t' i' f st h = ground arith

  alloc_done :
      (fuel : ℕ) (k w : Bool) (ptr : PagePtr) (st : Mm L)
      → (read_page ptr st).frame ≢ 0
      → alloc_frame (suc fuel) k w ptr st ≡ ok (write_page ptr (allow k w (read_page ptr st)) st)
  unfolding alloc_frame
  alloc_done fuel k w (t, i) st ne = elim (Bool-cases ((st.pages t i).frame == 0)) [
    | inl e ↦ absurd (ne (ground arith))
    | inr e ↦ rw e
  ]

  alloc_again :
      (fuel : ℕ) (k w : Bool) (ptr : PagePtr) (f : ℕ) (st : Mm L)
      → (read_page ptr st).frame ≡ 0
      → first_frame st.fmap ≡ ok f
      → alloc_frame (suc fuel) k w ptr st ≡ alloc_frame fuel k w ptr (take_frame ptr f st)
  unfolding alloc_frame
  alloc_again fuel k w (t, i) f st z e = rw (z, e)

  -- The page at `ptr` after its frame `f` is entered and its flags are set.
  granted : Bool → Bool → PagePtr → ℕ → Mm L → Mm L
  granted k w ptr f st =
      let st' = take_frame ptr f st in write_page ptr (allow k w (read_page ptr st')) st'

  page-granted :
      (k w : Bool) (ptr : PagePtr) (f : ℕ) (st : Mm L)
      → f < 2 ^ 20
      → read_page ptr (granted k w ptr f st) ≡ allow k w (record (read_page ptr st) { frame = f })
  unfolding granted
  page-granted k w ptr f st small =
      let e : u20 f ≡ f = omega arith in
      rw
        (page-write_self ptr (allow k w (read_page ptr (take_frame ptr f st)))
          (take_frame ptr f st))
        (rw (page-take ptr f st, e))

  other-granted :
      (k w : Bool) (t i t' i' f : ℕ) (st : Mm L)
      → (t ≢ t') ⊎ (i ≢ i')
      → read_page (t', i') (granted k w (t, i) f st) ≡ read_page (t', i') st
  unfolding granted take_frame
  other-granted k w t i t' i' f st h = ground arith

  fmap-granted :
      (k w : Bool) (ptr : PagePtr) (f : ℕ) (st : Mm L)
      → (granted k w ptr f st).fmap ≡ set_frame (f * page_size) st.fmap
  unfolding granted
  fmap-granted k w (t, i) f st = fmap-take (t, i) f st

  alloc_grant :
      (fuel : ℕ) (k w : Bool) (ptr : PagePtr) (f : ℕ) (st : Mm L)
      → (read_page ptr st).frame ≡ 0
      → f ≢ 0
      → f < 2 ^ 20
      → first_frame st.fmap ≡ ok f
      → alloc_frame (suc (suc fuel)) k w ptr st ≡ ok (granted k w ptr f st)
  unfolding granted
  alloc_grant fuel k w ptr f st z ne small e =
      alloc_again (suc fuel) k w ptr f st z e
      ∙ alloc_done fuel k w ptr (take_frame ptr f st) (rw (page-take ptr f st) (omega arith))

  -- What a call of `alloc_frame` on the page at `(t, i)` leaves, with the frame `f` that it gave.
  pub record Granted (k w : Bool) (t i f : ℕ) (st st' : Mm L) : Type 0 where
    pub lowest : LowestFree st.fmap f
    pub marks : (h : ℕ) → used st'.fmap h ≡ (if h == 0 || h == f then 1 else used st.fmap h)
    pub page : read_page (t, i) st' ≡ allow k w (record (read_page (t, i) st) { frame = f })
    pub others : (t' i' : ℕ) → (t ≢ t') ⊎ (i ≢ i') → read_page (t', i') st' ≡ read_page (t', i') st
    pub words : IsBitmap st.fmap → IsBitmap st'.fmap

  grant_now :
      (k w : Bool) (t i f : ℕ) (st : Mm L)
      → f ≢ 0
      → f < 2 ^ 20
      → FirstFree st.fmap (ok f)
      → Granted k w t i f st (granted k w (t, i) f st)
  grant_now k w t i f st ne small (lo, free, least) = record {
    lowest = (ne, lo, free, λ h z hf. least h hf);
    marks = λ h.
        rw (fmap-granted k w (t, i) f st)
          (ground (arith, used-set_at st.fmap f h, least 0 (omega arith)));
    page = page-granted k w (t, i) f st small;
    others = λ t' i' h. other-granted k w t i t' i' f st h;
    words = λ v. rw (fmap-granted k w (t, i) f st) (set_frame-IsBitmap st.fmap (f * page_size) v);
  }

  -- Frame 0 was the lowest free one: it is marked, and the search goes on.
  grant_later :
      (k w : Bool) (t i f : ℕ) (st : Mm L)
      → (read_page (t, i) st).frame ≡ 0
      → f ≢ 0
      → f < 2 ^ 20
      → FirstFree (set_frame (0 * page_size) st.fmap) (ok f)
      → Granted k w t i f st (granted k w (t, i) f (take_frame (t, i) 0 st))
  grant_later k w t i f st z ne small (lo, free, least) = record {
    lowest = (
      ne,
      rw (tracked-set_frame st.fmap (0 * page_size)) at lo,
      ground (arith, used-set_at st.fmap 0 f),
      λ h hz hf. ground (arith, least h hf, used-set_at st.fmap 0 h),
    );
    marks = λ h.
        rw (fmap-granted k w (t, i) f (take_frame (t, i) 0 st), fmap-take (t, i) 0 st)
          (ground
            (arith, used-set_at (set_frame (0 * page_size) st.fmap) f h, used-set_at st.fmap 0 h));
    page =
        page-granted k w (t, i) f (take_frame (t, i) 0 st) small
        ∙ ap (λ p. allow k w (record p { frame = f })) (page-take (t, i) 0 st);
    others = λ t' i' h.
        other-granted k w t i t' i' f (take_frame (t, i) 0 st) h ∙ other-take t i t' i' 0 st h;
    words = λ v.
        rw (fmap-granted k w (t, i) f (take_frame (t, i) 0 st), fmap-take (t, i) 0 st)
          (set_frame-IsBitmap (set_frame (0 * page_size) st.fmap) (f * page_size)
            (set_frame-IsBitmap st.fmap (0 * page_size) v));
  }

  alloc_from_zero :
      (k w : Bool) (t i : ℕ) (st : Mm L)
      → (read_page (t, i) st).frame ≡ 0
      → st.fmap.nframes ≤ 2 ^ 20
      → HasFree st.fmap
      → first_frame st.fmap ≡ ok 0
      → (f : ℕ) × (st' : Mm L) × (alloc_frame 3 k w (t, i) st ≡ ok st') × Granted k w t i f st st'
  alloc_from_zero k w t i st z small (g, gne, ghi, gfree) e =
      let s0 = set_frame (0 * page_size) st.fmap in
      let left : HasFree s0 = (
        g,
        gne,
        rw (tracked-set_frame st.fmap (0 * page_size)) ghi,
        ground (arith, used-set_at st.fmap 0 g),
      ) in
      let (f, found_f, first) = first_frame_found s0 left in
      let bound = rw (tracked-set_frame st.fmap (0 * page_size)) at first.0 in
      let ne : f ≢ 0 = λ zero_f. ground (arith, used-set_at st.fmap 0 f, first.1) in
      let st0 = take_frame (t, i) 0 st in
      let z0 : (read_page (t, i) st0).frame ≡ 0 =
        ap (λ (p : Page). p.frame) (page-take (t, i) 0 st) in
      (
        f,
        granted k w (t, i) f st0,
        alloc_again 2 k w (t, i) 0 st z e
            ∙ alloc_grant 0 k w (t, i) f st0 z0 ne (omega arith)
                (rw (fmap-take (t, i) 0 st) found_f),
        grant_later k w t i f st z ne (omega arith) first,
      )

  -- With at most 2 ^ 20 frames, some free one other than frame 0 among those of the bitmap's whole
  -- words, and a page without a frame, `alloc_frame` returns after at most two searches: the page gets
  -- the lowest free frame other than 0 and its flags, that frame and frame 0 are marked and the marks
  -- of all others stay, and no other page changes.
  pub alloc_frame-Granted :
      (k w : Bool) (t i : ℕ) (st : Mm L)
      → (read_page (t, i) st).frame ≡ 0
      → st.fmap.nframes ≤ 2 ^ 20
      → HasFree st.fmap
      → (f : ℕ) × (st' : Mm L) × (alloc_frame 3 k w (t, i) st ≡ ok st') × Granted k w t i f st st'
  alloc_frame-Granted k w t i st z small free =
      let (f, e, first) = first_frame_found st.fmap free in
      elim (Bool-cases (f == 0)) [
        | inl is_zero ↦
            let f0 : f ≡ 0 = ground arith in alloc_from_zero k w t i st z small free (rw f0 at e)
        | inr is_not ↦
            let ne : f ≢ 0 = ground arith in
            (
              f,
              granted k w (t, i) f st,
              alloc_grant 1 k w (t, i) f st z ne (omega (arith, first.0)) e,
              grant_now k w t i f st ne (omega (arith, first.0)) first,
            )
      ]
