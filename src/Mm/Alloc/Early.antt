-- ===== src/Mm/Alloc/Early.antt =====
-- The early allocator of mm/alloc.c: alignment, and blocks that do not overlap.
use levos.Prelude.{ℕ, ◌+◌, ◌%◌, ◌^◌, ◌≤◌, ◌<◌, ◌≡◌, refl, arith, Bool, true, false, List, [], ◌∷◌}
use levos.Prelude.Outcome.{Outcome, ok, ◌>>=◌}
use levos.Mm.Frame.{page_size, u32}
use levos.Mm.State.{Mm}
use levos.Mm.Alloc.{round_plp, kmalloc_with}

module _ {L : Type 0} (new_malloc : ℕ → Mm L → ℕ × Mm L) where
  -- Requests made one after the other, a size and whether it is to be aligned, with their addresses.
  abbrev pub serve : List (ℕ × Bool) → Mm L → Outcome (List (ℕ × ℕ) × Mm L)
  serve [] st = ok ([], st)
  serve ((s, a) ∷ more) st = do
    ((addr, phys), st') ← kmalloc_with new_malloc s a st
    (blocks, end) ← serve more st'
    ok ((addr, s) ∷ blocks, end)

-- The most that the requests can take up, with the alignment of each.
abbrev pub room : List (ℕ × Bool) → ℕ
room [] = 0
room ((s, a) ∷ more) = s + page_size + room more

-- The blocks that serve the requests: each has the size asked for and begins behind the end of the one
-- before, on a page boundary if that was asked for; the last ends before `hi`.
abbrev pub Placed : ℕ → List (ℕ × Bool) → List (ℕ × ℕ) → ℕ → Type 0
Placed lo [] [] hi = lo ≡ hi
Placed lo [] (_ ∷ _) hi = ⊥
Placed lo (_ ∷ _) [] hi = ⊥
Placed lo ((s, a) ∷ more) ((addr, size) ∷ blocks) hi =
    (lo ≤ addr) × (size ≡ s) × (a ≡ true → addr % page_size ≡ 0) × Placed (addr + s) more blocks hi

-- An aligned request skips to the next page boundary, and never stays where it is.
round_plp_bounds :
    (a : Bool) (plp : ℕ)
    → page_size ≤ plp
    → plp + page_size < 2 ^ 32
    → (plp ≤ round_plp a plp)
      × (round_plp a plp ≤ plp + page_size)
      × (a ≡ true → (round_plp a plp % page_size ≡ 0) × (plp < round_plp a plp))
unfolding round_plp
round_plp_bounds true plp lo hi = ground arith
round_plp_bounds false plp lo hi = ground arith

module _ {L : Type 0} (new_malloc : ℕ → Mm L → ℕ × Mm L) where
  early_step :
      (s : ℕ) (a : Bool) (st : Mm L)
      → st.heap_online ≡ false
      → kmalloc_with new_malloc s a st
        ≡ ok (
          (round_plp a st.plp, round_plp a st.plp),
          record st { plp = u32 (round_plp a st.plp + s) },
        )
  unfolding kmalloc_with
  early_step s a st off = rw off

  -- Before the heap is online, with `plp` at 0x1000 or more and room below 4 GiB, any sequence of
  -- requests succeeds: the blocks have the sizes asked for, follow one another from `plp` without
  -- overlap, begin on a page boundary where that is asked for, and end at the new `plp`.
  pub early_allocs :
      (rs : List (ℕ × Bool)) (st : Mm L)
      → st.heap_online ≡ false
      → page_size ≤ st.plp
      → st.plp + room rs < 2 ^ 32
      → (blocks : List (ℕ × ℕ)) × (end : Mm L) × (serve new_malloc rs st ≡ ok (blocks, end))
        × Placed st.plp rs blocks end.plp
  early_allocs [] st off lo fits = ([], st, refl, refl)
  early_allocs ((s, a) ∷ more) st off lo fits =
      let (up, near, aligned) = round_plp_bounds a st.plp lo (omega arith) in
      let st' : Mm L = record st { plp = u32 (round_plp a st.plp + s) } in
      let e : u32 (round_plp a st.plp + s) ≡ round_plp a st.plp + s = omega arith in
      let (blocks, end, run, placed) = early_allocs more st' off (omega arith) (omega arith) in
      (
        (round_plp a st.plp, s) ∷ blocks,
        end,
        rw (early_step s a st off, run),
        (up, refl, λ t. (aligned t).0, rw e at placed),
      )
