-- ===== src/Mm/Fini/Identity.antt =====
-- mm/page.c: a range of pages that is mapped onto itself.
use levos.Prelude.{
  ℕ, zero, suc, ◌+◌, ◌*◌, ◌/◌, ◌%◌, ◌^◌, ◌≤◌, ◌<◌, ◌≡◌, ◌≢◌, ◌∙◌, ◌⊎◌, inl, inr, refl, arith, Bool,
  true, false, ◌==◌, Bool-cases,
}
use levos.Prelude.Outcome.{ok}
use levos.Mm.Frame.{page_size}
use levos.Mm.State.{Mm, virtual_to_physical}
use levos.Mm.Page.Translate.{table_of, WellMapped, CanGrow}
use levos.Mm.Page.Map.{Mapped, in_use, WellMapped-in_use, map_dma-in_use}
use levos.Mm.Fini.{map_range}

-- The early allocator has room for `n` page tables.
abbrev pub CanGrowBy : {L : Type 0} → ℕ → Mm L → Type 0
CanGrowBy n st =
    (st.heap_online ≡ false) × (page_size ≤ st.plp) × (st.plp + 0x2000 * n + 0x1000 < 2 ^ 32)

module _ {L : Type 0} (new_malloc : ℕ → Mm L → ℕ × Mm L) where
  -- What mapping `n` pages from page `f` on leaves.
  pub record Ranged (dir f n : ℕ) (st st' : Mm L) : Type 0 where
    pub identity :
        (b : ℕ) → f ≤ b / page_size → b / page_size < f + n → virtual_to_physical b st' ≡ b
    pub others :
        (b : ℕ)
        → (b / page_size < f) ⊎ (f + n ≤ b / page_size)
        → table_of st dir b ≢ 0
        → virtual_to_physical b st' ≡ virtual_to_physical b st
    pub mapped : WellMapped dir st'

  -- The page that was mapped first keeps its translation.
  first_page :
      (dir f n b : ℕ) (st st1 st' : Mm L)
      → Mapped new_malloc dir (f * page_size) st st1
      → Ranged dir (f + 1) n st1 st'
      → b / page_size ≡ f
      → virtual_to_physical b st' ≡ b
  first_page dir f n b st st1 st' one rest same =
      let at : b / page_size ≡ f * page_size / page_size = omega arith in
      let there : (st1.dirs dir).tables (b / page_size / 1024) ≢ 0 = rw at one.entry in
      let whole : f * page_size + b % page_size ≡ b = omega arith in
      rest.others b (inl (omega arith)) there
      ∙ rw whole at (one.identity (b % page_size) (omega arith))

  one_more :
      (dir f n : ℕ) (st st1 st' : Mm L)
      → WellMapped dir st
      → Mapped new_malloc dir (f * page_size) st st1
      → Ranged dir (f + 1) n st1 st'
      → Ranged dir f (suc n) st st'
  one_more dir f n st st1 st' v one rest = record {
    identity = λ b lo hi. elim (Bool-cases (f == b / page_size)) [
      | inl e ↦ first_page dir f n b st st1 st' one rest (ground arith)
      | inr e ↦ rest.identity b (ground arith) (ground arith)
    ];
    others = λ b away there.
        let there1 : table_of st1 dir b ≢ 0 = rw (one.tables b there) there in
        rest.others b (still_away b away) there1 ∙ one.others b v (ground arith) there;
    mapped = rest.mapped;
  }
    where
      still_away :
          (b : ℕ)
          → (b / page_size < f) ⊎ (f + suc n ≤ b / page_size)
          → (b / page_size < f + 1) ⊎ (f + 1 + n ≤ b / page_size)
      still_away b (inl h) = inl (omega arith)
      still_away b (inr h) = inr (omega arith)

  -- A range of page-aligned addresses below 4 GiB, mapped onto itself page by page in a directory whose page
  -- tables are distinct, in use or not, while the early allocator has room for a table for each page: the
  -- loop returns. Once the directory is in use, every address of the range translates to itself, every
  -- other address that had a page table translates as it would have done before, and the tables are
  -- distinct again.
  pub map_range-Ranged :
      (n f : ℕ) (k w : Bool) (dir : ℕ) (st : Mm L)
      → f + n ≤ 2 ^ 20
      → CanGrowBy n st
      → WellMapped dir st
      → (st' : Mm L) × (map_range new_malloc true k w dir n (f * page_size) st ≡ ok st')
        × Ranged dir f n (in_use new_malloc dir st) (in_use new_malloc dir st')
  unfolding map_range
  map_range-Ranged zero f k w dir st small room v = (
    st,
    refl,
    record {
      identity = λ b lo hi. absurd (omega arith);
      others = λ b away there. refl;
      mapped = WellMapped-in_use new_malloc dir dir st v;
    },
  )
  map_range-Ranged (suc n) f k w dir st small (off, lo, hi) v =
      let grow : CanGrow st = (off, lo, omega arith) in
      let (st1, run, one) =
        map_dma-in_use new_malloc k w (f * page_size) dir st (omega arith) (omega arith)
          (inr grow) in
      let next : f * page_size + 0x1000 ≡ (f + 1) * page_size = omega arith in
      let low = one.grows in
      let high = one.little in
      let v0 = WellMapped-in_use new_malloc dir dir st v in
      let v1 = one.mapped v0 in
      let (st', rest, all) =
        map_range-Ranged n (f + 1) k w dir st1 (omega arith)
          (one.heap ∙ off, omega arith, omega arith)
          (record { below = v1.below; distinct = v1.distinct }) in
      (
        st',
        rw (run, next, rest) refl,
        one_more dir f n (in_use new_malloc dir st) (in_use new_malloc dir st1)
            (in_use new_malloc dir st') v0 one all,
      )
