-- ===== src/Arch/Multiboot/Walk.antt =====
-- arch/x86/multiboot.c: the walk over the memory map comes to its end, and misses no reserved region.
use levos.Prelude.{ℕ, suc, ◌+◌, ◌/◌, ◌%◌, ◌^◌, ◌≤◌, ◌<◌, ◌≡◌, refl, arith, true, ltb}
use levos.Mm.Frame.{page_size, u32}
use levos.Mm.Frame.Bitmap.{used}
use levos.Mm.State.{Mm}
use levos.Arch.Multiboot.{Entry, mark_entry, walk_map}

-- Where the entry behind the one at `at` stands.
abbrev pub behind : (ℕ → Entry) → ℕ → ℕ
behind entry_at at = at + (entry_at at).size + 4

-- The entries of the map that starts at `at` and ends before `end`.
pub data OnMap (entry_at : ℕ → Entry) (end : ℕ) : ℕ → ℕ → Type 0 where
  first : {at : ℕ} → at < end → OnMap entry_at end at at
  later :
      {at a : ℕ} → at < end → OnMap entry_at end (behind entry_at at) a → OnMap entry_at end at a

pub OnMap-lt : (entry_at : ℕ → Entry) (end at a : ℕ) → OnMap entry_at end at a → a < end
OnMap-lt entry_at end at a (first h) = h
OnMap-lt entry_at end at a (later h on) = OnMap-lt entry_at end _ a on

-- An address of the frame lies in the region, which is reserved and begins on a page.
abbrev pub InRegion : Entry → ℕ → Type 0
InRegion e f =
    (e.type ≡ 2)
    × (e.base_addr + e.length ≤ 2 ^ 32)
    × (e.base_addr % page_size ≡ 0)
    × (a : ℕ) × (a / page_size ≡ f)
    × (e.base_addr ≤ a)
    × (a < e.base_addr + e.length)

module _ {L : Type 0} (entry_at : ℕ → Entry) (end : ℕ) where
  -- The walk keeps every mark.
  pub Kept : Mm L → Mm L → Type 0
  Kept st st' = (f : ℕ) → used st.fmap f ≡ 1 → used st'.fmap f ≡ 1

  pub Reserved : ℕ → Mm L → Type 0
  Reserved at st' =
      (a f : ℕ) → OnMap entry_at end at a → InRegion (entry_at a) f → used st'.fmap f ≡ 1

  go_on :
      (fuel at : ℕ) (st : Mm L)
      → at < end
      → behind entry_at at < 2 ^ 32
      → walk_map entry_at (suc fuel) at end st
        ≡ walk_map entry_at fuel (behind entry_at at) end (mark_entry (entry_at at) st)
  unfolding walk_map
  go_on fuel at st h small =
      let inside : ltb at end ≡ true = ground arith in
      let next : u32 (at + (entry_at at).size + 4) ≡ behind entry_at at = omega arith in
      rw (inside, next) refl
