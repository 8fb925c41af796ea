-- ===== src/Arch/Multiboot/Reserve.antt =====
-- arch/x86/multiboot.c: which frames a region of the memory map reserves.
use levos.Prelude.{
  ℕ, zero, suc, ◌+◌, ◌-◌, ◌*◌, ◌/◌, ◌^◌, ◌≤◌, ◌<◌, ◌≡◌, ◌&&◌, leb, ltb, arith, if◌then◌else◌,
}
use levos.Mm.Frame.{page_size}
use levos.Mm.Frame.Bitmap.{used, used-set_frame}
use levos.Mm.State.{Mm}
use levos.Mm.Page.{mark_region}
use levos.Arch.Multiboot.{Entry, page_of, mark_pages, mark_entry}

mark_pages-used :
    {L : Type 0} (rounds i base : ℕ) (st : Mm L) (f : ℕ)
    → base + i + 0x1000 * rounds < 2 ^ 32 + 0x1000
    → used (mark_pages rounds i base st).fmap f ≡ (
        if leb ((base + i) / page_size) f && ltb f ((base + i) / page_size + rounds)
        then 1
        else used st.fmap f)
unfolding mark_pages mark_region
mark_pages-used zero i base st f h = ground arith
mark_pages-used (suc rounds) i base st f h =
    let st' = mark_region (page_of (base + i)) st in
    let rest = mark_pages-used rounds (i + 0x1000) base st' f (omega arith) in
    let now = used-set_frame st.fmap (page_of (base + i)) f in
    let here : page_of (base + i) / page_size ≡ (base + i) / page_size = omega arith in
    let next : (base + (i + 0x1000)) / page_size ≡ (base + i) / page_size + 1 = omega arith in
    rw (rest, next, now, here) (ground arith)

-- A reserved region of the memory map that ends within 32 bits takes exactly as many frames as its
-- length needs, counted from the frame that it begins in; the other frames of the bitmap stay as they
-- were.
pub mark_entry-used :
    {L : Type 0} (e : Entry) (st : Mm L) (f : ℕ)
    → e.type ≡ 2
    → e.base_addr + e.length ≤ 2 ^ 32
    → used (mark_entry e st).fmap f ≡ (
        if leb (e.base_addr / page_size) f
          && ltb f (e.base_addr / page_size + (e.length + 0x1000 - 1) / 0x1000)
        then 1
        else used st.fmap f)
unfolding mark_entry
mark_entry-used e st f reserved small =
    let start : e.base_addr + 0 ≡ e.base_addr = omega arith in
    let all = mark_pages-used ((e.length + 0x1000 - 1) / 0x1000) 0 e.base_addr st f (omega arith) in
    rw reserved (rw start at all)
