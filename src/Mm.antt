-- ===== src/Mm.antt =====
-- mm/: physical frames, page tables and the early allocator.
pub mod Frame
pub mod State
pub mod Alloc
pub mod Page
pub mod Init
pub mod Fini
